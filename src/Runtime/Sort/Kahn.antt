-- ===== src/Runtime/Sort/Kahn.antt =====
-- The loop of `sortModules` over any graph: `edges` with `n` nodes, each count in step with the
-- edges that still come from nodes not yet sorted.
use lakta.Prelude.{
  ℕ, zero, suc, ◌+◌, ◌-◌, ◌≤◌, ◌<◌, ◌≡◌, refl, sym, inl, inr, ◌∙◌, Bool, true, false, some, List,
  [], ◌∷◌, ◌++◌, append_assoc, append-nil, arith, nat_eqb, if◌then◌else◌, nat-cases, length,
  length-append, update, count, count-append, index_of, index_of-lt-length, index_of-append,
  index_of-snoc_new, sum_below, le-sum_below, sum_below-change, sum_below-le, length-eq-sum_count,
}
use lakta.Runtime.Sort.{release, drain}

module _ (n : ℕ) (edges : ℕ → List ℕ) where
  -- The edges from `i` to `j` that wait for `i` to be sorted.
  abbrev pub waits : List ℕ → ℕ → ℕ → ℕ
  waits sorted j i = if nat_eqb (count i sorted) 0 then count j (edges i) else 0

  abbrev pub InRange : Type 0
  InRange = (i j : ℕ) → i < n → 0 < count j (edges i) → j < n

  -- The state inside `for _, next := range edges[idx]`, with `rest` still to visit.
  pub record Mid (sorted queue : List ℕ) (deg : ℕ → ℕ) (rest : List ℕ) : Type 0 where
    pub room : (i : ℕ) → 0 < count i (sorted ++ queue) → i < n
    pub degree : (j : ℕ) → deg j ≡ sum_below n (waits sorted j) + count j rest
    pub queued : (j : ℕ) → j < n → count j (sorted ++ queue) ≡ (if nat_eqb (deg j) 0 then 1 else 0)

  pub record Inv (sorted queue : List ℕ) (deg : ℕ → ℕ) : Type 0 where
    pub mid : Mid sorted queue deg []
    pub ordered :
        (i j : ℕ)
        → i < n
        → 0 < count j sorted
        → 0 < count j (edges i)
        → (0 < count i sorted) × (index_of i sorted < index_of j sorted)

  module _ {sorted queue : List ℕ} {deg : ℕ → ℕ} {next : ℕ} {rest : List ℕ}
      (m : Mid sorted queue deg (next ∷ rest)) (l : next < n) where
    -- The source decrements only positive counts, so truncation at 0 never shows.
    pub release_pos : 0 < deg next
    release_pos = ground (arith, m.degree next)

    Mid-visit :
        Mid sorted
          (if nat_eqb (deg next - 1) 0 then queue ++ next ∷ [] else queue)
          (update deg next (deg next - 1))
          rest
    Mid-visit = record {
      room = λ i p. ground (
        arith,
        m.room i,
        count-append i sorted queue,
        count-append i sorted (queue ++ next ∷ []),
        count-append i queue (next ∷ []),
      );
      degree = λ j. ground (arith, m.degree j, m.degree next);
      queued = λ j lj. ground (
        arith,
        m.queued j lj,
        m.degree j,
        release_pos,
        count-append j sorted queue,
        count-append j sorted (queue ++ next ∷ []),
        count-append j queue (next ∷ []),
      );
    }

  Mid-release :
      (rest : List ℕ) (sorted queue : List ℕ) (deg : ℕ → ℕ)
      → ((j : ℕ) → 0 < count j rest → j < n)
      → Mid sorted queue deg rest
      → Mid sorted (release rest deg queue).1 (release rest deg queue).0 []
  unfolding release
  Mid-release [] sorted queue deg near m = m
  Mid-release (next ∷ rest) sorted queue deg near m =
      Mid-release rest sorted _ _ (λ j p. near j (ground arith))
        (Mid-visit m (near next (ground arith)))

  extend :
      (queue : List ℕ) (next : ℕ) (b : Bool) {out : List ℕ}
      → ((more : List ℕ) × (out ≡ (if b then queue ++ next ∷ [] else queue) ++ more))
      → (more : List ℕ) × (out ≡ queue ++ more)
  extend queue next true (more, e) = (next ∷ more, e ∙ append_assoc queue (next ∷ []) more)
  extend queue next false (more, e) = (more, e)

  -- A visit only appends to the queue.
  release-extends :
      (rest queue : List ℕ) (deg : ℕ → ℕ)
      → (more : List ℕ) × ((release rest deg queue).1 ≡ queue ++ more)
  unfolding release
  release-extends [] queue deg = ([], sym (append-nil queue))
  release-extends (next ∷ rest) queue deg =
      extend queue next (nat_eqb (deg next - 1) 0)
        (release-extends rest _ (update deg next (deg next - 1)))

  module _ {sorted queue : List ℕ} {deg : ℕ → ℕ} {idx : ℕ}
      (inv : Inv sorted (idx ∷ queue) deg) where
    idx-lt : idx < n
    idx-lt = inv.mid.room idx (ground (arith, count-append idx sorted (idx ∷ queue)))

    idx_new : count idx sorted ≡ 0
    idx_new = ground (arith, count-append idx sorted (idx ∷ queue), inv.mid.queued idx idx-lt)

    idx_free : deg idx ≡ 0
    idx_free = ground (arith, count-append idx sorted (idx ∷ queue), inv.mid.queued idx idx-lt)

    waits-snoc :
        (j : ℕ)
        → sum_below n (waits sorted j)
          ≡ sum_below n (waits (sorted ++ idx ∷ []) j) + count j (edges idx)
    waits-snoc j = ground (
      arith,
      idx_new,
      count-append idx sorted (idx ∷ []),
      sum_below-change n (waits sorted j) (waits (sorted ++ idx ∷ []) j) idx idx-lt
          (λ i ne. ground (arith, count-append i sorted (idx ∷ []))),
    )

    Mid-pop : Mid (sorted ++ idx ∷ []) queue deg (edges idx)
    Mid-pop = record {
      room = λ i p. inv.mid.room i (rw append_assoc at p);
      degree = λ j. ground (arith, inv.mid.degree j, waits-snoc j);
      queued = λ j l. rw append_assoc (inv.mid.queued j l);
    }

    -- Every node with an edge to `idx` is sorted by now.
    before_idx : (i : ℕ) → i < n → 0 < count idx (edges i) → 0 < count i sorted
    before_idx i l p =
        ground (arith, le-sum_below n (waits sorted idx) i l, inv.mid.degree idx, idx_free)

    ordered-snoc :
        (i j : ℕ)
        → i < n
        → 0 < count j (sorted ++ idx ∷ [])
        → 0 < count j (edges i)
        → (0 < count i (sorted ++ idx ∷ []))
          × (index_of i (sorted ++ idx ∷ []) < index_of j (sorted ++ idx ∷ []))
    ordered-snoc i j l p e = elim (nat-cases j idx) [
      | inl same ↦
          let e' : 0 < count idx (edges i) = rw (← same) e in
          let old = before_idx i l e' in
          (
            ground (arith, count-append i sorted (idx ∷ []), old),
            rw same (
                rw (index_of-snoc_new idx sorted idx_new)
                  (rw (index_of-append i sorted (idx ∷ []) old) (index_of-lt-length i sorted old))),
          )
      | inr other ↦
          let pj : 0 < count j sorted = ground (arith, count-append j sorted (idx ∷ [])) in
          let (old, before) = inv.ordered i j l pj e in
          (
            ground (arith, count-append i sorted (idx ∷ []), old),
            rw (index_of-append i sorted (idx ∷ []) old)
                (rw (index_of-append j sorted (idx ∷ []) pj) before),
          )
    ]

    Inv-step :
        InRange
        → Inv
            (sorted ++ idx ∷ [])
            (release (edges idx) deg queue).1
            (release (edges idx) deg queue).0
    Inv-step near = record {
      mid = Mid-release (edges idx) _ queue deg (λ j. near idx j idx-lt) Mid-pop;
      ordered = ordered-snoc;
    }

  -- What is sorted stays below `n` and has no repetition, so it is no longer than `n`.
  module _ {sorted queue : List ℕ} {deg : ℕ → ℕ} (inv : Inv sorted queue deg) where
    count-le_one : (j : ℕ) → j < n → count j (sorted ++ queue) ≤ 1
    count-le_one j l = ground (arith, inv.mid.queued j l)

    length-le : length (sorted ++ queue) ≤ n
    length-le = omega (
      arith,
      length-eq-sum_count n (sorted ++ queue) inv.mid.room,
      sum_below-le n (λ j. count j (sorted ++ queue)) count-le_one,
    )

  pub record Drained (fuel : ℕ) (sorted queue : List ℕ) (deg : ℕ → ℕ) : Type 0 where
    pub final : List ℕ
    pub returns : drain fuel edges queue deg sorted ≡ some final
    pub deg' : ℕ → ℕ
    pub inv : Inv final [] deg'
    pub more : List ℕ
    pub extends : final ≡ (sorted ++ queue) ++ more

  -- With fuel for the nodes not yet sorted the loop ends, and the invariant holds at its end.
  pub drain_lem :
      InRange
      → (fuel : ℕ) (sorted queue : List ℕ) (deg : ℕ → ℕ) → Inv sorted queue deg
      → n ≤ fuel + length sorted
      → Drained fuel sorted queue deg
  unfolding drain
  drain_lem near zero sorted [] deg inv enough = record {
    final = sorted;
    returns = refl;
    deg' = deg;
    inv = inv;
    more = [];
    extends = sym (append-nil _ ∙ append-nil sorted);
  }
  drain_lem near zero sorted (idx ∷ queue) deg inv enough =
      absurd (omega (arith, length-le inv, length-append sorted (idx ∷ queue)))
  drain_lem near (suc fuel) sorted [] deg inv enough = record {
    final = sorted;
    returns = refl;
    deg' = deg;
    inv = inv;
    more = [];
    extends = sym (append-nil _ ∙ append-nil sorted);
  }
  drain_lem near (suc fuel) sorted (idx ∷ queue) deg inv enough =
      let freed = release (edges idx) deg queue in
      let rest =
        drain_lem near fuel (sorted ++ idx ∷ []) freed.1 freed.0 (Inv-step inv near)
          (omega (arith, length-append sorted (idx ∷ []))) in
      let (added, e) = release-extends (edges idx) queue deg in
      record {
        final = rest.final;
        returns = rest.returns;
        deg' = rest.deg';
        inv = rest.inv;
        more = added ++ rest.more;
        extends = cc (
          rest.extends,
          e,
          append_assoc sorted (idx ∷ []) (queue ++ added),
          append_assoc sorted (idx ∷ queue) (added ++ rest.more),
          append_assoc sorted (idx ∷ (queue ++ added)) rest.more,
          append_assoc queue added rest.more,
        );
      }
