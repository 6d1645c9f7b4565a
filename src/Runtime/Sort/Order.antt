-- ===== src/Runtime/Sort/Order.antt =====
-- What `sortModules` promises about the order, and when it fails.
use native.Mathlib.Nat.{zero-add}
use lakta.Prelude.{
  ℕ, zero, suc, ◌+◌, ◌≤◌, ◌<◌, ◌≡◌, refl, subst, ◌⊎◌, inl, inr, some, List, [], ◌∷◌, ◌++◌,
  append-nil, arith, nat_eqb, nat_keyed, ◌==◌, if◌then◌else◌, leb, ltb, ◌&&◌, length, get_elem?,
  count, sum_below-zero, sum_below-full, length-eq-sum_count, sum_below-one, Result, ok, err,
}
use lakta.Runtime.Module.{Module}
use lakta.Runtime.Sort.{
  Graph, SortError, cycle, no_edges, link_modules, seed, check_complete, sort_indices,
}
use lakta.Runtime.Sort.Owner.{owners, OwnedBy, owners-OwnedBy, IsOwner}
use lakta.Runtime.Sort.Build.{IsBuilt, IsBuilt-no_edges}
use lakta.Runtime.Sort.Links.{
  AllLinked, link_modules-AllLinked, DependsOn, IsUnmet, link_modules-err,
}
use lakta.Runtime.Sort.Kahn.{Inv, Drained, drain_lem, waits}

pub get_elem?-lt :
    {A : Type 0} (xs : List A) (i : ℕ) {a : A} → get_elem? xs i ≡ some a → i < length xs
get_elem?-lt [] i e = absurd (cc)
get_elem?-lt (x ∷ xs) zero e = omega arith
get_elem?-lt (x ∷ xs) (suc i) e = omega (arith, get_elem?-lt xs i e)

pub owners-lt : (ms : List Module) (t o : ℕ) → owners ms t ≡ some o → o < length ms
owners-lt ms t o e =
    let h : IsOwner 0 ms t o = subst (OwnedBy ms t) e (owners-OwnedBy ms t) in
    omega (arith, h.counted, get_elem?-lt ms h.place h.at)

-- `seed` finds each index once, exactly if its count is zero.
pub count-seed :
    (deg : ℕ → ℕ) (k : ℕ) (ms : List Module) (j : ℕ)
    → count j (seed deg k ms)
      ≡ (if nat_eqb (deg j) 0 then (if leb k j && ltb j (k + length ms) then 1 else 0) else 0)
unfolding seed
count-seed deg k [] j = ground arith
count-seed deg k (m ∷ ms) j = ground (arith, count-seed deg (suc k) ms j)

module _ (ms : List Module) {g : Graph} (built : IsBuilt (length ms) g) where
  Inv-seed : Inv (length ms) g.edges [] (seed g.in_degree 0 ms) g.in_degree
  Inv-seed = record {
    mid = record {
      room = λ i p. ground (arith, count-seed g.in_degree 0 ms i);
      degree = λ j. ground (arith, built.degree j);
      queued = λ j l. ground (arith, count-seed g.in_degree 0 ms j);
    };
    ordered = λ i j l p e. absurd (omega arith);
  }

  pub drained : Drained (length ms) g.edges (length ms) [] (seed g.in_degree 0 ms) g.in_degree
  drained =
      drain_lem (length ms) g.edges built.near (length ms) [] (seed g.in_degree 0 ms) g.in_degree
        Inv-seed (omega arith)

  abbrev pub final : List ℕ
  final = drained.final

  count-final : (j : ℕ) → count j final ≡ count j (final ++ [])
  count-final j = rw append-nil

  count-final-le : (j : ℕ) → j < length ms → count j final ≤ 1
  count-final-le j l = ground (arith, count-final j, drained.inv.mid.queued j l)

  pub final-lt : (j : ℕ) → 0 < count j final → j < length ms
  final-lt j p = drained.inv.mid.room j (omega (arith, count-final j))

  -- A full list of sorted nodes has every node.
  pub final-full : length final ≡ length ms → (j : ℕ) → j < length ms → count j final ≡ 1
  final-full e j l =
      sum_below-full (length ms) (λ a. count a final) j count-final-le
        (omega (arith, length-eq-sum_count (length ms) final final-lt)) l

  full_length : ((j : ℕ) → j < length ms → count j final ≡ 1) → length final ≡ length ms
  full_length all = omega (
    arith,
    length-eq-sum_count (length ms) final final-lt,
    sum_below-one (length ms) (λ a. count a final) all,
  )

  -- If a rank grows along every edge, then every node of a rank below `r` is sorted.
  module _ (rank : ℕ → ℕ)
      (grows : (i j : ℕ) → i < length ms → 0 < count j (g.edges i) → rank i < rank j) where
    idle :
        (r j : ℕ)
        → ((i : ℕ) → rank i < r → i < length ms → count i final ≡ 1)
        → rank j < suc r
        → (i : ℕ) → i < length ms
        → waits (length ms) g.edges final j i ≡ 0
    idle r j ih below i li = ground (arith, grows i j li, ih i)

    ranked_sorted : (r j : ℕ) → rank j < r → j < length ms → count j final ≡ 1
    ranked_sorted zero j below l = absurd (omega arith)
    ranked_sorted (suc r) j below l = ground (
      arith,
      count-final j,
      drained.inv.mid.queued j l,
      drained.inv.mid.degree j,
      sum_below-zero (length ms) (waits (length ms) g.edges final j)
          (idle r j (ranked_sorted r) below),
    )

    pub acyclic_full : length final ≡ length ms
    acyclic_full = full_length (λ j l. ranked_sorted (suc (rank j)) j (omega arith) l)

-- The two ways in which the dependencies are read: an unmet one, or a graph for the loop.
pub record Read (ms : List Module) : Type 0 where
  pub graph : Graph
  pub linked : AllLinked (length ms) (owners ms) (owners-lt ms) 0 ms no_edges graph
  pub built : IsBuilt (length ms) graph
  pub runs : sort_indices ms ≡ (
      if length (drained ms built).final == length ms
      then ok (drained ms built).final
      else err cycle)

pub sort_cases :
    (ms : List Module)
    → ((e : SortError) × (sort_indices ms ≡ err e) × IsUnmet (owners ms) ms e) ⊎ Read ms
unfolding sort_indices check_complete
sort_cases ms = go (link_modules (owners ms) 0 ms no_edges) refl
  where
    go :
        (r : Result SortError Graph)
        → link_modules (owners ms) 0 ms no_edges ≡ r
        → ((e : SortError) × (sort_indices ms ≡ err e) × IsUnmet (owners ms) ms e) ⊎ Read ms
    go (err e) eq = inl (e, rw eq, link_modules-err (owners ms) 0 ms no_edges eq)
    go (ok g) eq =
        let linked =
          link_modules-AllLinked (length ms) (owners ms) (owners-lt ms) 0 ms no_edges (omega arith)
            eq in
        let built = linked.built (IsBuilt-no_edges (length ms)) in
        inr (record {
          graph = g;
          linked = linked;
          built = built;
          runs = rw eq (rw (drained ms built).returns);
        })

module _ (ms : List Module) (r : Read ms) where
  pub edge-DependsOn : (i j : ℕ) → 0 < count j (r.graph.edges i) → DependsOn (owners ms) 0 ms j i
  edge-DependsOn i j p = elim (r.linked.sound i j p) [ inl z ↦ absurd (omega arith) | inr d ↦ d ]

  pub DependsOn-edge :
      (i j : ℕ)
      → DependsOn (owners ms) 0 ms j i
      → (i < length ms) × (j < length ms) × (0 < count j (r.graph.edges i))
  DependsOn-edge i j d =
      let same : j ≡ d.place = omega (arith, d.counted) in
      (
        owners-lt ms d.type i d.owned,
        omega (arith, get_elem?-lt ms d.place d.at),
        rw same (
            rw zero-add at (
              r.linked.complete d.place d.type i d.module_at d.at d.declared d.owned
                (λ e. d.other (omega arith)))),
      )
