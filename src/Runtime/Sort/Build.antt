-- ===== src/Runtime/Sort/Build.antt =====
-- The graph that `sortModules` builds: its counts fit its edges, and its edges are the declared
-- dependencies on other modules.
use lakta.Prelude.{
  ℕ, ◌+◌, ◌≤◌, ◌<◌, ◌≡◌, ◌≢◌, refl, sym, subst, ◌⊎◌, inl, inr, Bool-cases, Option-cases, true, none,
  some, String, List, [], ◌∷◌, arith, nat_keyed, nat_eqb, nat-cases, if◌then◌else◌, contains, count,
  count-append, sum_below, sum_below-change, sum_below-zero, ok,
}
use lakta.Runtime.Sort.{Owners, Graph, no_edges, link, link_required, link_optional}
use lakta.Runtime.Sort.Kahn.{InRange}

-- Each count is the number of edges into its node, and edges stay below `n`.
pub record IsBuilt (n : ℕ) (g : Graph) : Type 0 where
  pub degree : (j : ℕ) → g.in_degree j ≡ sum_below n (λ i. count j (g.edges i))
  pub near : InRange n g.edges

pub IsBuilt-no_edges : (n : ℕ) → IsBuilt n no_edges
IsBuilt-no_edges n = record {
  degree = λ j. sym (sum_below-zero n (λ i. 0) (λ i l. refl));
  near = λ i j l p. absurd (omega arith);
}

count-link :
    (o i a j : ℕ) (g : Graph)
    → count j ((link o i g).edges a)
      ≡ count j (g.edges a)
        + (if nat_eqb o i then 0 else if nat_eqb o a then (if nat_eqb i j then 1 else 0) else 0)
unfolding link
count-link o i a j g = ground (arith, count-append j (g.edges a) (i ∷ []))

degree-link :
    (o i j : ℕ) (g : Graph)
    → (link o i g).in_degree j
      ≡ g.in_degree j + (if nat_eqb o i then 0 else if nat_eqb i j then 1 else 0)
unfolding link
degree-link o i j g = ground arith

-- An edge from `a` that a dependency of module `i` on one of the types `ts` brings.
pub record New (owner : Owners) (i : ℕ) (ts : List ℕ) (a j : ℕ) : Type 0 where
  pub same : j ≡ i
  pub other : a ≢ i
  pub type : ℕ
  pub declared : contains ts type ≡ true
  pub owned : owner type ≡ some a

module _ (n : ℕ) where
  link-IsBuilt : (o i : ℕ) (g : Graph) → o < n → i < n → IsBuilt n g → IsBuilt n (link o i g)
  link-IsBuilt o i g lo li b = record { degree = deg; near = near }
    where
      deg : (j : ℕ) → (link o i g).in_degree j ≡ sum_below n (λ a. count j ((link o i g).edges a))
      deg j = ground (
        arith,
        b.degree j,
        degree-link o i j g,
        count-link o i o j g,
        sum_below-change n (λ a. count j (g.edges a)) (λ a. count j ((link o i g).edges a)) o lo
            (λ a ne. ground (arith, count-link o i a j g)),
      )

      near : InRange n (link o i g).edges
      near a j l p = ground (arith, count-link o i a j g, b.near a j l)

  module _ (owner : Owners) (inside : (t o : ℕ) → owner t ≡ some o → o < n) (i : ℕ)
      (li : i < n) where
    -- What linking module `i` to the owners of the types `ts` does.
    pub record Linked (ts : List ℕ) (g g' : Graph) : Type 0 where
      pub grows : (a j : ℕ) → count j (g.edges a) ≤ count j (g'.edges a)
      pub complete :
          (t o : ℕ) → contains ts t ≡ true → owner t ≡ some o → o ≢ i → 0 < count i (g'.edges o)
      pub sound :
          (a j : ℕ) → 0 < count j (g'.edges a) → (0 < count j (g.edges a)) ⊎ New owner i ts a j
      pub built : IsBuilt n g → IsBuilt n g'

    Linked-nil : (g : Graph) → Linked [] g g
    Linked-nil g = record {
      grows = λ a j. omega arith;
      complete = λ t o c e ne. cc;
      sound = λ a j p. inl p;
      built = λ b. b;
    }

    New-cons : {a j : ℕ} (t : ℕ) (ts : List ℕ) → New owner i ts a j → New owner i (t ∷ ts) a j
    New-cons t ts w = record {
      same = w.same;
      other = w.other;
      type = w.type;
      declared = ground (arith, w.declared);
      owned = w.owned;
    }

    Linked-skip :
        (t : ℕ) (ts : List ℕ) (g g' : Graph)
        → owner t ≡ none
        → Linked ts g g'
        → Linked (t ∷ ts) g g'
    Linked-skip t ts g g' e l = record {
      grows = l.grows;
      complete = λ u o c eu ne. l.complete u o (differs u o c eu) eu ne;
      sound = λ a j p. elim (l.sound a j p) [ inl old ↦ inl old | inr w ↦ inr (New-cons t ts w) ];
      built = l.built;
    }
      where
        differs : (u o : ℕ) → contains (t ∷ ts) u ≡ true → owner u ≡ some o → contains ts u ≡ true
        differs u o c eu = elim (nat-cases t u) [ inl same ↦ absurd (cc) | inr ne ↦ ground (arith) ]

    Linked-cons :
        (t o : ℕ) (ts : List ℕ) (g g' : Graph)
        → owner t ≡ some o
        → Linked ts (link o i g) g'
        → Linked (t ∷ ts) g g'
    Linked-cons t o ts g g' e l = record {
      grows = λ a j. omega (arith, l.grows a j, count-link o i a j g);
      complete = complete;
      sound = sound;
      built = λ b. l.built (link-IsBuilt o i g (inside t o e) li b);
    }
      where
        complete :
            (u p : ℕ)
            → contains (t ∷ ts) u ≡ true
            → owner u ≡ some p
            → p ≢ i
            → 0 < count i (g'.edges p)
        complete u p c eu ne = elim (nat-cases t u) [
          | inl same ↦ let eo : o ≡ p = cc in ground (arith, eo, l.grows p i, count-link o i p i g)
          | inr other ↦ l.complete u p (ground (arith)) eu ne
        ]

        sound :
            (a j : ℕ)
            → 0 < count j (g'.edges a)
            → (0 < count j (g.edges a)) ⊎ New owner i (t ∷ ts) a j
        sound a j p = elim (l.sound a j p) [
          | inl old ↦ elim (Bool-cases (nat_eqb (count j (g.edges a)) 0)) [
            | inl fresh ↦ inr (record {
              same = ground (arith, count-link o i a j g);
              other = ground (arith, count-link o i a j g);
              type = t;
              declared = ground (arith);
              owned = ground (arith, e, count-link o i a j g);
            })
            | inr there ↦ inl (ground (arith))
          ]
          | inr w ↦ inr (New-cons t ts w)
        ]

    pub link_optional-Linked : (ts : List ℕ) (g : Graph) → Linked ts g (link_optional owner i ts g)
    unfolding link_optional
    link_optional-Linked [] g = Linked-nil g
    link_optional-Linked (t ∷ ts) g = elim (Option-cases (owner t)) [
      | inl e ↦ rw e (Linked-skip t ts g _ e (link_optional-Linked ts g))
      | inr (o, e) ↦ rw e (Linked-cons t o ts g _ e (link_optional-Linked ts (link o i g)))
    ]

    pub link_required-Linked :
        (name : String) (ts : List ℕ) (g : Graph) {g' : Graph}
        → link_required owner name i ts g ≡ ok g'
        → Linked ts g g' × ((t : ℕ) → contains ts t ≡ true → owner t ≢ none)
    unfolding link_required
    link_required-Linked name [] g {g'} h = (subst (Linked [] g) (cc) (Linked-nil g), λ t c. cc)
    link_required-Linked name (t ∷ ts) g h = elim (Option-cases (owner t)) [
      | inl e ↦ absurd (ground (arith))
      | inr (o, e) ↦
          let (l, met) = link_required-Linked name ts (link o i g) (rw (e, link_required) at h) in
          (Linked-cons t o ts g _ e l, λ u c. ground (arith, met u, e))
    ]
