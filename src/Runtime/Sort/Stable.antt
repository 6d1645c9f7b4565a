-- ===== src/Runtime/Sort/Stable.antt =====
-- Modules with no dependency on another module keep their original order.
use lakta.Prelude.{
  ℕ, suc, ◌+◌, ◌≤◌, ◌<◌, ◌≡◌, subst, inl, inr, ◌∙◌, Bool-cases, List, [], ◌∷◌, arith, nat_keyed,
  nat-cases, ◌==◌, length, count, index_of, index_of-append, sum_below-zero, ok,
}
use lakta.Runtime.Module.{Module}
use lakta.Runtime.Sort.{seed, sort_indices}
use lakta.Runtime.Sort.Owner.{owners}
use lakta.Runtime.Sort.Links.{DependsOn}
use lakta.Runtime.Sort.Order.{Read, sort_cases, drained, final, count-seed, edge-DependsOn}

index_of-seed :
    (deg : ℕ → ℕ) (k : ℕ) (ms : List Module) (i j : ℕ)
    → deg i ≡ 0
    → deg j ≡ 0
    → k ≤ i
    → i < j
    → j < k + length ms
    → index_of i (seed deg k ms) < index_of j (seed deg k ms)
unfolding seed
index_of-seed deg k [] i j di dj ki ij l = absurd (omega arith)
index_of-seed deg k (m ∷ ms) i j di dj ki ij l =
    ground (arith, di, dj, index_of-seed deg (suc k) ms i j di dj)

abbrev pub IsFree : List Module → ℕ → Type 0
IsFree ms j = (i : ℕ) → ¬ DependsOn (owners ms) 0 ms j i

module _ (ms : List Module) (r : Read ms) where
  free_degree : (j : ℕ) → IsFree ms j → r.graph.in_degree j ≡ 0
  free_degree j free =
      r.built.degree j
      ∙ sum_below-zero (length ms) (λ i. count j (r.graph.edges i)) (λ i l. none_from i)
    where
      none_from : (i : ℕ) → count j (r.graph.edges i) ≡ 0
      none_from i = elim (nat-cases (count j (r.graph.edges i)) 0) [
        | inl e ↦ e
        | inr ne ↦ absurd (free i (edge-DependsOn ms r i j (omega arith)))
      ]

  free_first :
      (i j : ℕ)
      → i < j
      → j < length ms
      → IsFree ms i
      → IsFree ms j
      → index_of i (final ms r.built) < index_of j (final ms r.built)
  free_first i j l lj fi fj =
      let di = free_degree i fi in
      let dj = free_degree j fj in
      let s = seed r.graph.in_degree 0 ms in
      let more = (drained ms r.built).more in
      rw (drained ms r.built).extends (
        omega (
          arith,
          index_of-append i s more (ground (arith, di, count-seed r.graph.in_degree 0 ms i)),
          index_of-append j s more (ground (arith, dj, count-seed r.graph.in_degree 0 ms j)),
          index_of-seed r.graph.in_degree 0 ms i j di dj (omega arith) l (omega arith),
        ))

-- Two modules that depend on no other module stand in the sorted order as they stood before.
pub sort_indices-stable :
    (ms : List Module) (order : List ℕ) (i j : ℕ)
    → sort_indices ms ≡ ok order
    → i < j
    → j < length ms
    → IsFree ms i
    → IsFree ms j
    → index_of i order < index_of j order
sort_indices-stable ms order i j h l lj fi fj = elim (sort_cases ms) [
  | inl (e, fails, _) ↦ absurd (cc)
  | inr r ↦ elim (Bool-cases (length (final ms r.built) == length ms)) [
    | inl full ↦
        let same : final ms r.built ≡ order = ground (arith, r.runs) in
        subst (λ o. index_of i o < index_of j o) same (free_first ms r i j l lj fi fj)
    | inr short ↦ absurd (ground (arith, r.runs))
  ]
]
