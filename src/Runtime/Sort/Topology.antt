-- ===== src/Runtime/Sort/Topology.antt =====
-- What `sortModules` promises about the order, and exactly when it fails.
use lakta.Prelude.{
  ℕ, ◌<◌, ◌≡◌, ◌≢◌, refl, subst, ◌⊎◌, inl, inr, Bool-cases, Option, none, some, List, arith,
  nat_keyed, ◌==◌, length, get_elem?, count, index_of, ok, err,
}
use lakta.Runtime.Module.{Module}
use lakta.Runtime.Sort.{SortError, unmet, cycle, sort_indices}
use lakta.Runtime.Sort.Owner.{owners, NoProvider, OwnedBy, owners-OwnedBy}
use lakta.Runtime.Sort.Links.{Requires, DependsOn, IsUnmet}
use lakta.Runtime.Sort.Order.{
  Read, sort_cases, drained, final, final-full, final-lt, acyclic_full, edge-DependsOn,
  DependsOn-edge,
}

-- Each module stands once in the order, and behind the owners of what it declares.
pub record IsTopological (ms : List Module) (order : List ℕ) : Type 0 where
  pub each : (j : ℕ) → j < length ms → count j order ≡ 1
  pub only : (j : ℕ) → 0 < count j order → j < length ms
  pub before : (i j : ℕ) → DependsOn (owners ms) 0 ms j i → index_of i order < index_of j order
  pub met :
      (place t : ℕ) (m : Module) → get_elem? ms place ≡ some m → Requires m t → owners ms t ≢ none

module _ (ms : List Module) (r : Read ms) where
  abbrev found : List ℕ
  found = final ms r.built

  found-IsTopological : length found ≡ length ms → IsTopological ms found
  found-IsTopological full = record {
    each = final-full ms r.built full;
    only = final-lt ms r.built;
    before = λ i j d.
        let (li, lj, p) = DependsOn-edge ms r i j d in
        ((drained ms r.built).inv.ordered i j li (omega (arith, final-full ms r.built full j lj))
          p).1;
    met = r.linked.met;
  }

-- If `sortModules` returns an order, each module stands in it exactly once, each module stands
-- behind the owner of every type that it declares (its own types aside), and every required type
-- has an owner.
pub sort_indices-IsTopological :
    (ms : List Module) (order : List ℕ) → sort_indices ms ≡ ok order → IsTopological ms order
sort_indices-IsTopological ms order h = elim (sort_cases ms) [
  | inl (e, fails, _) ↦ absurd (cc)
  | inr r ↦ elim (Bool-cases (length (found ms r) == length ms)) [
    | inl full ↦
        let same : found ms r ≡ order = ground (arith, r.runs) in
        subst (IsTopological ms) same (found-IsTopological ms r (ground arith))
    | inr short ↦ absurd (ground (arith, r.runs))
  ]
]

-- Module `place` requires a type that no module provides, and the error names both.
pub record IsUnprovided (ms : List Module) (e : SortError) : Type 0 where
  pub place : ℕ
  pub module_at : Module
  pub at : get_elem? ms place ≡ some module_at
  pub type : ℕ
  pub requires : Requires module_at type
  pub unprovided : NoProvider ms type
  pub names : e ≡ unmet module_at.type_name type

unprovided_lem :
    (ms : List Module) (t : ℕ) (r : Option ℕ) → OwnedBy ms t r → r ≡ none → NoProvider ms t
unprovided_lem ms t none o e = o
unprovided_lem ms t (some i) o e = absurd (cc e)

owners-NoProvider : (ms : List Module) (t : ℕ) → NoProvider ms t → owners ms t ≡ none
owners-NoProvider ms t free = go (owners ms t) (owners-OwnedBy ms t)
  where
    go : (r : Option ℕ) → OwnedBy ms t r → r ≡ none
    go none o = refl
    go (some i) o = absurd (cc (o.provides, free o.place o.module_at o.at))

IsUnmet-IsUnprovided :
    (ms : List Module) (e : SortError) → IsUnmet (owners ms) ms e → IsUnprovided ms e
IsUnmet-IsUnprovided ms e u = record {
  place = u.place;
  module_at = u.module_at;
  at = u.at;
  type = u.type;
  requires = u.requires;
  unprovided = unprovided_lem ms u.type (owners ms u.type) (owners-OwnedBy ms u.type) u.missing;
  names = u.named;
}

-- If some module requires a type that no module provides then `sortModules` fails with an error
-- that names such a module and type.
pub sort_indices-IsUnprovided :
    (ms : List Module) (place t : ℕ) (m : Module)
    → get_elem? ms place ≡ some m
    → Requires m t
    → NoProvider ms t
    → (e : SortError) × (sort_indices ms ≡ err e) × IsUnprovided ms e
sort_indices-IsUnprovided ms place t m at req free = elim (sort_cases ms) [
  | inl (e, fails, u) ↦ (e, fails, IsUnmet-IsUnprovided ms e u)
  | inr r ↦ absurd (r.linked.met place t m at req (owners-NoProvider ms t free))
]

-- Every error but the cycle names a module and a required type that no module provides: the loop
-- never runs out of its fuel, one round for each module.
pub sort_indices-err :
    (ms : List Module) (e : SortError) → sort_indices ms ≡ err e → IsUnprovided ms e ⊎ (e ≡ cycle)
sort_indices-err ms e h = elim (sort_cases ms) [
  | inl (e', fails, u) ↦
      let same : e' ≡ e = cc in
      inl (IsUnmet-IsUnprovided ms e (subst (IsUnmet (owners ms) ms) same u))
  | inr r ↦ inr (ground (arith, r.runs))
]

-- `sortModules` reports a cycle only for a cycle: never if a rank puts each module above the
-- owners of what it declares.
pub sort_indices-ne-cycle :
    (ms : List Module) (rank : ℕ → ℕ)
    → ((i j : ℕ) → DependsOn (owners ms) 0 ms j i → rank i < rank j)
    → sort_indices ms ≢ err cycle
sort_indices-ne-cycle ms rank grows h = elim (sort_cases ms) [
  | inl (e, fails, u) ↦ let named : e ≡ unmet u.module_at.type_name u.type = u.named in cc
  | inr r ↦
      let full = acyclic_full ms r.built rank (λ i j l p. grows i j (edge-DependsOn ms r i j p)) in
      ground (arith, r.runs, full)
]
