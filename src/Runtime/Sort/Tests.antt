-- ===== src/Runtime/Sort/Tests.antt =====
-- Small module lists, runs of the sort on them, and the theorems applied to them.
use lakta.Prelude.{
  ℕ, zero, suc, ◌-◌, ◌<◌, ◌≡◌, ◌≢◌, refl, ap, sym, subst, inl, inr, ◌⊎◌, none, some, List, [], ◌∷◌,
  arith, map, get_elem?, ok, err, String,
}
use mathlib.Core.Option.{some-injective}
use lakta.Runtime.Samples.{module_with, app, ring, orphan}
use lakta.Runtime.Module.{Module, Meta, meta_of}
use lakta.Runtime.Sort.{
  SortError, unmet, cycle, type_owner, own, link_modules, link_required, link_optional, link, seed,
  drain, release, check_complete, sort_indices, pick, sort_modules, validate,
}
use lakta.Runtime.Sort.Owner.{owners, NoProvider, provides_type}
use lakta.Runtime.Sort.Links.{Declares, DependsOn}
use lakta.Runtime.Sort.Topology.{
  IsTopological, sort_indices-IsTopological, IsUnprovided, sort_indices-IsUnprovided,
  sort_indices-ne-cycle,
}
use lakta.Runtime.Sort.Stable.{IsFree}
use lakta.Runtime.Sort.Places.{IsPlaced, sort_modules-IsPlaced, sort_modules-err}

sort_program : Unit {0}
unfolding sort_indices link_modules link_required link_optional link type_owner own seed drain
    release check_complete pick sort_modules validate
sort_program = tt

sort_app : sort_indices app ≡ ok (2 ∷ 4 ∷ 1 ∷ 3 ∷ 0 ∷ [])
unfolding sort_program
sort_app = refl

sort_ring : sort_indices ring ≡ err cycle
unfolding sort_program
sort_ring = refl

sort_orphan : (sort_indices orphan ≡ err (unmet "b" 7)) × (sort_modules orphan ≡ err (unmet "b" 7))
unfolding sort_program
sort_orphan = (refl, refl)

sort_indices-IsTopological_example : IsTopological app (2 ∷ 4 ∷ 1 ∷ 3 ∷ 0 ∷ [])
sort_indices-IsTopological_example =
    sort_indices-IsTopological app (2 ∷ 4 ∷ 1 ∷ 3 ∷ 0 ∷ []) sort_app

orphan-NoProvider : NoProvider orphan 7
orphan-NoProvider zero m at = ap (λ (x : Module). provides_type x 7) (sym (some-injective _ _ at))
orphan-NoProvider (suc zero) m at =
    ap (λ (x : Module). provides_type x 7) (sym (some-injective _ _ at))
orphan-NoProvider (suc (suc d)) m at = absurd (cc at)

sort_indices-IsUnprovided_example :
    (e : SortError) × (sort_indices orphan ≡ err e) × IsUnprovided orphan e
sort_indices-IsUnprovided_example =
    sort_indices-IsUnprovided orphan 1 7 (module_with "b" (2 ∷ []) (1 ∷ 7 ∷ []) []) refl refl
      orphan-NoProvider

sort_modules-err_example : IsUnprovided orphan (unmet "b" 7) ⊎ (unmet "b" 7 ≡ cycle)
sort_modules-err_example = sort_modules-err orphan (unmet "b" 7) sort_orphan.1

abbrev chain : List Module
chain = module_with "db" (2 ∷ []) (1 ∷ []) [] ∷ module_with "config" (1 ∷ []) [] [] ∷ []

chain_needs :
    (place t a : ℕ) (m : Module)
    → get_elem? chain place ≡ some m
    → Declares m t
    → owners chain t ≡ some a
    → (place ≡ 0) × (a ≡ 1)
unfolding sort_program
chain_needs zero t a m at (inl r) e = ground (arith)
chain_needs zero t a m at (inr r) e = ground (arith)
chain_needs (suc zero) t a m at (inl r) e = ground (arith)
chain_needs (suc zero) t a m at (inr r) e = ground (arith)
chain_needs (suc (suc k)) t a m at d e = absurd (cc)

chain_ranked : (i j : ℕ) → DependsOn (owners chain) 0 chain j i → 1 - i < 1 - j
chain_ranked i j d =
    omega (arith, d.counted, chain_needs d.place d.type i d.module_at d.at d.declared d.owned)

sort_indices-ne-cycle_example : sort_indices chain ≢ err cycle
sort_indices-ne-cycle_example = sort_indices-ne-cycle chain (λ i. 1 - i) chain_ranked

app-IsFree :
    (j : ℕ) (m : Module) → get_elem? app j ≡ some m → ((t : ℕ) → ¬ Declares m t) → IsFree app j
app-IsFree j m at none_declared i d =
    let same : d.place ≡ j = omega (arith, d.counted) in
    let eq : d.module_at ≡ m = cc (ap (get_elem? app) same) in
    none_declared d.type (subst (λ x. Declares x d.type) eq d.declared)

nothing_declared : (name : String) (ts : List ℕ) (t : ℕ) → ¬ Declares (module_with name ts [] []) t
nothing_declared name ts t (inl r) = cc
nothing_declared name ts t (inr r) = cc

abbrev sorted_app : List (Module × Meta)
sorted_app =
    map (λ m. (m, meta_of m))
      (module_with "config" (1 ∷ []) [] []
        ∷ module_with "health" (4 ∷ []) [] []
        ∷ module_with "db" (2 ∷ []) (1 ∷ []) []
        ∷ module_with "otel" (3 ∷ []) [] (1 ∷ [])
        ∷ module_with "app" (9 ∷ []) (2 ∷ 9 ∷ []) (3 ∷ 7 ∷ [])
        ∷ [])

sort_modules-app : sort_modules app ≡ ok sorted_app
unfolding sort_program
sort_modules-app = refl

sort_modules-IsPlaced_example : IsPlaced app sorted_app
sort_modules-IsPlaced_example = sort_modules-IsPlaced app sorted_app sort_modules-app

validate-orphan : (validate orphan ≡ some (unmet "b" 7)) × (validate app ≡ none)
unfolding sort_program
validate-orphan = (refl, refl)
