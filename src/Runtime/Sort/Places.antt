-- ===== src/Runtime/Sort/Places.antt =====
-- From the indices to the sorted slices: `sorted` and `meta` hold each module and its own
-- declarations at the place that the order of indices gives it.
use lakta.Prelude.{
  ℕ, zero, suc, ◌<◌, ◌≡◌, refl, ◌∙◌, ◌⊎◌, inl, inr, some, List, [], ◌∷◌, arith, nat-cases, length,
  get_elem?, count, index_of, sum_below-one, length-eq-sum_count, Result, ok, err, ◌>>=◌, >>=-eq-ok,
}
use lakta.Runtime.Module.{Module, Meta, meta_of}
use lakta.Runtime.Sort.{SortError, cycle, sort_indices, pick, sort_modules}
use lakta.Runtime.Sort.Order.{get_elem?-lt}
use lakta.Runtime.Sort.Topology.{IsUnprovided, sort_indices-IsTopological, sort_indices-err}

get_elem?-below :
    {A : Type 0} (xs : List A) (i : ℕ) → i < length xs → (a : A) × (get_elem? xs i ≡ some a)
get_elem?-below [] i l = absurd (omega arith)
get_elem?-below (x ∷ xs) zero l = (x, refl)
get_elem?-below (x ∷ xs) (suc i) l = get_elem?-below xs i (omega arith)

-- Indices in range are all picked, in their order.
record Picked (ms : List Module) (is : List ℕ) : Type 0 where
  out : List (Module × Meta)
  returns : pick ms is ≡ ok out
  long : length out ≡ length is
  placed :
      (j : ℕ) (m : Module)
      → 0 < count j is
      → get_elem? ms j ≡ some m
      → get_elem? out (index_of j is) ≡ some (m, meta_of m)

pick-Picked :
    (ms : List Module) (is : List ℕ) → ((j : ℕ) → 0 < count j is → j < length ms) → Picked ms is
unfolding pick
pick-Picked ms [] near = record {
  out = [];
  returns = refl;
  long = refl;
  placed = λ j m p at. absurd (omega arith);
}
pick-Picked ms (i ∷ is) near =
    let (m, at) = get_elem?-below ms i (near i (ground arith)) in
    let rest = pick-Picked ms is (λ j p. near j (ground arith)) in
    record {
      out = (m, meta_of m) ∷ rest.out;
      returns = ground (arith, at, rest.returns);
      long = omega (arith, rest.long);
      placed = λ j m' p at'. elim (nat-cases i j) [
        | inl same ↦ ground (arith, at, at')
        | inr other ↦ ground (arith, rest.placed j m')
      ];
    }

-- `sortModules` returns each module, with its own declarations, at the place of its index in the
-- sorted order of indices, and nothing else.
pub record IsPlaced (ms : List Module) (sorted : List (Module × Meta)) : Type 0 where
  pub order : List ℕ
  pub sorts : sort_indices ms ≡ ok order
  pub long : length sorted ≡ length ms
  pub placed :
      (j : ℕ) (m : Module)
      → get_elem? ms j ≡ some m
      → get_elem? sorted (index_of j order) ≡ some (m, meta_of m)

module _ (ms : List Module) where
  pick_order : {order : List ℕ} → sort_indices ms ≡ ok order → Picked ms order
  pick_order {order} h = pick-Picked ms order (sort_indices-IsTopological ms order h).only

  length-order : {order : List ℕ} → sort_indices ms ≡ ok order → length order ≡ length ms
  length-order {order} h =
      let top = sort_indices-IsTopological ms order h in
      length-eq-sum_count (length ms) order top.only
      ∙ sum_below-one (length ms) (λ a. count a order) top.each

  -- What `sortModules` returns holds as many modules as it was given, and each module at the place
  -- of its index in the sorted order, beside the declarations of that very module.
  pub sort_modules-IsPlaced :
      (sorted : List (Module × Meta)) → sort_modules ms ≡ ok sorted → IsPlaced ms sorted
  unfolding sort_modules
  sort_modules-IsPlaced sorted h =
      let (order, h₁, h₂) = >>=-eq-ok (sort_indices ms) (pick ms) h in
      let p = pick_order h₁ in
      let same : p.out ≡ sorted = cc (p.returns) in
      record {
        order = order;
        sorts = h₁;
        long = rw (← same) (p.long ∙ length-order h₁);
        placed = λ j m at. rw (← same) (
            p.placed j m
              (omega
                (arith, (sort_indices-IsTopological ms order h₁).each j (get_elem?-lt ms j at)))
              at);
      }

  -- When `sortModules` fails, the error names a module and a required type that no module
  -- provides, or it is the cycle error: no index is out of range, and the loop ends within one
  -- round for each module.
  pub sort_modules-err : (e : SortError) → sort_modules ms ≡ err e → IsUnprovided ms e ⊎ (e ≡ cycle)
  unfolding sort_modules
  sort_modules-err e h = go (sort_indices ms) refl h
    where
      go :
          (r : Result SortError (List ℕ))
          → sort_indices ms ≡ r
          → (r >>= pick ms) ≡ err e
          → IsUnprovided ms e ⊎ (e ≡ cycle)
      go (ok order) eq h' = absurd (cc ((pick_order eq).returns))
      go (err e') eq h' = sort_indices-err ms e (cc)
