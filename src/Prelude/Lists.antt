-- ===== src/Prelude/Lists.antt =====
-- Lists measured and indexed by native numbers, under the library's names, and arrays of a fixed
-- length as functions of the index.
use Prim.Native.Nat.{ℕ, zero, suc, ◌+◌}
use mathlib.Core.Path.{◌≡◌, refl, ap, subst}
use mathlib.Core.Logic.{◌↔◌}
use mathlib.Core.Bool.{Bool, true, false, ◌||◌, ◌&&◌}
use mathlib.Core.List.{List, [], ◌∷◌, ◌++◌}
use mathlib.Core.Option.{Option, none, some}
use native.Mathlib.Omega.{arith}
use lakta.Prelude.Tests.{Keyed, nat_eqb, nat_keyed, ltb, ◌==◌, if◌then◌else◌}

module _ {ℓ} {A : Type ℓ} where
  abbrev pub length : List A → ℕ
  length [] = 0
  length (x ∷ xs) = suc (length xs)

  abbrev pub get_elem? : List A → ℕ → Option A
  get_elem? [] i = none
  get_elem? (x ∷ xs) zero = some x
  get_elem? (x ∷ xs) (suc i) = get_elem? xs i

  -- A write out of bounds changes nothing.
  abbrev pub set : List A → ℕ → A → List A
  set [] i v = []
  set (x ∷ xs) zero v = v ∷ xs
  set (x ∷ xs) (suc i) v = x ∷ set xs i v

  -- `a[i].f(...)`: a change of one cell, nothing out of bounds
  abbrev pub modify : (A → A) → ℕ → List A → List A
  modify f i [] = []
  modify f zero (x ∷ xs) = f x ∷ xs
  modify f (suc i) (x ∷ xs) = x ∷ modify f i xs

  pub length-append : (xs ys : List A) → length (xs ++ ys) ≡ length xs + length ys
  length-append [] ys = omega arith
  length-append (x ∷ xs) ys = omega (arith, length-append xs ys)

  pub length-set : (xs : List A) (i : ℕ) (v : A) → length (set xs i v) ≡ length xs
  length-set [] i v = refl
  length-set (x ∷ xs) zero v = refl
  length-set (x ∷ xs) (suc i) v = ap suc (length-set xs i v)

  -- `a[i] = v` on an array that is a function of its index
  abbrev pub update : (ℕ → A) → ℕ → A → ℕ → A
  update f i v j = if nat_eqb i j then v else f j

module _ {ℓ} {A : Type ℓ} ⦃k : Keyed A⦄ where
  abbrev pub contains : List A → A → Bool
  contains [] a = false
  contains (x ∷ xs) a = x == a || contains xs a

abbrev pub list_eqb : List ℕ → List ℕ → Bool
list_eqb [] [] = true
list_eqb [] (y ∷ ys) = false
list_eqb (x ∷ xs) [] = false
list_eqb (x ∷ xs) (y ∷ ys) = nat_eqb x y && list_eqb xs ys

list_eqb-eq : (xs ys : List ℕ) → list_eqb xs ys ≡ true → xs ≡ ys
list_eqb-eq [] [] h = refl
list_eqb-eq [] (y ∷ ys) h = absurd (ground arith)
list_eqb-eq (x ∷ xs) [] h = absurd (ground arith)
list_eqb-eq (x ∷ xs) (y ∷ ys) h = ground (arith, list_eqb-eq xs ys)

list_eqb_refl : (xs : List ℕ) → list_eqb xs xs ≡ true
list_eqb_refl [] = refl
list_eqb_refl (x ∷ xs) = ground (arith, list_eqb_refl xs)

pub list_eqb_iff : (xs ys : List ℕ) → (list_eqb xs ys ≡ true) ↔ (xs ≡ ys)
list_eqb_iff xs ys =
    (list_eqb-eq xs ys, λ h. subst (λ zs. list_eqb xs zs ≡ true) h (list_eqb_refl xs))

-- A text as its bytes.
instance abbrev pub bytes_keyed : Keyed (List ℕ)
bytes_keyed = record { same = list_eqb; same_iff = list_eqb_iff }

-- Texts in the order of their bytes, a prefix first.
abbrev pub text_leb : List ℕ → List ℕ → Bool
text_leb [] t = true
text_leb (c ∷ s) [] = false
text_leb (c ∷ s) (d ∷ t) = let rest = text_leb s t in if c == d then rest else ltb c d

abbrev pub insert_text : List ℕ → List (List ℕ) → List (List ℕ)
insert_text s [] = s ∷ []
insert_text s (t ∷ ts) =
    let rest = insert_text s ts in if text_leb s t then s ∷ t ∷ ts else t ∷ rest

-- `slices.Sorted`
abbrev pub sort_texts : List (List ℕ) → List (List ℕ)
sort_texts [] = []
sort_texts (t ∷ ts) = insert_text t (sort_texts ts)
