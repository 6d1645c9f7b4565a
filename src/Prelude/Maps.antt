-- ===== src/Prelude/Maps.antt =====
-- Go maps, as lists of entries in the order of an iteration, each key once.
use mathlib.Core.Path.{◌≡◌, refl, sym, subst, ◌∙◌, ap}
use mathlib.Core.Logic.{◌≢◌, ◌⊎◌, inl, inr}
use mathlib.Core.Bool.{Bool, true, false}
use mathlib.Core.List.{List, [], ◌∷◌}
use mathlib.Core.Option.{Option, none, some}
use lakta.Prelude.Tests.{Keyed, ◌==◌, ==-refl, if◌then◌else◌, Bool-cases}

module _ {ℓ} {A : Type ℓ} where
  pub then_at : (b : Bool) (x y : A) {z : A} → b ≡ true → (if b then x else y) ≡ z → x ≡ z
  then_at true x y h e = e
  then_at false x y h e = cc

  pub else_at : (b : Bool) (x y : A) {z : A} → b ≡ false → (if b then x else y) ≡ z → y ≡ z
  else_at true x y h e = cc
  else_at false x y h e = e

  pub none_ne : {a : A} → none ≢ some a
  none_ne h = cc h

module _ {ℓ} {K : Type ℓ} ⦃k : Keyed K⦄ where
  pub not_eq : (a b : K) → (a == b) ≡ false → a ≢ b
  not_eq a b e h = cc (sym e ∙ ap (λ c. a == c) (sym h) ∙ ==-refl a)

  pub same-eq : (a b : K) → (a == b) ≡ true → a ≡ b
  same-eq a b h = (k.same_iff a b).0 h

  pub not_same : (a b : K) → a ≢ b → (a == b) ≡ false
  not_same a b n = elim (Bool-cases (a == b)) [ inl e ↦ absurd (n (same-eq a b e)) | inr e ↦ e ]

module _ {ℓ κ} {K : Type ℓ} {V : Type κ} ⦃k : Keyed K⦄ where
  abbrev pub get : List (K × V) → K → Option V
  get [] a = none
  get ((b, v) ∷ m) a = if b == a then some v else get m a

  -- `m[a] = v`
  abbrev pub put : List (K × V) → K → V → List (K × V)
  put [] a v = (a, v) ∷ []
  put ((b, w) ∷ m) a v = let later = put m a v in if b == a then (a, v) ∷ m else (b, w) ∷ later

  -- `delete(m, a)`
  abbrev pub erase : List (K × V) → K → List (K × V)
  erase [] a = []
  erase ((b, w) ∷ m) a = let later = erase m a in if b == a then later else (b, w) ∷ later

  pub get-put : (m : List (K × V)) (a : K) (v : V) → get (put m a v) a ≡ some v
  get-put [] a v = rw (==-refl a) refl
  get-put ((b, w) ∷ m) a v = elim (Bool-cases (b == a)) [
    | inl e ↦ rw e (rw (==-refl a) refl)
    | inr e ↦ rw e (rw e (get-put m a v))
  ]

  pub get-put_ne : (m : List (K × V)) (a c : K) (v : V) → a ≢ c → get (put m a v) c ≡ get m c
  get-put_ne [] a c v n = rw (not_same a c n) refl
  get-put_ne ((b, w) ∷ m) a c v n = elim (Bool-cases (b == a)) [
    | inl e ↦
        rw e
          (rw (not_same a c n) (rw (ap (λ x. x == c) (same-eq b a e)) (rw (not_same a c n) refl)))
    | inr e ↦ rw e (rw (get-put_ne m a c v n) refl)
  ]

  pub get-erase : (m : List (K × V)) (a : K) → get (erase m a) a ≡ none
  get-erase [] a = refl
  get-erase ((b, w) ∷ m) a = elim (Bool-cases (b == a)) [
    | inl e ↦ rw e (get-erase m a)
    | inr e ↦ rw e (rw e (get-erase m a))
  ]

  pub get-erase_ne : (m : List (K × V)) (a c : K) → a ≢ c → get (erase m a) c ≡ get m c
  get-erase_ne [] a c n = refl
  get-erase_ne ((b, w) ∷ m) a c n = elim (Bool-cases (b == a)) [
    | inl e ↦
        rw e (rw (ap (λ x. x == c) (same-eq b a e)) (rw (not_same a c n) (get-erase_ne m a c n)))
    | inr e ↦ rw e (rw (get-erase_ne m a c n) refl)
  ]

  -- Each key stands once.
  abbrev pub IsMap : List (K × V) → Type κ
  IsMap [] = Unit
  IsMap ((b, v) ∷ m) = (get m b ≡ none) × IsMap m

module _ {ℓ κ} {K : Type ℓ} {V : Type κ} ⦃k : Keyed K⦄ where
  pub get-put_if :
      (m : List (K × V)) (a c : K) (v : V)
      → get (put m a v) c ≡ (if a == c then some v else get m c)
  get-put_if m a c v = elim (Bool-cases (a == c)) [
    | inl e ↦ rw e (subst (λ d. get (put m a v) d ≡ some v) (same-eq a c e) (get-put m a v))
    | inr e ↦ rw e (get-put_ne m a c v (λ h. apart h e))
  ]
    where
      apart : a ≡ c → (a == c) ≡ false → ⊥
      apart h e = cc (sym e ∙ ap (λ d. a == d) (sym h) ∙ ==-refl a)

  pub get-erase_if :
      (m : List (K × V)) (a c : K) → get (erase m a) c ≡ (if a == c then none else get m c)
  get-erase_if m a c = elim (Bool-cases (a == c)) [
    | inl e ↦ rw e (subst (λ d. get (erase m a) d ≡ none) (same-eq a c e) (get-erase m a))
    | inr e ↦ rw e (get-erase_ne m a c (λ h. apart h e))
  ]
    where
      apart : a ≡ c → (a == c) ≡ false → ⊥
      apart h e = cc (sym e ∙ ap (λ d. a == d) (sym h) ∙ ==-refl a)

  pub IsMap-put : (m : List (K × V)) (a : K) (v : V) → IsMap m → IsMap (put m a v)
  IsMap-put [] a v h = (refl, tt)
  IsMap-put ((b, w) ∷ m) a v (fresh, h) = elim (Bool-cases (b == a)) [
    | inl e ↦ rw e (subst (λ c. get m c ≡ none) (same-eq b a e) fresh, h)
    | inr e ↦
        rw e (get-put_if m a b v ∙ rw (not_same a b (λ y. apart y e)) fresh, IsMap-put m a v h)
  ]
    where
      apart : {c : K} → a ≡ c → (c == a) ≡ false → ⊥
      apart h e = cc (sym e ∙ ap (λ d. d == a) (sym h) ∙ ==-refl a)

  pub IsMap-erase : (m : List (K × V)) (a : K) → IsMap m → IsMap (erase m a)
  IsMap-erase [] a h = tt
  IsMap-erase ((b, w) ∷ m) a (fresh, h) = elim (Bool-cases (b == a)) [
    | inl e ↦ rw e (IsMap-erase m a h)
    | inr e ↦
        rw e (get-erase_if m a b ∙ rw (not_same a b (λ y. apart y e)) fresh, IsMap-erase m a h)
  ]
    where
      apart : {c : K} → a ≡ c → (c == a) ≡ false → ⊥
      apart h e = cc (sym e ∙ ap (λ d. d == a) (sym h) ∙ ==-refl a)

  -- Inversions of a lookup.
  pub get-erase-some :
      (m : List (K × V)) (a c : K) (v : V)
      → get (erase m a) c ≡ some v
      → (a ≢ c) × (get m c ≡ some v)
  get-erase-some m a c v h = elim (Bool-cases (a == c)) [
    | inl e ↦ absurd (none_ne (then_at (a == c) _ _ e (sym (get-erase_if m a c) ∙ h)))
    | inr e ↦ (not_eq a c e, else_at (a == c) _ _ e (sym (get-erase_if m a c) ∙ h))
  ]

  pub get-put-some :
      (m : List (K × V)) (a c : K) (v w : V)
      → get (put m a v) c ≡ some w
      → ((a ≡ c) × (v ≡ w)) ⊎ ((a ≢ c) × (get m c ≡ some w))
  get-put-some m a c v w h = elim (Bool-cases (a == c)) [
    | inl e ↦ inl (same-eq a c e, cc (then_at (a == c) _ _ e (sym (get-put_if m a c v) ∙ h)))
    | inr e ↦ inr (not_eq a c e, else_at (a == c) _ _ e (sym (get-put_if m a c v) ∙ h))
  ]

  pub get-put-none :
      (m : List (K × V)) (a c : K) (v : V) → get (put m a v) c ≡ none → (a ≢ c) × (get m c ≡ none)
  get-put-none m a c v h = elim (Bool-cases (a == c)) [
    | inl e ↦ absurd (none_ne (sym (then_at (a == c) _ _ e (sym (get-put_if m a c v) ∙ h))))
    | inr e ↦ (not_eq a c e, else_at (a == c) _ _ e (sym (get-put_if m a c v) ∙ h))
  ]
