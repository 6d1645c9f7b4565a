-- ===== src/Verifier/Audience.antt =====
-- When the audiences of a token and of a verifier intersect.
use lakta.Prelude.{
  ℕ, ◌≡◌, ◌↔◌, inl, inr, refl, true, List, [], ◌∷◌, contains, arith, ◌==◌, bytes_keyed,
  list_eqb_iff, Bool-cases, ==-refl,
}
use lakta.Verifier.{intersects}

contains-head : (x a : List ℕ) (xs : List (List ℕ)) → (x == a) ≡ true → contains (x ∷ xs) a ≡ true
contains-head x a xs e = rw e refl

contains-tail :
    (x a : List ℕ) (xs : List (List ℕ)) → contains xs a ≡ true → contains (x ∷ xs) a ≡ true
contains-tail x a xs e = ground arith

intersects-shared :
    (have want : List (List ℕ))
    → intersects have want ≡ true
    → (a : List ℕ) × (contains have a ≡ true) × (contains want a ≡ true)
unfolding intersects
intersects-shared have [] h = absurd (cc h)
intersects-shared have (w ∷ want) h = elim (Bool-cases (contains have w)) [
  | inl e ↦ (w, e, contains-head w w want (==-refl w))
  | inr e ↦
      let (a, mine, theirs) = intersects-shared have want (rw e at h) in
      (a, mine, contains-tail w a want theirs)
]

shared-intersects :
    (have want : List (List ℕ)) (a : List ℕ)
    → contains have a ≡ true
    → contains want a ≡ true
    → intersects have want ≡ true
unfolding intersects
shared-intersects have [] a mine theirs = absurd (cc theirs)
shared-intersects have (w ∷ want) a mine theirs = elim (Bool-cases (w == a)) [
  | inl e ↦ rw ((list_eqb_iff w a).0 e) (rw mine refl)
  | inr e ↦ ground (arith, shared-intersects have want a mine (rw e at theirs))
]

-- The audiences of a token and of a verifier intersect exactly if some text stands in both.
intersects_iff :
    (have want : List (List ℕ))
    → (intersects have want ≡ true)
      ↔ ((a : List ℕ) × (contains have a ≡ true) × (contains want a ≡ true))
intersects_iff have want =
    (intersects-shared have want, λ (a, mine, theirs). shared-intersects have want a mine theirs)
