-- ===== src/Redact/Words.antt =====
-- The default words of secrets hide what stands under the keys that contain them.
use lakta.Prelude.{
  ℕ, ◌≡◌, refl, ap, ◌∙◌, Bool, true, List, [], ◌∷◌, ◌++◌, map, contains, inl, inr, arith, ◌==◌,
  nat_keyed, bytes_keyed, list_eqb_iff, Bool-cases,
}
use lakta.Redact.{
  fold_byte, starts_with, occurs, any_occurs, default_words, default_key, key_matches, Redactor,
  masking, redact, redact_mask, Fields, object,
}
use lakta.Redact.Covered.{
  Hop, key, index, is_covered, shown, map_leaf, leaf_at, text_leaf, leaf_at-redact,
}

starts_with-append : (w b : List ℕ) → starts_with w (w ++ b) ≡ true
starts_with-append [] b = refl
starts_with-append (c ∷ w) b = ground (arith, starts_with-append w b)

occurs-starts : (w s : List ℕ) → starts_with w s ≡ true → occurs w s ≡ true
occurs-starts w [] h = h
occurs-starts w (c ∷ s) h = rw h refl

occurs-append : (w a b : List ℕ) → occurs w (a ++ w ++ b) ≡ true
occurs-append w [] b = occurs-starts w (w ++ b) (starts_with-append w b)
occurs-append w (c ∷ a) b = ground (arith, occurs-append w a b)

any_occurs-contains :
    (ws : List (List ℕ)) (w s : List ℕ)
    → contains ws w ≡ true
    → occurs w s ≡ true
    → any_occurs ws s ≡ true
any_occurs-contains [] w s h o = absurd (ground arith)
any_occurs-contains (v ∷ ws) w s h o = elim (Bool-cases (v == w)) [
  | inl e ↦ rw ((list_eqb_iff v w).0 e) (rw o refl)
  | inr e ↦ ground (arith, any_occurs-contains ws w s (rw e at h) o)
]

key_matches-word :
    (r : Redactor) (k w a b : List ℕ)
    → contains default_words w ≡ true
    → map fold_byte k ≡ a ++ w ++ b
    → key_matches r k ≡ true
unfolding key_matches default_key
key_matches-word r k w a b h e = ground (
  arith,
  any_occurs-contains default_words w (map fold_byte k) h (ap (occurs w) e ∙ occurs-append w a b),
)

is_covered-matched :
    (r : Redactor) (before after : List Hop) (k : List ℕ)
    → key_matches r k ≡ true
    → is_covered r (before ++ key k ∷ after) ≡ true
is_covered-matched r [] after k h = rw h refl
is_covered-matched r (key j ∷ before) after k h =
    ground (arith, is_covered-matched r before after k h)
is_covered-matched r (index i ∷ before) after k h = is_covered-matched r before after k h

-- While values are masked, whatever stands below a key that contains a word of secrets, in upper or
-- lower case, is the mask, at any depth and inside lists too.
pub redact-hides :
    (r : Redactor) (fs : Fields) (authorized : Bool) (before after : List Hop) (k w a b : List ℕ)
    → masking r authorized ≡ true
    → contains default_words w ≡ true
    → map fold_byte k ≡ a ++ w ++ b
    → leaf_at (before ++ key k ∷ after) (object (redact r fs authorized))
      ≡ map_leaf (λ l. text_leaf redact_mask) (leaf_at (before ++ key k ∷ after) (object fs))
redact-hides r fs authorized before after k w a b m h e =
    leaf_at-redact r fs authorized (before ++ key k ∷ after) m
    ∙ ap (λ c. map_leaf (shown r c) (leaf_at (before ++ key k ∷ after) (object fs)))
        (is_covered-matched r before after k (key_matches-word r k w a b h e))
