-- ===== src/Redact/Covered.antt =====
-- What a redacted map shows at each path.
use mathlib.Core.Path.{ap₂}
use lakta.Prelude.{
  ℕ, zero, suc, ◌≡◌, ◌↔◌, refl, Bool, true, false, ◌||◌, Option, none, some, List, [], ◌∷◌, ◌⊎◌,
  inl, inr, arith, ◌==◌, bytes_keyed, if◌then◌else◌, Bool-cases, list_eqb_iff, ap, ◌∙◌,
}
use lakta.Redact.{
  Value, text, scalar, array, object, Items, nil, cons, Fields, end, field, always, when_authorized,
  Redactor, redact_mask, is_passthrough_key, key_matches, masking, redact_value, walk, walk_items,
  walk_fields, deep_copy_value, deep_copy_items, deep_copy_map, redact_fields, redact,
}

pub data Hop : Type 0 where
  key : List ℕ → Hop
  index : ℕ → Hop

-- What stands at the end of a path: a value that is no map and no list.
pub data Leaf : Type 0 where
  text_leaf : List ℕ → Leaf
  scalar_leaf : ℕ → Leaf

abbrev pub nth_item : Items → ℕ → Option Value
nth_item nil i = none
nth_item (cons v vs) zero = some v
nth_item (cons v vs) (suc i) = nth_item vs i

abbrev pub get_field : Fields → List ℕ → Option Value
get_field end k = none
get_field (field j v fs) k = if j == k then some v else get_field fs k

abbrev pub follow : Hop → Value → Option Value
follow (key k) (object fs) = get_field fs k
follow (index i) (array vs) = nth_item vs i
follow h v = none

abbrev pub leaf_of : Value → Option Leaf
leaf_of (text s) = some (text_leaf s)
leaf_of (scalar n) = some (scalar_leaf n)
leaf_of v = none

abbrev pub then_leaf : (Value → Option Leaf) → Option Value → Option Leaf
then_leaf f none = none
then_leaf f (some v) = f v

abbrev pub leaf_at : List Hop → Value → Option Leaf
leaf_at [] v = leaf_of v
leaf_at (h ∷ path) v = then_leaf (leaf_at path) (follow h v)

-- Whether some key on the path is a secret's, or that of a passthrough subtree.
abbrev pub is_covered : Redactor → List Hop → Bool
is_covered r [] = false
is_covered r (key k ∷ path) = key_matches r k || is_passthrough_key k || is_covered r path
is_covered r (index i ∷ path) = is_covered r path

abbrev pub shown : Redactor → Bool → Leaf → Leaf
shown r true l = text_leaf redact_mask
shown r false (text_leaf s) = text_leaf (redact_value r s)
shown r false (scalar_leaf n) = scalar_leaf n

abbrev pub map_leaf : (Leaf → Leaf) → Option Leaf → Option Leaf
map_leaf f none = none
map_leaf f (some l) = some (f l)

abbrev map_value : (Value → Value) → Option Value → Option Value
map_value f none = none
map_value f (some v) = some (f v)

then_leaf-map :
    (f : Value → Option Leaf) (g : Value → Value) (q : Leaf → Leaf) (o : Option Value)
    → ((v : Value) → f (g v) ≡ map_leaf q (f v))
    → then_leaf f (map_value g o) ≡ map_leaf q (then_leaf f o)
then_leaf-map f g q none h = refl
then_leaf-map f g q (some v) h = h v

nth_item-walk :
    (r : Redactor) (m w : Bool) (vs : Items) (i : ℕ)
    → nth_item (walk_items r m w vs) i ≡ map_value (walk r m w) (nth_item vs i)
unfolding walk_items
nth_item-walk r m w nil i = refl
nth_item-walk r m w (cons v vs) zero = refl
nth_item-walk r m w (cons v vs) (suc i) = nth_item-walk r m w vs i

abbrev walk_below : Redactor → Bool → Bool → List ℕ → Value → Value
walk_below r m w k = walk r (m || w || key_matches r k) (w || is_passthrough_key k)

get_field-walk :
    (r : Redactor) (m w : Bool) (fs : Fields) (k : List ℕ)
    → get_field (walk_fields r m w fs) k ≡ map_value (walk_below r m w k) (get_field fs k)
unfolding walk_fields
get_field-walk r m w end k = refl
get_field-walk r m w (field j v fs) k = elim (Bool-cases (j == k)) [
  | inl e ↦ rw e (
      ap (λ x. some (walk r (m || w || key_matches r x) (w || is_passthrough_key x) v))
        ((list_eqb_iff j k).0 e))
  | inr e ↦ rw e (get_field-walk r m w fs k)
]

get_field-redact :
    (r : Redactor) (fs : Fields) (k : List ℕ)
    → get_field (redact_fields r fs) k
      ≡ map_value (walk r (key_matches r k) (is_passthrough_key k)) (get_field fs k)
unfolding redact_fields
get_field-redact r end k = refl
get_field-redact r (field j v fs) k = elim (Bool-cases (j == k)) [
  | inl e ↦
      rw e (
        ap (λ x. some (walk r (key_matches r x) (is_passthrough_key x) v)) ((list_eqb_iff j k).0 e))
  | inr e ↦ rw e (get_field-redact r fs k)
]

merge : (m w a b c : Bool) → ((((m || w) || a) || (w || b)) || c) ≡ ((m || w) || ((a || b) || c))
merge m w a b c = ground arith

leaf_at-walk :
    (r : Redactor) (path : List Hop) (m w : Bool) (v : Value)
    → leaf_at path (walk r m w v)
      ≡ map_leaf (shown r ((m || w) || is_covered r path)) (leaf_at path v)
unfolding walk
leaf_at-walk r [] m w (text s) = ground arith
leaf_at-walk r [] m w (scalar n) = ground arith
leaf_at-walk r [] m w (array vs) = refl
leaf_at-walk r [] m w (object fs) = refl
leaf_at-walk r (key k ∷ path) m w (object fs) = rw (get_field-walk r m w fs k) (
    then_leaf-map (leaf_at path) (walk_below r m w k) _ (get_field fs k) (λ v.
      leaf_at-walk r path ((m || w) || key_matches r k) (w || is_passthrough_key k) v
      ∙ ap (λ b. map_leaf (shown r b) (leaf_at path v))
          (merge m w (key_matches r k) (is_passthrough_key k) (is_covered r path))))
leaf_at-walk r (index i ∷ path) m w (array vs) =
    rw (nth_item-walk r m w vs i)
      (then_leaf-map (leaf_at path) (walk r m w) _ (nth_item vs i) (leaf_at-walk r path m w))
leaf_at-walk r (key k ∷ path) m w (text s) = elim (Bool-cases (m || w)) [
  | inl e ↦ rw e refl
  | inr e ↦ rw e refl
]
leaf_at-walk r (key k ∷ path) m w (scalar s) = elim (Bool-cases (m || w)) [
  | inl e ↦ rw e refl
  | inr e ↦ rw e refl
]
leaf_at-walk r (key k ∷ path) m w (array s) = refl
leaf_at-walk r (index k ∷ path) m w (text s) = elim (Bool-cases (m || w)) [
  | inl e ↦ rw e refl
  | inr e ↦ rw e refl
]
leaf_at-walk r (index k ∷ path) m w (scalar s) = elim (Bool-cases (m || w)) [
  | inl e ↦ rw e refl
  | inr e ↦ rw e refl
]
leaf_at-walk r (index k ∷ path) m w (object s) = refl

-- While values are masked, what stands at any path of a map stands there afterwards too, and
-- nothing else does. It is the mask if some key on the path is a secret's or a passthrough
-- subtree's, whatever it was; else a text is scrubbed and any other value unchanged.
pub leaf_at-redact :
    (r : Redactor) (fs : Fields) (authorized : Bool) (path : List Hop)
    → masking r authorized ≡ true
    → leaf_at path (object (redact r fs authorized))
      ≡ map_leaf (shown r (is_covered r path)) (leaf_at path (object fs))
unfolding redact
leaf_at-redact r fs authorized [] h = refl
leaf_at-redact r fs authorized (index i ∷ path) h = refl
leaf_at-redact r fs authorized (key k ∷ path) h = rw (h) (
    rw (get_field-redact r fs k) (
      then_leaf-map (leaf_at path) (walk r (key_matches r k) (is_passthrough_key k)) _
        (get_field fs k) (leaf_at-walk r path (key_matches r k) (is_passthrough_key k))))

mutual
  unfolding deep_copy_value deep_copy_items deep_copy_map

  copy_value : (v : Value) → deep_copy_value v ≡ v
  copy_value (text s) = refl
  copy_value (scalar n) = refl
  copy_value (array vs) = ap array (copy_items vs)
  copy_value (object fs) = ap object (copy_map fs)

  copy_items : (vs : Items) → deep_copy_items vs ≡ vs
  copy_items nil = refl
  copy_items (cons v vs) = ap₂ cons (copy_value v) (copy_items vs)

  copy_map : (fs : Fields) → deep_copy_map fs ≡ fs
  copy_map end = refl
  copy_map (field k v fs) = ap₂ (field k) (copy_value v) (copy_map fs)

-- Values are shown unchanged exactly under `always`, or under `when_authorized` to an authorized
-- caller; then the result is a copy of the whole input.
pub redact-shown :
    (r : Redactor) (fs : Fields) (authorized : Bool)
    → ((masking r authorized ≡ false)
        ↔ ((r.show_values ≡ always) ⊎ ((r.show_values ≡ when_authorized) × (authorized ≡ true))))
      × (masking r authorized ≡ false → redact r fs authorized ≡ fs)
unfolding redact masking
redact-shown r fs authorized = (ground arith, λ h. rw h (copy_map fs))
