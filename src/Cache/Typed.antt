-- ===== src/Cache/Typed.antt =====
-- `typedCache` of pkg/cache/registry.go: a typed handle puts keys and values into a box of `any`, and
-- asserts their types when they come out. A value of `any` is nil, or a dynamic type and a number.
-- What a box answers is the backend's, so its answer is an argument.
use lakta.Prelude.{
  ℕ, ◌≡◌, refl, Bool, true, Option, none, some, Result, ok, err, nat_eqb, nat_keyed, if◌then◌else◌,
  inl, inr, ◌⊎◌,
}

pub data Any : Type 0 where
  nil : Any
  dynamic : (type payload : ℕ) → Any

-- Go's types: which of them are interfaces, and which types implement those.
pub record Types : Type 0 where
  pub is_interface : ℕ → Bool
  pub implements : (type interface : ℕ) → Bool

pub data Got : Type 0 where
  missing panicked : Got
  found : Any → Got

module _ (types : Types) where
  -- `v.(V)`: a nil has no type, so it is asserted to none.
  unfoldable pub assert_type : ℕ → Any → Got
  assert_type vt nil = panicked
  assert_type vt (dynamic t x) =
      if (if types.is_interface vt then types.implements t vt else nat_eqb t vt)
      then found (dynamic t x)
      else panicked

  -- A value of the type `vt`.
  unfoldable pub has_type : ℕ → Any → Bool
  has_type vt nil = types.is_interface vt
  has_type vt (dynamic t x) = if types.is_interface vt then types.implements t vt else nat_eqb t vt

  -- `Get`.
  unfoldable pub get_boxed : ℕ → Option Any → Got
  unfolding assert_type
  get_boxed vt none = missing
  get_boxed vt (some v) = assert_type vt v

  -- `GetOrLoad`: `inr` is an error of the box, passed on.
  unfoldable pub typed_loaded : ℕ → Result ℕ Any → Got ⊎ ℕ
  unfolding assert_type
  typed_loaded vt (ok v) = inl (assert_type vt v)
  typed_loaded vt (err e) = inr e

abbrev pub shown : Any → Got
shown nil = panicked
shown (dynamic t x) = found (dynamic t x)

-- A value of the handle's type comes out as itself, but a nil panics.
pub get_boxed-shown :
    (types : Types) (vt : ℕ) (v : Any)
    → has_type types vt v ≡ true
    → get_boxed types vt (some v) ≡ shown v
unfolding get_boxed assert_type has_type
get_boxed-shown types vt nil h = refl
get_boxed-shown types vt (dynamic t x) h = rw h refl
