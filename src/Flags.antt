-- ===== src/Flags.antt =====
-- pkg/features/flags/flags.go: the snapshot of feature flags, and roll-outs by percentage. Texts are
-- ASCII bytes. Of a float64 the model keeps the integer that it equals, if there is one.
pub mod Reload
pub mod Rollout
mod Tests
use Prim.Native.Nat.{bit_xor}
use lakta.Prelude.{
  ℕ, zero, suc, ◌+◌, ◌-◌, ◌*◌, ◌%◌, ◌^◌, ℤ, pos, negsuc, Bool, true, false, ◌&&◌, ◌||◌, Option,
  none, some, List, [], ◌∷◌, ◌++◌, contains, Result, ok, err, ◌>>=◌, leb, ltb, ◌==◌, nat_keyed,
  bytes_keyed, if◌then◌else◌,
}

pub data Value : Type 0 where
  boolean : Bool → Value
  int : ℤ → Value
  float : Option ℤ → Value
  text : List ℕ → Value
  other : Value

-- A raw definition: a scalar, or an object with the fields `value` and `rollout`, if it has them.
pub data Definition : Type 0 where
  scalar : Value → Definition
  object : (value rollout : Option Value) → Definition

pub record FlagValue : Type 0 where
  pub value : Value
  pub rollout : Option ℤ

pub data FlagsError : Type 0 where
  no_value bad_rollout : List ℕ → FlagsError

abbrev pub max_rollout : ℕ
max_rollout = 100

-- `strconv.ParseBool`
abbrev pub true_words : List (List ℕ)
true_words =
    (b'1' ∷ [])
    ∷ (b't' ∷ [])
    ∷ (b'T' ∷ [])
    ∷ (b't' ∷ b'r' ∷ b'u' ∷ b'e' ∷ [])
    ∷ (b'T' ∷ b'r' ∷ b'u' ∷ b'e' ∷ [])
    ∷ (b'T' ∷ b'R' ∷ b'U' ∷ b'E' ∷ [])
    ∷ []

abbrev pub false_words : List (List ℕ)
false_words =
    (b'0' ∷ [])
    ∷ (b'f' ∷ [])
    ∷ (b'F' ∷ [])
    ∷ (b'f' ∷ b'a' ∷ b'l' ∷ b's' ∷ b'e' ∷ [])
    ∷ (b'F' ∷ b'a' ∷ b'l' ∷ b's' ∷ b'e' ∷ [])
    ∷ (b'F' ∷ b'A' ∷ b'L' ∷ b'S' ∷ b'E' ∷ [])
    ∷ []

unfoldable pub to_bool : Value → Option Bool
to_bool (boolean b) = some b
to_bool (text s) =
    if contains true_words s then some true else if contains false_words s then some false else none
to_bool v = none

unfoldable pub to_string : Value → Option (List ℕ)
to_string (text s) = some s
to_string v = none

-- `strconv.Atoi`: a sign, digits, and the range of 64 bits.
abbrev pub digits : ℕ → List ℕ → Option ℕ
digits n [] = some n
digits n (c ∷ s) =
    let rest = digits (n * 10 + (c - b'0')) s in if leb b'0' c && leb c b'9' then rest else none

abbrev pub magnitude : List ℕ → Option ℕ
magnitude [] = none
magnitude (c ∷ s) = digits 0 (c ∷ s)

abbrev pub negated : ℕ → ℤ
negated zero = pos zero
negated (suc n) = negsuc n

unfoldable pub unsigned : List ℕ → Option ℤ
unsigned s = elim (magnitude s) [
  | none ↦ none
  | some n ↦ if ltb n (2 ^ 63) then some (pos n) else none
]

unfoldable pub minus : List ℕ → Option ℤ
minus s = elim (magnitude s) [
  | none ↦ none
  | some n ↦ if leb n (2 ^ 63) then some (negated n) else none
]

unfoldable pub atoi : List ℕ → Option ℤ
unfolding unsigned minus
atoi [] = none
atoi (c ∷ s) = if c == b'-' then minus s else if c == b'+' then unsigned s else unsigned (c ∷ s)

-- `int(t)` is `t` again if that is an integer of 64 bits.
abbrev pub in_int64 : ℤ → Bool
in_int64 (pos n) = ltb n (2 ^ 63)
in_int64 (negsuc n) = ltb n (2 ^ 63)

unfoldable pub to_int : Value → Option ℤ
unfolding atoi
to_int (int n) = some n
to_int (float none) = none
to_int (float (some n)) = if in_int64 n then some n else none
to_int (text s) = atoi s
to_int v = none

-- An integer between 0 and 100.
unfoldable pub check_rollout : List ℕ → Option ℤ → Result FlagsError ℤ
check_rollout name (some (pos n)) = if ltb max_rollout n then err (bad_rollout name) else ok (pos n)
check_rollout name r = err (bad_rollout name)

unfoldable pub parse_flag_value : List ℕ → Definition → Result FlagsError FlagValue
unfolding to_int check_rollout
parse_flag_value name (scalar v) = ok (record { value = v; rollout = none })
parse_flag_value name (object none rollout) = err (no_value name)
parse_flag_value name (object (some v) none) = ok (record { value = v; rollout = none })
parse_flag_value name (object (some v) (some r)) =
    check_rollout name (to_int r) >>= λ n. ok (record { value = v; rollout = some n })

-- The map of definitions is the list of its entries in the order of an iteration.
unfoldable pub parse_snapshot :
    List (List ℕ × Definition) → Result FlagsError (List (List ℕ × FlagValue))
unfolding parse_flag_value
parse_snapshot [] = ok []
parse_snapshot ((name, d) ∷ raw) = do
  fl ← parse_flag_value name d
  rest ← parse_snapshot raw
  ok ((name, fl) ∷ rest)

unfoldable pub lookup : List (List ℕ × FlagValue) → List ℕ → Option FlagValue
lookup [] name = none
lookup ((k, fl) ∷ s) name = if k == name then some fl else lookup s name

-- Reads of a flag, without regard to a roll-out.
module _ {T : Type 0} where
  unfoldable pub coerced : Option T → T → T
  coerced none def = def
  coerced (some v) def = v

  unfoldable pub read_value : Option FlagValue → T → (Value → Option T) → T
  unfolding coerced
  read_value none def coerce = def
  read_value (some fl) def coerce = coerced (coerce fl.value) def

  unfoldable pub read : List (List ℕ × FlagValue) → List ℕ → T → (Value → Option T) → T
  unfolding lookup read_value
  read s name def coerce = read_value (lookup s name) def coerce

unfoldable pub bool : List (List ℕ × FlagValue) → List ℕ → Bool → Bool
unfolding read to_bool
bool s name def = read s name def to_bool

unfoldable pub string : List (List ℕ × FlagValue) → List ℕ → List ℕ → List ℕ
unfolding read to_string
string s name def = read s name def to_string

unfoldable pub integer : List (List ℕ × FlagValue) → List ℕ → ℤ → ℤ
unfolding read to_int
integer s name def = read s name def to_int

-- `fnv.New64a`, byte by byte.
abbrev pub fnv_write : ℕ → List ℕ → ℕ
fnv_write h [] = h
fnv_write h (c ∷ s) = fnv_write ((bit_xor h c * 1099511628211) % 2 ^ 64) s

unfoldable pub bucket : List ℕ → List ℕ → ℕ
bucket name key = fnv_write 14695981039346656037 (name ++ b':' ∷ key) % max_rollout

-- Whether a bucket is below the roll-out.
abbrev pub below : ℕ → ℤ → Bool
below b (pos n) = ltb b n
below b (negsuc n) = false

unfoldable pub gate : List ℕ → List ℕ → Bool → Bool → Option ℤ → Bool
unfolding bucket
gate name key def false rollout = false
gate name key def true none = true
gate name key def true (some r) = below (bucket name key) r

unfoldable pub bool_for : List (List ℕ × FlagValue) → List ℕ → List ℕ → Bool → Bool
unfolding lookup to_bool gate
bool_for s name key def = elim (lookup s name) [
  | none ↦ def
  | some fl ↦ elim (to_bool fl.value) [ none ↦ def | some val ↦ gate name key def val fl.rollout ]
]
