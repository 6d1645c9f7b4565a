-- ===== src/Redact.antt =====
-- pkg/debug/actuator/redact.go: the redaction of configuration values before they are shown. A text
-- is its ASCII bytes; a value that is no map, list or string is a number. The regular expressions
-- of the operator and the two value scrubbers are functions of the text.
pub mod Covered
pub mod Words
mod Tests
use lakta.Prelude.{
  ℕ, ◌+◌, Bool, true, false, not, ◌&&◌, ◌||◌, List, [], ◌∷◌, map, leb, ◌==◌, bytes_keyed, nat_keyed,
  if◌then◌else◌,
}

-- `any` as koanf yields it; the fields of a map in any order.
mutual
  pub data Value : Type 0 where
    text : List ℕ → Value
    scalar : ℕ → Value
    array : Items → Value
    object : Fields → Value

  pub data Items : Type 0 where
    nil : Items
    cons : Value → Items → Items

  pub data Fields : Type 0 where
    end : Fields
    field : List ℕ → Value → Fields → Fields

pub data ShowValues : Type 0 where
  -- `other` is `never` and every unknown text, which the switch treats alike
  always when_authorized other : ShowValues

-- `Redactor`: what `NewRedactor` compiles, with the scrubbers that `redactValue` calls.
pub record Redactor : Type 0 where
  -- the alternation of the additive patterns
  pub additive : List ℕ → Bool
  pub show_values : ShowValues
  pub uri_userinfo : List ℕ → List ℕ
  pub dsn_param : List ℕ → List ℕ

abbrev pub redact_mask : List ℕ
redact_mask = b'*' ∷ b'*' ∷ b'*' ∷ b'*' ∷ b'*' ∷ b'*' ∷ []

abbrev pub fold_byte : ℕ → ℕ
fold_byte c = if leb b'A' c && leb c b'Z' then c + 32 else c

abbrev pub starts_with : List ℕ → List ℕ → Bool
starts_with [] s = true
starts_with (p ∷ ps) [] = false
starts_with (p ∷ ps) (c ∷ s) = (p == c) && starts_with ps s

-- An unanchored literal of a pattern.
abbrev pub occurs : List ℕ → List ℕ → Bool
occurs w [] = starts_with w []
occurs w (c ∷ s) = starts_with w (c ∷ s) || occurs w s

-- `v.*w`: `w` follows `v` on the same line.
abbrev pub on_line : List ℕ → List ℕ → Bool
on_line w [] = starts_with w []
on_line w (c ∷ s) = starts_with w (c ∷ s) || (not (c == b'\n') && on_line w s)

abbrev pub password : List ℕ
password = b'p' ∷ b'a' ∷ b's' ∷ b's' ∷ b'w' ∷ b'o' ∷ b'r' ∷ b'd' ∷ []

abbrev pub secret : List ℕ
secret = b's' ∷ b'e' ∷ b'c' ∷ b'r' ∷ b'e' ∷ b't' ∷ []

abbrev pub token : List ℕ
token = b't' ∷ b'o' ∷ b'k' ∷ b'e' ∷ b'n' ∷ []

abbrev pub key_word : List ℕ
key_word = b'k' ∷ b'e' ∷ b'y' ∷ []

abbrev pub credential : List ℕ
credential = b'c' ∷ b'r' ∷ b'e' ∷ b'd' ∷ b'e' ∷ b'n' ∷ b't' ∷ b'i' ∷ b'a' ∷ b'l' ∷ []

abbrev pub apikey : List ℕ
apikey = b'a' ∷ b'p' ∷ b'i' ∷ b'k' ∷ b'e' ∷ b'y' ∷ []

abbrev pub dsn : List ℕ
dsn = b'd' ∷ b's' ∷ b'n' ∷ []

abbrev pub default_words : List (List ℕ)
default_words = password ∷ secret ∷ token ∷ key_word ∷ credential ∷ apikey ∷ dsn ∷ []

abbrev pub conn : List ℕ
conn = b'c' ∷ b'o' ∷ b'n' ∷ b'n' ∷ []

abbrev pub string_word : List ℕ
string_word = b's' ∷ b't' ∷ b'r' ∷ b'i' ∷ b'n' ∷ b'g' ∷ []

abbrev pub any_occurs : List (List ℕ) → List ℕ → Bool
any_occurs [] s = false
any_occurs (w ∷ ws) s = occurs w s || any_occurs ws s

-- `v.*w` at the text's start.
abbrev pub followed : List ℕ → List ℕ → List ℕ → Bool
followed [] w s = on_line w s
followed (p ∷ ps) w [] = false
followed (p ∷ ps) w (c ∷ s) = (p == c) && followed ps w s

-- `conn.*string`
abbrev pub conn_strings : List ℕ → Bool
conn_strings [] = false
conn_strings (c ∷ s) = followed conn string_word (c ∷ s) || conn_strings s

unfoldable pub default_key : List ℕ → Bool
default_key k = let s = map fold_byte k in any_occurs default_words s || conn_strings s

-- `strings.EqualFold(key, "raw")`
unfoldable pub is_passthrough_key : List ℕ → Bool
is_passthrough_key key = map fold_byte key == b'r' ∷ b'a' ∷ b'w' ∷ []

-- `keyRe.MatchString`
unfoldable pub key_matches : Redactor → List ℕ → Bool
unfolding default_key
key_matches r k = default_key k || r.additive k

unfoldable pub masking : Redactor → Bool → Bool
masking r authorized = elim r.show_values [
  | always ↦ false
  | when_authorized ↦ not authorized
  | other ↦ true
]

unfoldable pub redact_value : Redactor → List ℕ → List ℕ
redact_value r s = r.dsn_param (r.uri_userinfo s)

unfoldable mutual
  unfolding key_matches is_passthrough_key redact_value

  pub walk : Redactor → Bool → Bool → Value → Value
  walk r key_matched wholesale (text s) =
      if key_matched || wholesale then text redact_mask else text (redact_value r s)
  walk r key_matched wholesale (scalar n) =
      if key_matched || wholesale then text redact_mask else scalar n
  walk r key_matched wholesale (array vs) = array (walk_items r key_matched wholesale vs)
  walk r key_matched wholesale (object fs) = object (walk_fields r key_matched wholesale fs)

  pub walk_items : Redactor → Bool → Bool → Items → Items
  walk_items r key_matched wholesale nil = nil
  walk_items r key_matched wholesale (cons v vs) =
      cons (walk r key_matched wholesale v) (walk_items r key_matched wholesale vs)

  pub walk_fields : Redactor → Bool → Bool → Fields → Fields
  walk_fields r key_matched wholesale end = end
  walk_fields r key_matched wholesale (field k v fs) =
      field k
        (walk r (key_matched || wholesale || key_matches r k) (wholesale || is_passthrough_key k) v)
        (walk_fields r key_matched wholesale fs)

unfoldable mutual
  pub deep_copy_value : Value → Value
  deep_copy_value (text s) = text s
  deep_copy_value (scalar n) = scalar n
  deep_copy_value (array vs) = array (deep_copy_items vs)
  deep_copy_value (object fs) = object (deep_copy_map fs)

  pub deep_copy_items : Items → Items
  deep_copy_items nil = nil
  deep_copy_items (cons v vs) = cons (deep_copy_value v) (deep_copy_items vs)

  pub deep_copy_map : Fields → Fields
  deep_copy_map end = end
  deep_copy_map (field k v fs) = field k (deep_copy_value v) (deep_copy_map fs)

unfoldable pub redact_fields : Redactor → Fields → Fields
unfolding walk key_matches is_passthrough_key
redact_fields r end = end
redact_fields r (field k v fs) =
    field k (walk r (key_matches r k) (is_passthrough_key k) v) (redact_fields r fs)

unfoldable pub redact : Redactor → Fields → Bool → Fields
unfolding masking deep_copy_map redact_fields
redact r fs authorized = if masking r authorized then redact_fields r fs else deep_copy_map fs
