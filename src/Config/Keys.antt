-- ===== src/Config/Keys.antt =====
-- `envKeyTransform` and `parseFlag` of pkg/config/module.go, and `ModulePath` of path.go, over the
-- bytes of ASCII texts.
pub mod RoundTrip
use lakta.Prelude.{
  ℕ, zero, suc, ◌+◌, ◌-◌, Bool, true, false, Option, none, some, List, [], ◌∷◌, ◌++◌, map, ◌==◌,
  nat_keyed, leb, ◌&&◌, if◌then◌else◌,
}

abbrev pub underscore : ℕ
underscore = b'_'

abbrev pub dot : ℕ
dot = b'.'

-- `strings.TrimPrefix`
unfoldable pub cut_prefix : List ℕ → List ℕ → Option (List ℕ)
cut_prefix [] s = some s
cut_prefix (p ∷ ps) [] = none
cut_prefix (p ∷ ps) (c ∷ s) = let rest = cut_prefix ps s in if p == c then rest else none

unfoldable pub trim_prefix : List ℕ → List ℕ → List ℕ
unfolding cut_prefix
trim_prefix prefix s = elim (cut_prefix prefix s) [ none ↦ s | some rest ↦ rest ]

-- `strings.ReplaceAll(s, "__", ".")`
unfoldable pub replace_all : List ℕ → List ℕ
replace_all [] = []
replace_all (c ∷ []) = c ∷ []
replace_all (c ∷ d ∷ s) =
    let replaced = dot ∷ replace_all s in
    let kept = c ∷ replace_all (d ∷ s) in
    if c == underscore && d == underscore then replaced else kept

unfoldable pub to_lower : ℕ → ℕ
to_lower c = if leb b'A' c && leb c b'Z' then c + 32 else c

unfoldable pub env_key_transform : List ℕ → List ℕ → List ℕ
unfolding trim_prefix replace_all to_lower
env_key_transform prefix s = map to_lower (replace_all (trim_prefix prefix s))

-- `strings.Cut(raw, "=")`
unfoldable pub cut : List ℕ → Option (List ℕ × List ℕ)
cut [] = none
cut (c ∷ s) =
    let rest = cut s in
    if c == b'=' then some ([], s) else elim rest [ none ↦ none | some (k, v) ↦ some (c ∷ k, v) ]

unfoldable pub parse_flag : List ℕ → Option (List ℕ × List ℕ)
unfolding cut cut_prefix
parse_flag arg = elim (cut_prefix (b'-' ∷ b'-' ∷ []) arg) [ none ↦ none | some raw ↦ cut raw ]

-- `"modules.%s.%s.%s"`; `default_instance` is `DefaultInstanceName`.
unfoldable pub module_path : List ℕ → List ℕ → List ℕ → List ℕ → List ℕ → List ℕ
module_path modules default_instance category module_type [] =
    modules ++ dot ∷ (category ++ dot ∷ (module_type ++ dot ∷ default_instance))
module_path modules default_instance category module_type (c ∷ instance_name) =
    modules ++ dot ∷ (category ++ dot ∷ (module_type ++ dot ∷ (c ∷ instance_name)))
