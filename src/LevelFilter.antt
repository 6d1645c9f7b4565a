-- ===== src/LevelFilter.antt =====
-- pkg/logging/slog/level_filter.go: the log level of each package, by the longest configured prefix
-- of its path, with a cache by function. Names are ASCII bytes. The handler behind the filter is
-- a Boolean function of the level.
pub mod Longest
pub mod Coherent
mod Tests
use lakta.Prelude.{
  ℕ, suc, ◌+◌, ℤ, pos, negsuc, Bool, true, false, not, ◌&&◌, Option, none, some, List, [], ◌∷◌,
  ◌++◌, length, ltb, leb, ◌==◌, nat_keyed, bytes_keyed, if◌then◌else◌,
}

abbrev pub int_leb : ℤ → ℤ → Bool
int_leb (pos m) (pos n) = leb m n
int_leb (pos m) (negsuc n) = false
int_leb (negsuc m) (pos n) = true
int_leb (negsuc m) (negsuc n) = leb n m

abbrev pub int_ltb : ℤ → ℤ → Bool
int_ltb a b = not (int_leb b a)

pub record LevelRule : Type 0 where
  pub prefix : List ℕ
  pub level : ℤ

pub record LevelRules : Type 0 where
  pub default_level : ℤ
  pub rules : List LevelRule
  pub min_level : ℤ

pub record LevelFilter : Type 0 where
  pub state : LevelRules
  pub cache : List (List ℕ × ℤ)

-- `sort.Slice` by the length of the prefix, the longest first.
unfoldable pub insert_rule : LevelRule → List LevelRule → List LevelRule
insert_rule r [] = r ∷ []
insert_rule r (s ∷ rules) =
    let later = insert_rule r rules in
    if ltb (length s.prefix) (length r.prefix) then r ∷ s ∷ rules else s ∷ later

unfoldable pub sort_rules : List LevelRule → List LevelRule
unfolding insert_rule
sort_rules [] = []
sort_rules (r ∷ rules) = insert_rule r (sort_rules rules)

unfoldable pub lowest : ℤ → List LevelRule → ℤ
lowest min_level [] = min_level
lowest min_level (r ∷ rules) =
    lowest (if int_ltb r.level min_level then r.level else min_level) rules

-- The map of levels is the list of its entries in the order of an iteration.
unfoldable pub build_rules : ℤ → List LevelRule → LevelRules
unfolding sort_rules lowest
build_rules default_level levels = record {
  default_level = default_level;
  rules = sort_rules levels;
  min_level = lowest default_level levels;
}

-- `strings.HasPrefix`
abbrev pub has_prefix : List ℕ → List ℕ → Bool
has_prefix s [] = true
has_prefix [] (p ∷ ps) = false
has_prefix (c ∷ s) (p ∷ ps) = (c == p) && has_prefix s ps

unfoldable pub first_match : ℤ → List LevelRule → List ℕ → ℤ
first_match default_level [] pkg_path = default_level
first_match default_level (r ∷ rules) pkg_path =
    let rest = first_match default_level rules pkg_path in
    if has_prefix pkg_path r.prefix then r.level else rest

unfoldable pub match_level : LevelRules → List ℕ → ℤ
unfolding first_match
match_level s pkg_path = first_match s.default_level s.rules pkg_path

-- `strings.Cut(s, ".")`, the part before.
abbrev pub before_dot : List ℕ → List ℕ
before_dot [] = []
before_dot (c ∷ s) = let rest = before_dot s in if c == b'.' then [] else c ∷ rest

-- The text up to the last slash, and what follows it.
abbrev pub split_last : List ℕ → Option (List ℕ × List ℕ)
split_last [] = none
split_last (c ∷ s) = elim (split_last s) [
  | some (dir, rest) ↦ some (c ∷ dir, rest)
  | none ↦ if c == b'/' then some (c ∷ [], s) else none
]

-- Without a dot, `before` is the whole text, which is what the source returns then.
unfoldable pub extract_package_path : List ℕ → List ℕ
extract_package_path func_name = elim (split_last func_name) [
  | none ↦ before_dot func_name
  | some (dir, rest) ↦ dir ++ before_dot rest
]

abbrev pub load_cached : List (List ℕ × ℤ) → List ℕ → Option ℤ
load_cached [] name = none
load_cached ((k, level) ∷ cache) name = if k == name then some level else load_cached cache name

unfoldable pub new_level_filter : ℤ → List LevelRule → LevelFilter
new_level_filter default_level levels = record {
  state = build_rules default_level levels;
  cache = [];
}

unfoldable pub update : ℤ → List LevelRule → LevelFilter → LevelFilter
update default_level levels f = record f { state = build_rules default_level levels; cache = [] }

-- What the cache holds, or else the rules' level, which is cached then.
unfoldable pub resolved : Option ℤ → List ℕ → LevelFilter → ℤ × LevelFilter
unfolding match_level extract_package_path
resolved (some level) func_name f = (level, f)
resolved none func_name f =
    let level = match_level f.state (extract_package_path func_name) in
    (level, record f { cache = (func_name, level) ∷ f.cache })

unfoldable pub resolve_level : List ℕ → LevelFilter → ℤ × LevelFilter
unfolding resolved
resolve_level func_name f = resolved (load_cached f.cache func_name) func_name f

-- `override` is the context's level, if it has one.
unfoldable pub enabled : (ℤ → Bool) → Option ℤ → ℤ → LevelFilter → Bool
enabled upstream none level f = int_leb f.state.min_level level && upstream level
enabled upstream (some override) level f =
    if int_leb override level
    then upstream level
    else int_leb f.state.min_level level && upstream level

-- Whether the record goes on to the handler behind.
unfoldable pub handle : Option ℤ → ℤ → List ℕ → LevelFilter → Bool × LevelFilter
unfolding resolve_level
handle none level func_name f =
    let (threshold, f') = resolve_level func_name f in (not (int_ltb level threshold), f')
handle (some override) level func_name f = (int_leb override level, f)
