-- ===== src/Reflectcfg/Settable.antt =====
-- The keys that the documentation of pkg/reflectcfg/reflectcfg.go speaks of: those by which one field
-- is set.
use lakta.Prelude.{
  ℕ, ◌≢◌, ◌||◌, Option, none, some, List, [], ◌∷◌, ◌++◌, ◌==◌, nat_keyed, bytes_keyed,
  if◌then◌else◌,
}
use lakta.Config.Keys.{dot}
use lakta.Config.Keys.RoundTrip.{IsPlain}
use lakta.Reflectcfg.{
  GoType, pointer, struct, StructFields, no_fields, struct_field, FieldDocs, no_docs, field_doc,
  env_var_name, skipped, is_passthrough,
}

-- The variables that are documented, from top to bottom.
abbrev pub env_vars : FieldDocs → List (List ℕ)
env_vars no_docs = []
env_vars (field_doc key [] inner rest) = env_vars inner ++ env_vars rest
env_vars (field_doc key (c ∷ env) inner rest) = (c ∷ env) ∷ (env_vars inner ++ env_vars rest)

abbrev pub Place : Type 0
Place = List ℕ × List ℕ

abbrev pub place_or : Place → Option (List Place) → List Place
place_or here none = here ∷ []
place_or here (some below) = below

-- The fields that one key can set, each by the path of its struct and its tag: those that are
-- exported and tagged, and no block of fields.
unfoldable mutual
  pub settable : (pkg path : List ℕ) → StructFields → List Place
  settable pkg path no_fields = []
  settable pkg path (struct_field exported tag t fs) =
      let rest = settable pkg path fs in
      let here = place_or (path, tag) (settable_below pkg (path ++ dot ∷ tag) t) in
      if skipped exported tag then rest else here ++ rest

  pub settable_below : (pkg path : List ℕ) → GoType → Option (List Place)
  settable_below pkg path (struct p fs) =
      let inner = settable pkg path fs in if p == pkg then some inner else none
  settable_below pkg path (pointer (struct p fs)) =
      let inner = settable pkg path fs in if p == pkg then some inner else none
  settable_below pkg path t = none

-- A module's struct passes third-party configuration through, too, in fields without a key.
unfoldable pub settable_config : (pkg path : List ℕ) → StructFields → List Place
unfolding settable_below
settable_config pkg path no_fields = []
settable_config pkg path (struct_field exported tag t fs) =
    let rest = settable_config pkg path fs in
    let here = place_or (path, tag) (settable_below pkg (path ++ dot ∷ tag) t) in
    if skipped exported tag || is_passthrough t then rest else here ++ rest

abbrev pub key_of : Place → List ℕ
key_of (path, tag) = path ++ dot ∷ tag

abbrev pub variable_of : Place → List ℕ
variable_of (path, tag) = env_var_name path tag

abbrev pub NoDot : List ℕ → Type 0
NoDot [] = Unit {0}
NoDot (c ∷ s) = (c ≢ dot) × NoDot s

-- Keys in lower case, without a double underscore or one in front of a dot.
abbrev pub ArePlain : List Place → Type 0
ArePlain [] = Unit {0}
ArePlain (p ∷ ps) = (IsPlain (key_of p) × NoDot p.1) × ArePlain ps
