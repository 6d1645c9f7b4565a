-- ===== src/Reflectcfg.antt =====
-- pkg/reflectcfg/reflectcfg.go: the documentation of a module's configuration, by reflection on its
-- struct. Of a `FieldDoc` the model keeps the key, the environment variable and the fields below it.
-- Texts are ASCII bytes.
pub mod Settable
pub mod Variables
mod Tests
use lakta.Prelude.{
  ℕ, Bool, true, false, not, ◌||◌, Option, none, some, List, [], ◌∷◌, ◌++◌, map, ◌==◌, nat_keyed,
  bytes_keyed, if◌then◌else◌,
}
use lakta.Config.Keys.{underscore, dot}
use lakta.Config.Keys.RoundTrip.{to_upper}

-- Types, as far as they are looked into: a struct has the path of its package. Any other type is
-- opaque.
mutual
  pub data GoType : Type 0 where
    opaque passthrough : GoType
    pointer slice map_of : GoType → GoType
    struct : List ℕ → StructFields → GoType

  -- A field: whether it is exported, and its `koanf` tag, empty if it has none.
  pub data StructFields : Type 0 where
    no_fields : StructFields
    struct_field : Bool → List ℕ → GoType → StructFields → StructFields

-- An empty environment variable is none.
pub data FieldDocs : Type 0 where
  no_docs : FieldDocs
  field_doc : (key env : List ℕ) (fields rest : FieldDocs) → FieldDocs

-- `LAKTA_`
abbrev pub env_prefix : List ℕ
env_prefix = b'L' ∷ b'A' ∷ b'K' ∷ b'T' ∷ b'A' ∷ b'_' ∷ []

-- `strings.ReplaceAll(configPath, ".", "__")`
unfoldable pub join_segments : List ℕ → List ℕ
join_segments [] = []
join_segments (c ∷ p) =
    let rest = join_segments p in if c == dot then underscore ∷ underscore ∷ rest else c ∷ rest

unfoldable pub env_var_name : (config_path key : List ℕ) → List ℕ
unfolding join_segments
env_var_name config_path key =
    env_prefix ++ map to_upper (join_segments config_path ++ underscore ∷ underscore ∷ key)

-- The fields that are passed over.
abbrev pub skipped : Bool → List ℕ → Bool
skipped exported tag = not exported || (tag == []) || (tag == b'-' ∷ [])

abbrev pub is_passthrough : GoType → Bool
is_passthrough passthrough = true
is_passthrough t = false

-- The documentation of a field, and that of the fields behind it: `block` is below a nested block,
-- `elem` below the elements of a collection.
unfoldable pub documented :
    (tag env : List ℕ) (block elem : Option FieldDocs) → FieldDocs → FieldDocs
documented tag env (some inner) elem rest = field_doc tag [] inner rest
documented tag env none (some inner) rest = field_doc tag env inner rest
documented tag env none none rest = field_doc tag env no_docs rest

unfoldable pub sub_variable : (config_path key_path tag : List ℕ) → List ℕ
unfolding env_var_name
sub_variable [] key_path tag = []
sub_variable (c ∷ config_path) key_path tag = env_var_name ((c ∷ config_path) ++ dot ∷ key_path) tag

unfoldable mutual
  unfolding documented sub_variable

  pub struct_fields : (pkg config_path key_path : List ℕ) → StructFields → FieldDocs
  struct_fields pkg config_path key_path no_fields = no_docs
  struct_fields pkg config_path key_path (struct_field exported tag t fs) =
      let rest = struct_fields pkg config_path key_path fs in
      let block = block_struct pkg config_path (key_path ++ dot ∷ tag) t in
      let elem = collection_elem pkg t in
      if skipped exported tag
      then rest
      else documented tag (sub_variable config_path key_path tag) block elem rest

  -- The fields of `blockStruct`, documented.
  pub block_struct : (pkg config_path key_path : List ℕ) → GoType → Option FieldDocs
  block_struct pkg config_path key_path (struct p fs) =
      let inner = struct_fields pkg config_path key_path fs in if p == pkg then some inner else none
  block_struct pkg config_path key_path (pointer (struct p fs)) =
      let inner = struct_fields pkg config_path key_path fs in if p == pkg then some inner else none
  block_struct pkg config_path key_path t = none

  pub collection_elem : (pkg : List ℕ) → GoType → Option FieldDocs
  collection_elem pkg (slice t) = block_struct pkg [] [] t
  collection_elem pkg (map_of t) = block_struct pkg [] [] t
  collection_elem pkg t = none

-- The fields of the module's own struct.
unfoldable pub process_config : (pkg config_path : List ℕ) → StructFields → FieldDocs
unfolding documented block_struct collection_elem env_var_name
process_config pkg config_path no_fields = no_docs
process_config pkg config_path (struct_field exported tag t fs) =
    let rest = process_config pkg config_path fs in
    if skipped exported tag || is_passthrough t
    then rest
    else documented tag (env_var_name config_path tag) (block_struct pkg config_path tag t)
        (collection_elem pkg t) rest
