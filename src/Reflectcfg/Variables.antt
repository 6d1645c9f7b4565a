-- ===== src/Reflectcfg/Variables.antt =====
-- The environment variables of the documentation (pkg/reflectcfg/reflectcfg.go), against what the
-- loader makes of them (`envKeyTransform` of pkg/config/module.go).
use mathlib.Core.Path.{ap₂}
use mathlib.Core.List.{map-append}
use lakta.Prelude.{
  ℕ, ◌≡◌, refl, sym, ap, ◌∙◌, subst, inl, inr, ◌||◌, Option, none, some, List, [], ◌∷◌, ◌++◌, map,
  append_assoc, ◌==◌, nat_keyed, bytes_keyed, Bool-cases, arith,
}
use lakta.Config.Keys.{dot, underscore, env_key_transform}
use lakta.Config.Keys.RoundTrip.{to_upper, encode, IsPlain, env_key_transform-encode}
use lakta.Reflectcfg.{
  GoType, pointer, slice, map_of, struct, StructFields, no_fields, struct_field, FieldDocs,
  env_prefix, join_segments, env_var_name, skipped, is_passthrough, documented, sub_variable,
  struct_fields, block_struct, collection_elem, process_config,
}
use lakta.Reflectcfg.Settable.{
  env_vars, Place, place_or, settable, settable_below, settable_config, key_of, variable_of, NoDot,
  ArePlain,
}

-- Documented fields with exactly these variables.
abbrev Matches : Option FieldDocs → Option (List Place) → Type 0
Matches none none = Unit {0}
Matches (some docs) (some ps) = env_vars docs ≡ map variable_of ps
Matches docs ps = ⊥

abbrev IsSilent : Option FieldDocs → Type 0
IsSilent none = Unit {0}
IsSilent (some docs) = env_vars docs ≡ []

documented-IsSilent :
    (tag : List ℕ) (block elem : Option FieldDocs) (rest : FieldDocs)
    → IsSilent block
    → IsSilent elem
    → env_vars rest ≡ []
    → env_vars (documented tag [] block elem rest) ≡ []
unfolding documented
documented-IsSilent tag none none rest b e r = r
documented-IsSilent tag none (some elem) rest b e r = ap₂ (λ x y. x ++ y) e r
documented-IsSilent tag (some block) elem rest b e r = ap₂ (λ x y. x ++ y) b r

mutual
  unfolding struct_fields block_struct sub_variable

  struct_fields-IsSilent :
      (pkg key_path : List ℕ) (fs : StructFields) → env_vars (struct_fields pkg [] key_path fs) ≡ []
  struct_fields-IsSilent pkg key_path no_fields = refl
  struct_fields-IsSilent pkg key_path (struct_field exported tag t fs) =
      elim (Bool-cases (skipped exported tag)) [
        | inl y ↦ rw y (struct_fields-IsSilent pkg key_path fs)
        | inr n ↦ rw n (
            documented-IsSilent tag (block_struct pkg [] (key_path ++ dot ∷ tag) t)
              (collection_elem pkg t) (struct_fields pkg [] key_path fs)
              (block_struct-IsSilent pkg (key_path ++ dot ∷ tag) t) (collection_elem-IsSilent pkg t)
              (struct_fields-IsSilent pkg key_path fs))
      ]

  block_struct-IsSilent :
      (pkg key_path : List ℕ) (t : GoType) → IsSilent (block_struct pkg [] key_path t)
  block_struct-IsSilent pkg key_path (struct p fs) = elim (Bool-cases (p == pkg)) [
    | inl y ↦ rw y (struct_fields-IsSilent pkg key_path fs)
    | inr n ↦ rw n tt
  ]
  block_struct-IsSilent pkg key_path (pointer (struct p fs)) = elim (Bool-cases (p == pkg)) [
    | inl y ↦ rw y (struct_fields-IsSilent pkg key_path fs)
    | inr n ↦ rw n tt
  ]
  block_struct-IsSilent pkg key_path (pointer t) = tt
  block_struct-IsSilent pkg key_path t = tt

  collection_elem-IsSilent : (pkg : List ℕ) (t : GoType) → IsSilent (collection_elem pkg t)
  collection_elem-IsSilent pkg (slice t) = block_struct-IsSilent pkg [] t
  collection_elem-IsSilent pkg (map_of t) = block_struct-IsSilent pkg [] t
  collection_elem-IsSilent pkg t = tt

-- What is documented for one field, in front of the others.
documented-env_vars :
    (path tag : List ℕ) (block elem : Option FieldDocs) (below : Option (List Place))
    (rest : FieldDocs) (later : List Place)
    → Matches block below
    → IsSilent elem
    → env_vars rest ≡ map variable_of later
    → env_vars (documented tag (env_var_name path tag) block elem rest)
      ≡ map variable_of (place_or (path, tag) below ++ later)
unfolding documented env_var_name
documented-env_vars path tag none none none rest later b e r = ap (λ l. env_var_name path tag ∷ l) r
documented-env_vars path tag none (some elem) none rest later b e r =
    ap (λ l. env_var_name path tag ∷ l) (ap₂ (λ x y. x ++ y) e r)
documented-env_vars path tag (some block) elem (some below) rest later b e r =
    ap₂ (λ x y. x ++ y) b r ∙ sym (map-append variable_of below later)
documented-env_vars path tag none elem (some below) rest later b e r = absurd b
documented-env_vars path tag (some block) elem none rest later b e r = absurd b

mutual
  unfolding struct_fields block_struct sub_variable settable settable_below

  struct_fields-settable :
      (pkg : List ℕ) (c : ℕ) (config_path key_path : List ℕ) (fs : StructFields)
      → env_vars (struct_fields pkg (c ∷ config_path) key_path fs)
        ≡ map variable_of (settable pkg ((c ∷ config_path) ++ dot ∷ key_path) fs)
  struct_fields-settable pkg c config_path key_path no_fields = refl
  struct_fields-settable pkg c config_path key_path (struct_field exported tag t fs) =
      elim (Bool-cases (skipped exported tag)) [
        | inl y ↦ rw y (struct_fields-settable pkg c config_path key_path fs)
        | inr n ↦ rw n (
            documented-env_vars ((c ∷ config_path) ++ dot ∷ key_path) tag
              (block_struct pkg (c ∷ config_path) (key_path ++ dot ∷ tag) t) (collection_elem pkg t)
              (settable_below pkg (((c ∷ config_path) ++ dot ∷ key_path) ++ dot ∷ tag) t)
              (struct_fields pkg (c ∷ config_path) key_path fs)
              (settable pkg ((c ∷ config_path) ++ dot ∷ key_path) fs)
              (subst
                (λ path.
                  Matches (block_struct pkg (c ∷ config_path) (key_path ++ dot ∷ tag) t)
                    (settable_below pkg path t))
                (sym (append_assoc (c ∷ config_path) (dot ∷ key_path) (dot ∷ tag)))
                (block_struct-Matches pkg c config_path (key_path ++ dot ∷ tag) t))
              (collection_elem-IsSilent pkg t)
              (struct_fields-settable pkg c config_path key_path fs))
      ]

  block_struct-Matches :
      (pkg : List ℕ) (c : ℕ) (config_path key_path : List ℕ) (t : GoType)
      → Matches
          (block_struct pkg (c ∷ config_path) key_path t)
          (settable_below pkg ((c ∷ config_path) ++ dot ∷ key_path) t)
  block_struct-Matches pkg c config_path key_path (struct p fs) = elim (Bool-cases (p == pkg)) [
    | inl y ↦ rw y (struct_fields-settable pkg c config_path key_path fs)
    | inr n ↦ rw n tt
  ]
  block_struct-Matches pkg c config_path key_path (pointer (struct p fs)) =
      elim (Bool-cases (p == pkg)) [
        | inl y ↦ rw y (struct_fields-settable pkg c config_path key_path fs)
        | inr n ↦ rw n tt
      ]
  block_struct-Matches pkg c config_path key_path (pointer t) = tt
  block_struct-Matches pkg c config_path key_path t = tt

env_vars-settable_config :
    (pkg : List ℕ) (c : ℕ) (path : List ℕ) (fs : StructFields)
    → env_vars (process_config pkg (c ∷ path) fs)
      ≡ map variable_of (settable_config pkg (c ∷ path) fs)
unfolding process_config settable_config
env_vars-settable_config pkg c path no_fields = refl
env_vars-settable_config pkg c path (struct_field exported tag t fs) =
    elim (Bool-cases (skipped exported tag || is_passthrough t)) [
      | inl y ↦ rw y (env_vars-settable_config pkg c path fs)
      | inr n ↦ rw n (
          documented-env_vars (c ∷ path) tag (block_struct pkg (c ∷ path) tag t)
            (collection_elem pkg t) (settable_below pkg ((c ∷ path) ++ dot ∷ tag) t)
            (process_config pkg (c ∷ path) fs) (settable_config pkg (c ∷ path) fs)
            (block_struct-Matches pkg c path tag t) (collection_elem-IsSilent pkg t)
            (env_vars-settable_config pkg c path fs))
    ]

upper_tag : (tag : List ℕ) → NoDot tag → map to_upper tag ≡ encode tag
unfolding encode
upper_tag [] h = refl
upper_tag (c ∷ tag) (ne, h) = ground (arith, upper_tag tag h)

-- The documented name is the one that is read back as the key.
env_var_name-encode :
    (path tag : List ℕ)
    → NoDot tag
    → env_var_name path tag ≡ env_prefix ++ encode (path ++ dot ∷ tag)
unfolding env_var_name join_segments encode
env_var_name-encode path tag h = ap (λ s. env_prefix ++ s) (go path)
  where
    go :
        (p : List ℕ)
        → map to_upper (join_segments p ++ underscore ∷ underscore ∷ tag) ≡ encode (p ++ dot ∷ tag)
    go [] = ap (λ s. underscore ∷ underscore ∷ s) (upper_tag tag h)
    go (c ∷ p) = elim (Bool-cases (c == dot)) [
      | inl y ↦ rw y (ap (λ s. underscore ∷ underscore ∷ s) (go p))
      | inr n ↦ rw n (ap (λ s. to_upper c ∷ s) (go p))
    ]

variable-key :
    (p : Place)
    → IsPlain (key_of p)
    → NoDot p.1
    → env_key_transform env_prefix (variable_of p) ≡ key_of p
variable-key (path, tag) plain h =
    ap (env_key_transform env_prefix) (env_var_name-encode path tag h)
    ∙ env_key_transform-encode env_prefix (path ++ dot ∷ tag) plain

variables-keys :
    (ps : List Place)
    → ArePlain ps
    → map (λ v. env_key_transform env_prefix v) (map variable_of ps) ≡ map key_of ps
variables-keys [] h = refl
variables-keys (p ∷ ps) ((plain, h), later) =
    ap₂ (λ x l. x ∷ l) (variable-key p plain h) (variables-keys ps later)

-- If the keys of the fields that one key can set are in lower case, no underscore of them stands
-- in front of another or of a dot, and tags have no dots, then the environment variables in the
-- documentation of a module are those of these fields, one for each, in their order, of the
-- module's struct and of the blocks in it, but not of elements of a slice or map; and the loader
-- reads the variables as just these keys.
pub process_config-settable :
    (pkg : List ℕ) (c : ℕ) (path : List ℕ) (fs : StructFields)
    → ArePlain (settable_config pkg (c ∷ path) fs)
    → (env_vars (process_config pkg (c ∷ path) fs)
        ≡ map variable_of (settable_config pkg (c ∷ path) fs))
      × (map (λ v. env_key_transform env_prefix v) (env_vars (process_config pkg (c ∷ path) fs))
          ≡ map key_of (settable_config pkg (c ∷ path) fs))
process_config-settable pkg c path fs h =
    let listed = env_vars-settable_config pkg c path fs in
    (
      listed,
      ap (map (λ v. env_key_transform env_prefix v)) listed
          ∙ variables-keys (settable_config pkg (c ∷ path) fs) h,
    )
