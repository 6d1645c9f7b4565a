-- ===== src/Reflectcfg/Tests.antt =====
-- The documentation of a small module.
use lakta.Prelude.{ℕ, ◌≡◌, refl, true, false, List, [], ◌∷◌, map, arith}
use lakta.Config.Keys.{env_key_transform}
use lakta.Reflectcfg.{
  opaque, passthrough, pointer, slice, struct, StructFields, no_fields, struct_field, env_prefix,
  env_var_name, process_config,
}
use lakta.Reflectcfg.Settable.{env_vars, key_of, variable_of, settable_config}
use lakta.Reflectcfg.Variables.{process_config-settable}

reflectcfg_program : Unit {0}
unfolding env_var_name process_config settable_config
reflectcfg_program = tt

abbrev pkg : List ℕ
pkg = b'p' ∷ []

-- `m.<n>`
abbrev path : List ℕ
path = b'.' ∷ b'<' ∷ b'n' ∷ b'>' ∷ []

-- Name, port, a block `tls` with the field `ca_file`, a list `hosts` with the field `ip`, and what is
-- passed through.
abbrev config : StructFields
config = struct_field true (b'-' ∷ []) opaque (
    struct_field true (b'p' ∷ b'o' ∷ b'r' ∷ b't' ∷ []) opaque (
      struct_field true (b't' ∷ b'l' ∷ b's' ∷ [])
        (pointer (
          struct pkg (
            struct_field true (b'c' ∷ b'a' ∷ b'_' ∷ b'f' ∷ b'i' ∷ b'l' ∷ b'e' ∷ []) opaque
              no_fields)))
        (struct_field true (b'h' ∷ b'o' ∷ b's' ∷ b't' ∷ b's' ∷ [])
          (slice (struct pkg (struct_field true (b'i' ∷ b'p' ∷ []) opaque no_fields)))
          (struct_field true [] passthrough (struct_field false (b'x' ∷ []) opaque no_fields)))))

-- One for each of `port`, `tls.ca_file` and `hosts`.
variables :
    env_vars (process_config pkg (b'm' ∷ path) config)
    ≡ (b'L' ∷ b'A' ∷ b'K' ∷ b'T' ∷ b'A' ∷ b'_' ∷ b'M' ∷ b'_' ∷ b'_' ∷ b'<' ∷ b'N' ∷ b'>' ∷ b'_'
        ∷ b'_' ∷ b'P' ∷ b'O' ∷ b'R' ∷ b'T' ∷ [])
      ∷ (b'L' ∷ b'A' ∷ b'K' ∷ b'T' ∷ b'A' ∷ b'_' ∷ b'M' ∷ b'_' ∷ b'_' ∷ b'<' ∷ b'N' ∷ b'>' ∷ b'_'
          ∷ b'_' ∷ b'T' ∷ b'L' ∷ b'S' ∷ b'_' ∷ b'_' ∷ b'C' ∷ b'A' ∷ b'_' ∷ b'F' ∷ b'I' ∷ b'L' ∷ b'E'
          ∷ [])
      ∷ (b'L' ∷ b'A' ∷ b'K' ∷ b'T' ∷ b'A' ∷ b'_' ∷ b'M' ∷ b'_' ∷ b'_' ∷ b'<' ∷ b'N' ∷ b'>' ∷ b'_'
          ∷ b'_' ∷ b'H' ∷ b'O' ∷ b'S' ∷ b'T' ∷ b'S' ∷ [])
      ∷ []
unfolding reflectcfg_program
variables = refl

process_config-settable_example :
    (env_vars (process_config pkg (b'm' ∷ path) config)
      ≡ map variable_of (settable_config pkg (b'm' ∷ path) config))
    × (map
          (λ v. env_key_transform env_prefix v)
          (env_vars (process_config pkg (b'm' ∷ path) config))
        ≡ map key_of (settable_config pkg (b'm' ∷ path) config))
unfolding settable_config
process_config-settable_example = process_config-settable pkg b'm' path config (omega arith)
