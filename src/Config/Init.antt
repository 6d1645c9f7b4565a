-- ===== src/Config/Init.antt =====
-- `Init`, `loadEnvVars` and `loadCLIFlags` of pkg/config/module.go, and `loadConfigFiles` of
-- loader.go. pflag's `Parse`, with the flags that the loaded keys define, is the parameter `parse`:
-- it yields the arguments that are left in `Args()`. koanf's `Set` is `set_key`. A module whose
-- `Init` returns an error is not used further.
pub mod Replay
use lakta.Prelude.{
  ℕ, String, Bool, true, false, Option, none, some, List, [], ◌∷◌, Result, ok, err, ◌>>=◌,
}
use lakta.Config.Reload.{Layer, ReloadError, ConfigModule, load_files, load_env, load_flags}
use lakta.Config.Keys.{parse_flag}

pub data InitError : Type 0 where
  loading : ReloadError → InitError
  parse_failed : String → InitError
  set_failed : List ℕ → String → InitError

-- A wrapped error of the loads that `Init` shares with `reload`.
abbrev pub loaded : {A : Type 0} → Result ReloadError A → Result InitError A
loaded (ok x) = ok x
loaded (err e) = err (loading e)

module _ {K : Type 0} (empty : K) (load : Layer → K → Result String K)
    (parse : K → List (List ℕ) → Result String (List (List ℕ)))
    (set_key : List ℕ → List ℕ → K → Result String K) where
  unfoldable pub set_flag : Option (List ℕ × List ℕ) → K → Result InitError K
  set_flag none k = ok k
  set_flag (some (key, v)) k = elim (set_key key v k) [
    | err e ↦ err (set_failed key e)
    | ok k' ↦ ok k'
  ]

  unfoldable pub set_flags : List (List ℕ) → K → Result InitError K
  unfolding set_flag
  set_flags [] k = ok k
  set_flags (arg ∷ args) k = set_flag (parse_flag arg) k >>= set_flags args

  unfoldable pub parse_args : K → List (List ℕ) → Result InitError (List (List ℕ))
  parse_args k args = elim (parse k args) [ err e ↦ err (parse_failed e) | ok rest ↦ ok rest ]

  -- Whether there is a flag set now, and the configuration. `none` is `Args == nil`.
  unfoldable pub load_cli_flags : Option (List (List ℕ)) → K → Result InitError (Bool × K)
  unfolding parse_args set_flags
  load_cli_flags none k = ok (false, k)
  load_cli_flags (some args) k = do
    rest ← parse_args k args
    k₁ ← loaded (load_flags empty load true k)
    k₂ ← set_flags rest k₁
    ok (true, k₂)

  -- `discovered` are the files that discoverConfigFiles finds.
  unfoldable pub init :
      Option (List (List ℕ)) → List String → ConfigModule K → Result InitError (ConfigModule K)
  unfolding load_cli_flags
  init args discovered m = do
    k₁ ← loaded (load_files empty load discovered m.koanf)
    k₂ ← loaded (load_env empty load m.env_prefix k₁)
    (has_flag_set, k₃) ← load_cli_flags args k₂
    ok (record m { config_files = discovered; has_flag_set = has_flag_set; koanf = k₃ })
