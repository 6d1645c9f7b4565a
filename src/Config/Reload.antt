-- ===== src/Config/Reload.antt =====
-- `reload`, `OnReload` and `OnValidate` of pkg/config/module.go. koanf and its
-- providers are not part of the repository: `Load` of one layer on top of what a koanf holds is the
-- parameter `load`. The write lock makes a reload one step; callbacks and validators may not call
-- back.
pub mod Atomic
use lakta.Prelude.{
  ℕ, zero, suc, ◌+◌, String, Bool, true, false, Option, none, some, List, [], ◌∷◌, ◌++◌, Result, ok,
  err, ◌>>=◌, if◌then◌else◌,
}

-- A layer of the cascade: a discovered file, the environment under a prefix, the changed flags.
pub data Layer : Type 0 where
  file : String → Layer
  env : String → Layer
  flags : Layer

pub data ReloadError : Type 0 where
  file_failed : String → String → ReloadError
  env_failed : String → ReloadError
  flags_failed : String → ReloadError
  rejected : String → ReloadError

module _ (K : Type 0) where
  -- `OnReload` callbacks: whether the call panics. `OnValidate` validators: an error or nil.
  pub record ConfigModule : Type 0 where
    pub env_prefix : String
    pub config_files : List String
    pub has_flag_set : Bool
    pub koanf : K
    pub on_reload : List (K → Bool)
    pub on_validate : List (K → Option String)

-- A call of a reload callback: its place, and the configuration that it is handed.
pub record Call (K : Type 0) : Type 0 where
  pub callback : ℕ
  pub handed : K
  pub panicked : Bool

module _ {K : Type 0} where
  unfoldable pub validate_all : List (K → Option String) → K → Result ReloadError K
  validate_all [] k = ok k
  validate_all (validate ∷ rest) k = elim (validate k) [
    | some e ↦ err (rejected e)
    | none ↦ validate_all rest k
  ]

  -- `safeCallback` for each callback: a panic ends only its own call.
  unfoldable pub run_callbacks : ℕ → List (K → Bool) → K → List (Call K)
  run_callbacks i [] k = []
  run_callbacks i (fn ∷ fns) k =
      record { callback = i; handed = k; panicked = fn k } ∷ run_callbacks (suc i) fns k

  unfoldable pub commit :
      ConfigModule K → Result ReloadError K → ConfigModule K × Option ReloadError × List (Call K)
  commit m (err e) = (m, some e, [])
  commit m (ok k) = (record m { koanf = k }, none, run_callbacks 0 m.on_reload k)

  -- `OnReload` and `OnValidate`.
  unfoldable pub add_on_reload : (K → Bool) → ConfigModule K → ConfigModule K
  add_on_reload fn m = record m { on_reload = m.on_reload ++ fn ∷ [] }

  unfoldable pub add_on_validate : (K → Option String) → ConfigModule K → ConfigModule K
  add_on_validate fn m = record m { on_validate = m.on_validate ++ fn ∷ [] }

module _ {K : Type 0} (empty : K) (load : Layer → K → Result String K) where
  unfoldable pub load_files : List String → K → Result ReloadError K
  load_files [] k = ok k
  load_files (path ∷ rest) k = elim (load (file path) k) [
    | err e ↦ err (file_failed path e)
    | ok k' ↦ load_files rest k'
  ]

  unfoldable pub load_env : String → K → Result ReloadError K
  load_env prefix k = elim (load (env prefix) k) [ err e ↦ err (env_failed e) | ok k' ↦ ok k' ]

  unfoldable pub load_flags : Bool → K → Result ReloadError K
  load_flags false k = ok k
  load_flags true k = elim (load flags k) [ err e ↦ err (flags_failed e) | ok k' ↦ ok k' ]

  -- The cascade of `reload`: files, then the environment, then the flags.
  unfoldable pub cascade : ConfigModule K → Result ReloadError K
  unfolding load_files load_env load_flags
  cascade m = do
    k₁ ← load_files m.config_files empty
    k₂ ← load_env m.env_prefix k₁
    load_flags m.has_flag_set k₂

  -- The module afterwards, the error that is returned, and the calls of callbacks.
  unfoldable pub reload : ConfigModule K → ConfigModule K × Option ReloadError × List (Call K)
  unfolding commit
  reload m = commit m (cascade m >>= validate_all m.on_validate)
