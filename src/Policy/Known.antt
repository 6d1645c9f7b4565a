-- ===== src/Policy/Known.antt =====
-- Which executors the registry has (pkg/resilience/policy/module.go, registry.go).
use lakta.Prelude.{ℕ, Option, none, some, List, bytes_keyed}
use lakta.Policy.{PolicyConfig}
use lakta.Policy.Valid.{layers}
use lakta.Policy.Registry.{Executor, of_code, of_config}

module _ {Float : Type 0} where
  abbrev pub or_code : Option (Executor Float) → Option (List ℕ) → Option (Executor Float)
  or_code before none = before
  or_code before (some ps) = some (of_code ps)

  abbrev pub or_config :
      Option (Executor Float) → Option (PolicyConfig Float) → Option (Executor Float)
  or_config before none = before
  or_config before (some pc) = some (of_config (layers pc))
