-- ===== src/Runtime/Samples.antt =====
-- Sample modules for the tests of the runtime.
use lakta.Prelude.{ℕ, String, true, false, none, some, List, [], ◌∷◌}
use lakta.Runtime.Module.{Module, returned, panicked}

abbrev pub module_with : String → List ℕ → List ℕ → List ℕ → Module
module_with name provided required optional = record {
  type_name = name;
  instance_name = none;
  provides = some provided;
  dependencies = some (required, optional);
  configurable = none;
  init = returned none;
  provided_koanf = none;
  start = none;
  start_async = none;
  init_time = 5;
  hot_reloadable = false;
  validatable = false;
  provides_notifier = false;
  shutdown = record { outcome = returned none; duration = some 1; picked = true };
}

-- An application on a database and, if there is one, a tracer; both need the configuration.
abbrev pub app : List Module
app =
    module_with "app" (9 ∷ []) (2 ∷ 9 ∷ []) (3 ∷ 7 ∷ [])
    ∷ module_with "db" (2 ∷ []) (1 ∷ []) []
    ∷ module_with "config" (1 ∷ []) [] []
    ∷ module_with "otel" (3 ∷ []) [] (1 ∷ [])
    ∷ module_with "health" (4 ∷ []) [] []
    ∷ []

abbrev pub ring : List Module
ring = module_with "a" (1 ∷ []) (2 ∷ []) [] ∷ module_with "b" (2 ∷ []) [] (1 ∷ []) ∷ []

abbrev pub orphan : List Module
orphan = module_with "a" (1 ∷ []) [] (5 ∷ []) ∷ module_with "b" (2 ∷ []) (1 ∷ 7 ∷ []) [] ∷ []

abbrev pub three : List Module
three =
    module_with "config" [] [] []
    ∷ record (module_with "db" [] [] []) { start_async = some (returned none) }
    ∷ record (module_with "http" [] [] []) { start = some (returned none) }
    ∷ []

-- The middle one never returns from `Shutdown`.
abbrev pub hanging : List Module
hanging =
    module_with "config" [] [] []
    ∷ record (module_with "db" [] [] []) {
      shutdown = record { outcome = returned none; duration = none; picked = true };
    }
    ∷ module_with "http" [] [] []
    ∷ []

abbrev pub failing : List Module
failing =
    module_with "config" [] [] []
    ∷ module_with "db" [] [] []
    ∷ record (module_with "http" [] [] []) { init = panicked "port in use" }
    ∷ module_with "health" [] [] []
    ∷ []

-- The first provides a configuration; the second panics when it loads its own.
abbrev pub bad_config : List Module
bad_config =
    record (module_with "config" [] [] []) { provided_koanf = some (λ path. true) }
    ∷ record (module_with "db" [] [] []) {
      configurable = some (record { config_path = "modules.db"; load_config = panicked "nil map" });
    }
    ∷ []

abbrev pub bad_start : List Module
bad_start =
    record (module_with "http" [] [] []) { start = some (returned (some "bind")) }
    ∷ record (module_with "grpc" [] [] []) { start = some (returned none) }
    ∷ []
