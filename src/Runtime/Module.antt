-- ===== src/Runtime/Module.antt =====
-- The interfaces of pkg/lakta/module.go, configurable.go and named.go. A module's methods are code
-- outside the runtime, and each is called at most once in a run, so a module is given by which
-- interfaces it implements and by what its calls answer. A `reflect.Type` is a number.
use lakta.Prelude.{ℕ, String, Bool, Option, none, some, List, []}

-- What a call of a module's method does: it returns an error or nil, or it panics.
pub data Outcome : Type 0 where
  returned : Option String → Outcome
  panicked : String → Outcome

-- `Configurable`: the path, and what `LoadConfig` does.
pub record Configurable : Type 0 where
  pub config_path : String
  pub load_config : Outcome

-- `Shutdown`: what it does, after how long (`none`: it never returns), and whether its answer is
-- picked by the `select` when it is ready in the instant of the deadline.
pub record Stopping : Type 0 where
  pub outcome : Outcome
  pub duration : Option ℕ
  pub picked : Bool

pub record Module : Type 0 where
  pub type_name : String
  pub instance_name : Option String
  pub provides : Option (List ℕ)
  pub dependencies : Option (List ℕ × List ℕ)
  pub configurable : Option Configurable
  pub init : Outcome
  -- the paths of the `*koanf.Koanf` that a successful `Init` puts into the injector
  pub provided_koanf : Option (String → Bool)
  pub provides_notifier : Bool
  -- how long `Init` takes
  pub init_time : ℕ
  pub hot_reloadable : Bool
  pub validatable : Bool
  pub start : Option Outcome
  pub start_async : Option Outcome
  pub shutdown : Stopping

-- `moduleMeta`: the declarations of one module, `nil` for an interface that it lacks.
pub record Meta : Type 0 where
  pub provided : List ℕ
  pub required : List ℕ
  pub optional : List ℕ

abbrev pub list_or_nil : Option (List ℕ) → List ℕ
list_or_nil none = []
list_or_nil (some ts) = ts

abbrev pub required_or_nil : Option (List ℕ × List ℕ) → List ℕ
required_or_nil none = []
required_or_nil (some (required, optional)) = required

abbrev pub optional_or_nil : Option (List ℕ × List ℕ) → List ℕ
optional_or_nil none = []
optional_or_nil (some (required, optional)) = optional

abbrev pub meta_of : Module → Meta
meta_of m = record {
  provided = list_or_nil m.provides;
  required = required_or_nil m.dependencies;
  optional = optional_or_nil m.dependencies;
}
