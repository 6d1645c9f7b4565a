-- ===== src/Runtime/Info.antt =====
-- pkg/lakta/introspect.go and `describeModules` of runtime.go: the metadata of each module and the
-- furthest stage that it has reached. The mutex makes each setter one step. The runtime passes a
-- `RuntimeInfo` that is not nil and an order that is not negative.
pub mod States
use lakta.Prelude.{ℕ, zero, suc, String, Option, none, some, List, [], ◌∷◌, map, modify}
use lakta.Runtime.Module.{Module, Meta, Outcome}

pub data LifecycleKind : Type 0 where
  init_only sync async : LifecycleKind

pub data ModuleState : Type 0 where
  pending initialized started stopped failed : ModuleState

unfoldable pub kind_string : LifecycleKind → String
kind_string sync = "sync"
kind_string async = "async"
kind_string init_only = "init"

unfoldable pub state_string : ModuleState → String
state_string initialized = "initialized"
state_string started = "started"
state_string stopped = "stopped"
state_string failed = "failed"
state_string pending = "pending"

pub record ModuleInfo : Type 0 where
  pub name : String
  pub type_name : String
  pub init_order : ℕ
  pub provided : List String
  pub requires : List String
  pub optional : List String
  pub lifecycle : LifecycleKind
  pub state : ModuleState
  pub init_duration : ℕ

abbrev pub RuntimeInfo : Type 0
RuntimeInfo = List ModuleInfo

unfoldable pub set_state : ℕ → ModuleState → RuntimeInfo → RuntimeInfo
set_state order s = modify (λ i. record i { state = s }) order

unfoldable pub set_init_duration : ℕ → ℕ → RuntimeInfo → RuntimeInfo
set_init_duration order d = modify (λ i. record i { init_duration = d }) order

-- A module with both start methods counts as sync.
unfoldable pub kind_of : Option Outcome → Option Outcome → LifecycleKind
kind_of (some o) start_async = sync
kind_of none (some o) = async
kind_of none none = init_only

unfoldable pub lifecycle_of : Module → LifecycleKind
unfolding kind_of
lifecycle_of m = kind_of m.start m.start_async

abbrev name_or_empty : Option String → String
name_or_empty none = ""
name_or_empty (some name) = name

-- `type_string` is `reflect.Type.String`.
module _ (type_string : ℕ → String) where
  unfoldable pub render_types : List ℕ → List String
  render_types ts = map type_string ts

  unfoldable pub describe_modules : ℕ → List (Module × Meta) → RuntimeInfo
  unfolding render_types lifecycle_of
  describe_modules i [] = []
  describe_modules i ((m, meta) ∷ rest) =
      record {
        name = name_or_empty m.instance_name;
        type_name = m.type_name;
        init_order = i;
        provided = render_types meta.provided;
        requires = render_types meta.required;
        optional = render_types meta.optional;
        lifecycle = lifecycle_of m;
        state = pending;
        init_duration = 0;
      }
      ∷ describe_modules (suc i) rest
