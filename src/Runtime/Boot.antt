-- ===== src/Runtime/Boot.antt =====
-- `initModules` of pkg/lakta/runtime.go. The injector is what the runtime asks of it: the paths of
-- the `*koanf.Koanf`, if one is provided, and whether a `ReloadNotifier` is.
pub mod Success
pub mod Failure
use lakta.Prelude.{
  ℕ, suc, ◌+◌, String, Bool, Option, none, some, List, [], ◌∷◌, ◌++◌, ◌||◌, if◌then◌else◌,
}
use lakta.Runtime.Module.{Module, Configurable, Outcome, returned, panicked}
use lakta.Runtime.Info.{initialized, failed, set_init_duration}
use lakta.Runtime.Stop.{
  Error, own, wrapped, Event, load_config, init_call, Run, emit, mark, safe_call, teardown,
}

pub record Injector : Type 0 where
  pub koanf : Option (String → Bool)
  pub notifier : Bool

abbrev or_else : Option (String → Bool) → Option (String → Bool) → Option (String → Bool)
or_else none other = other
or_else (some k) other = some k

-- What the module's `Init` puts into the injector. A second provider of a type panics inside
-- `Init`, so an `Init` that succeeds provides what is not there yet.
unfoldable pub provide : Module → Injector → Injector
provide m i = record {
  koanf = or_else i.koanf m.provided_koanf;
  notifier = i.notifier || m.provides_notifier;
}

abbrev load_if : Configurable → (String → Bool) → Option Outcome
load_if c exists = if exists c.config_path then some c.load_config else none

-- The `LoadConfig` call, if it is made.
unfoldable pub load_call : Injector → Option Configurable → Option Outcome
load_call i none = none
load_call i (some c) = elim i.koanf [ none ↦ none | some exists ↦ load_if c exists ]

pub data Attempt : Type 0 where
  done : Run → Attempt
  gave_up : Error → Run → Attempt
  crash : String → Run → Attempt

-- An error at module `order`: it is recorded, and the modules initialized before are torn down.
unfoldable pub abandon : ℕ → String → String → List Module → Error → Run → Attempt
abandon order message name before e r =
    gave_up (wrapped message name e) (teardown before (mark order failed r))

-- `LoadConfig` is called outside `safeCall`: its panic is not recovered.
unfoldable pub load : ℕ → String → List Module → Option Outcome → Run → Attempt
unfolding abandon
load order name before none r = done r
load order name before (some (returned none)) r = done (emit (load_config order) r)
load order name before (some (returned (some e))) r =
    abandon order "failed loading config for module" name before (own e)
      (emit (load_config order) r)
load order name before (some (panicked p)) r = crash p (emit (load_config order) r)

unfoldable pub after_init : ℕ → Module → List Module → Option Error → Run → Attempt
unfolding abandon
after_init order m before (some e) r =
    abandon order "failed initializing module" m.type_name before e r
after_init order m before none r =
    done (mark order initialized (record r { infos = set_init_duration order m.init_time r.infos }))

unfoldable pub then_init : ℕ → Module → List Module → Attempt → Attempt
unfolding after_init
then_init order m before (done r) =
    after_init order m before (safe_call m.init)
      (record (emit (init_call order) r) { clock = r.clock + m.init_time })
then_init order m before (gave_up e r) = gave_up e r
then_init order m before (crash p r) = crash p r

-- One round of the loop.
unfoldable pub init_one : ℕ → List Module → Injector → Module → Run → Attempt
unfolding load_call load then_init safe_call
init_one order before i m r =
    then_init order m before (load order m.type_name before (load_call i m.configurable) r)

pub data Boot : Type 0 where
  booted : List Module → Injector → Run → Boot
  failed_boot : Error → Run → Boot
  crashed_boot : String → Run → Boot

unfoldable pub init_modules : ℕ → List Module → Injector → List Module → Run → Boot
init_modules order before i [] r = booted before i r
init_modules order before i (m ∷ ms) r = elim (init_one order before i m r) [
  | done r' ↦ init_modules (suc order) (before ++ m ∷ []) (provide m i) ms r'
  | gave_up e r' ↦ failed_boot e r'
  | crash p r' ↦ crashed_boot p r'
]
