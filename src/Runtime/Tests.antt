-- ===== src/Runtime/Tests.antt =====
-- Runs of the runtime on sample modules, and the theorems about its phases at them.
use lakta.Prelude.{
  ℕ, ◌+◌, ◌≤◌, ◌≡◌, refl, ◌↔◌, String, true, false, none, some, List, [], ◌∷◌, length, map, ok,
}
use lakta.Runtime.Module.{Module, Meta, meta_of, returned}
use lakta.Runtime.Samples.{module_with, three, hanging, failing, bad_config, bad_start}
use lakta.Runtime.Info.{
  started, describe_modules, initialized, stopped, failed, pending, ModuleState, set_state,
  set_init_duration,
}
use lakta.Runtime.Sort.{
  sort_modules, sort_indices, link_modules, link_required, link_optional, link, type_owner, own,
  seed, release, drain, check_complete, pick,
}
use lakta.Runtime.Stop.{
  Run, Error, deadline_exceeded, wrapped, own as own_fault, panic, shutdown_call, init_call,
  load_config, shutdown, shutdown_from, teardown, shutdown_context, default_shutdown_timeout,
}
use lakta.Runtime.Stop.Calls.{Called, shutdown-Called}
use lakta.Runtime.Stop.Bounded.{shutdown_bounded}
use lakta.Runtime.Boot.{
  Injector, booted, failed_boot, crashed_boot, init_modules, init_one, provide,
}
use lakta.Runtime.Boot.Failure.{
  AbortedAt, CrashedAt, init_modules-AbortedAt, init_modules-CrashedAt,
}
use lakta.Runtime.Context.{
  Outside, early, after, enter_late, shutdown_among, Wake, signal, sync_done, sync_failed, ended,
  run_context, run_sorted, after_boot, after_async, run_sync, stop_all, surfaced, record_exits,
  record_exit, no_exit, start_error, has_sync, start_async_from, start_async_one, start_sync_from,
  start_sync_one,
}
use lakta.Runtime.Context.Ends.{surfaced_iff}
use lakta.Runtime.Context.Clean.{CleanEnd, run_context-CleanEnd}

abbrev empty : Injector
empty = record { koanf = none; notifier = false }

abbrev type_name : ℕ → String
type_name t = "T"

abbrev start_of : List Module → Run
start_of ms = record {
  infos = describe_modules type_name 0 (map (λ m. (m, meta_of m)) ms);
  clock = 100;
  log = [];
}

abbrev states : Run → List ModuleState
states r = map (λ i. i.state) r.infos

lifecycle_program : Unit {0}
unfolding describe_modules set_state set_init_duration shutdown shutdown_from teardown init_modules
    init_one provide run_context run_sorted after_boot after_async run_sync enter_late
    shutdown_among stop_all surfaced record_exits record_exit start_error has_sync start_async_from
    start_async_one start_sync_from start_sync_one shutdown_context sort_modules sort_indices
    link_modules link_required link_optional link type_owner own seed release drain check_complete
    pick
lifecycle_program = tt

boot_three :
    (r : Run) × (init_modules 0 [] empty three (start_of three) ≡ booted three empty r)
    × (states r ≡ initialized ∷ initialized ∷ initialized ∷ [])
unfolding lifecycle_program
boot_three = (_, refl, refl)

boot_failing :
    (e : Error) × (r : Run) × (init_modules 0 [] empty failing (start_of failing) ≡ failed_boot e r)
    × (states r ≡ stopped ∷ stopped ∷ failed ∷ pending ∷ [])
    × (e ≡ wrapped "failed initializing module" "http" (panic "port in use"))
    × (r.log ≡ init_call 0 ∷ init_call 1 ∷ init_call 2 ∷ shutdown_call 1 ∷ shutdown_call 0 ∷ [])
unfolding lifecycle_program
boot_failing = (_, _, refl, refl, refl, refl)

init_modules-AbortedAt_example :
    AbortedAt 0 [] failing (start_of failing) boot_failing.0 boot_failing.1
init_modules-AbortedAt_example =
    init_modules-AbortedAt empty failing (start_of failing) boot_failing.0 boot_failing.1
      boot_failing.2

boot_bad_config :
    (r : Run) × (init_modules 0 [] empty bad_config (start_of bad_config)
      ≡ crashed_boot "nil map" r)
    × (r.log ≡ init_call 0 ∷ load_config 1 ∷ [])
unfolding lifecycle_program
boot_bad_config = (_, refl, refl)

init_modules-CrashedAt_example :
    CrashedAt [] bad_config (start_of bad_config) "nil map" boot_bad_config.0
init_modules-CrashedAt_example =
    init_modules-CrashedAt empty bad_config (start_of bad_config) "nil map" boot_bad_config.0
      boot_bad_config.1

stop_hanging :
    ((shutdown 150 hanging (start_of hanging)).0.log ≡ shutdown_call 2 ∷ shutdown_call 1 ∷ [])
    × ((shutdown 150 hanging (start_of hanging)).1
        ≡ some (
            wrapped "failed shutting down module" "db"
              (wrapped "shutdown deadline exceeded" "" deadline_exceeded)))
    × (states (shutdown 150 hanging (start_of hanging)).0 ≡ pending ∷ pending ∷ stopped ∷ [])
unfolding lifecycle_program
stop_hanging = (refl, refl, refl)

shutdown-Called_example :
    Called 150 0 3 (start_of hanging) (shutdown 150 hanging (start_of hanging)).0
shutdown-Called_example = shutdown-Called 150 hanging (start_of hanging)

shutdown_bounded_example :
    (shutdown (shutdown_context 100) hanging (start_of hanging)).0.clock
    ≤ 100 + default_shutdown_timeout
shutdown_bounded_example = shutdown_bounded hanging (start_of hanging)

quiet_three : (shutdown 150 three (start_of three)).1 ≡ none
unfolding lifecycle_program
quiet_three = refl

abbrev last_fails : List Module
last_fails =
    record (module_with "http" [] [] []) {
      shutdown = record { outcome = returned (some "busy"); duration = some 1; picked = true };
    }
    ∷ []

last_error : (e : Error) × ((shutdown_from 150 3 last_fails (start_of hanging, none)).1 ≡ some e)
unfolding lifecycle_program
last_error = (_, refl)

abbrev bind_error : Error
bind_error = own_fault "bind"

bad_start-has_sync : has_sync bad_start ≡ true
unfolding lifecycle_program
bad_start-has_sync = refl

surfaced_iff_example :
    (surfaced
        (has_sync bad_start)
        (sync_done false)
        (record_exits bad_start (0 ∷ 1 ∷ []) no_exit).first_err
      ≡ some (sync_failed bind_error))
    ↔ ((◌≡◌ {A = Wake} (sync_done false) (sync_done false))
        × (start_error bad_start 0 ≡ some bind_error))
surfaced_iff_example =
    surfaced_iff bad_start 0 (1 ∷ []) (sync_done false) bind_error bad_start-has_sync

abbrev outside : Outside
outside = record { entry = λ i. early; exits = 0 ∷ 1 ∷ []; wake = sync_done false; lasted = 500 }

run_bad_start :
    (r : Run) × (run_context type_name outside empty 100 bad_start
      ≡ ended (some (sync_failed bind_error)) r)
unfolding lifecycle_program
run_bad_start = (_, refl)

abbrev told_to_stop : Outside
told_to_stop = record { entry = λ i. early; exits = []; wake = signal; lasted = 500 }

run_three : (r : Run) × (run_context type_name told_to_stop empty 100 three ≡ ended none r)
unfolding lifecycle_program
run_three = (_, refl)

run_context-CleanEnd_example :
    (sorted : List (Module × Meta)) × (sort_modules three ≡ ok sorted)
    × CleanEnd (length sorted) run_three.0
run_context-CleanEnd_example =
    run_context-CleanEnd type_name told_to_stop empty 100 three run_three.0 (λ j. refl) run_three.1

-- The server's goroutine is entered once all modules are shut down: it starts a module that was
-- stopped, although the run returns nil.
abbrev too_late : Outside
too_late = record told_to_stop { entry = λ i. after 3 }

run_late :
    (r : Run) × (run_context type_name too_late empty 100 three ≡ ended none r)
    × (states r ≡ stopped ∷ stopped ∷ started ∷ [])
unfolding lifecycle_program
run_late = (_, refl, refl)
