-- ===== src/Runtime/Context.antt =====
-- `RunContext` of pkg/lakta/runtime.go. What the goroutines and the parent context do is given by
-- an `Outside`: when the goroutines of the sync modules are entered, in which order they return, and
-- what wakes the main goroutine. The async goroutines, which are waited for, are taken in the order in
-- which they are started, as are sync goroutines that are entered at the same time.
pub mod Ends
pub mod Clean
use lakta.Prelude.{
  ℕ, zero, suc, ◌+◌, String, Bool, true, false, not, Option, none, some, List, [], ◌∷◌, ◌++◌, map,
  get_elem?, nat_eqb, length, ◌&&◌, ◌||◌, if◌then◌else◌, Result, ok, err,
}
use lakta.Runtime.Module.{Module, Meta, Outcome}
use lakta.Runtime.Sort.{SortError, sort_modules}
use lakta.Runtime.Info.{started, describe_modules}
use lakta.Runtime.Stop.{
  Error, wrapped, start_call, start_async_call, Run, Stop, emit, mark, safe_call, shutdown_context,
  shutdown_one, shutdown,
}
use lakta.Runtime.Boot.{Injector, Boot, booted, failed_boot, crashed_boot, init_modules}

-- The joined errors of a pool.
pub data Failure : Type 0 where
  sort : SortError → Failure
  single : Error → Failure
  async_failed : List Error → Failure
  sync_failed : Error → Failure

-- Which channel the `select` takes: the parent's `Done`, or `syncDone`, at which time the parent is
-- cancelled or not.
pub data Wake : Type 0 where
  signal : Wake
  sync_done : Bool → Wake

-- When the goroutine of a sync module is entered: before the main goroutine wakes, once that many
-- modules of the shutdown are done with, or not before the run returns.
pub data Entrance : Type 0 where
  early never : Entrance
  after : ℕ → Entrance

abbrev pub is_early : Entrance → Bool
is_early early = true
is_early e = false

abbrev pub enters_at : ℕ → Entrance → Bool
enters_at n (after k) = nat_eqb k n
enters_at n e = false

pub record Outside : Type 0 where
  -- by the place of the module
  pub entry : ℕ → Entrance
  -- the places of the sync modules in the order in which `Start` returns
  pub exits : List ℕ
  pub wake : Wake
  -- how long the modules run
  pub lasted : ℕ

-- The callbacks of a `ReloadNotifier`, by the places of their modules.
pub record Hooks : Type 0 where
  pub on_reload : List ℕ
  pub on_validate : List ℕ

unfoldable pub wire_one : ℕ → Module → Hooks → Hooks
wire_one order m h = record {
  on_reload = if m.hot_reloadable then h.on_reload ++ order ∷ [] else h.on_reload;
  on_validate = if m.validatable then h.on_validate ++ order ∷ [] else h.on_validate;
}

unfoldable pub wire_from : ℕ → List Module → Hooks → Hooks
wire_from order [] h = h
wire_from order (m ∷ ms) h = wire_from (suc order) ms (wire_one order m h)

unfoldable pub wire : Injector → List Module → Hooks
unfolding wire_from wire_one
wire i ms =
    let h : Hooks = record { on_reload = []; on_validate = [] } in
    if i.notifier then wire_from 0 ms h else h

abbrev collect : String → Option Error → List Error
collect name none = []
collect name (some e) = wrapped "failed starting module" name e ∷ []

-- Phase 1, for `AsyncModule`s: `Wait` returns when all goroutines have.
unfoldable pub start_async_one : ℕ → String → Option Outcome → Run × List Error → Run × List Error
start_async_one order name none (r, errs) = (r, errs)
start_async_one order name (some o) (r, errs) =
    (emit (start_async_call order) (mark order started r), errs ++ collect name (safe_call o))

unfoldable pub start_async_from : ℕ → List Module → Run × List Error → Run × List Error
start_async_from order [] s = s
start_async_from order (m ∷ ms) s =
    start_async_from (suc order) ms (start_async_one order m.type_name m.start_async s)

-- Phase 2, for every `SyncModule`, also one that was started in phase 1.
unfoldable pub start_sync_one : ℕ → Option Outcome → Run → Run
start_sync_one order none r = r
start_sync_one order (some o) r = emit (start_call order) (mark order started r)

-- The goroutines that are `due` are entered.
unfoldable pub start_sync_from : (due : ℕ → Bool) → ℕ → List Module → Run → Run
start_sync_from due order [] r = r
start_sync_from due order (m ∷ ms) r =
    start_sync_from due (suc order) ms (if due order then start_sync_one order m.start r else r)

unfoldable pub has_sync : List Module → Bool
has_sync [] = false
has_sync (m ∷ ms) = elim m.start [ none ↦ has_sync ms | some o ↦ true ]

-- `firstExit` and `firstErr`: the `sync.Once` has run or not.
pub record FirstExit : Type 0 where
  pub ran : Bool
  pub first_err : Option Error

unfoldable pub record_exit : Option Error → FirstExit → FirstExit
record_exit e f = if f.ran then f else record { ran = true; first_err = e }

-- The error of `Start` of the module at a place.
unfoldable pub start_error : List Module → ℕ → Option Error
start_error ms i = elim (get_elem? ms i) [
  | none ↦ none
  | some m ↦ elim m.start [ none ↦ none | some o ↦ safe_call o ]
]

unfoldable pub record_exits : List Module → List ℕ → FirstExit → FirstExit
record_exits ms [] f = f
record_exits ms (i ∷ is) f = record_exits ms is (record_exit (start_error ms i) f)

abbrev pub no_exit : FirstExit
no_exit = record { ran = false; first_err = none }

-- The error that the end of phase 2 surfaces, if it is a failure.
unfoldable pub surfaced : Bool → Wake → Option Error → Option Failure
surfaced false wake first_err = none
surfaced true signal first_err = none
surfaced true (sync_done cancelled) none = none
surfaced true (sync_done cancelled) (some e) = if not cancelled then some (sync_failed e) else none

pub data RunResult : Type 0 where
  rejected : SortError → RunResult
  ended : Option Failure → Run → RunResult
  crashed : String → Run → RunResult

-- `if shutdownErr := shutdown(...); shutdownErr != nil { return shutdownErr }; return cause`
abbrev pub conclude : Option Failure → Stop → RunResult
conclude cause (r, none) = ended cause r
conclude cause (r, some e) = ended (some (single e)) r

unfoldable pub stop_all : Option Failure → List Module → Run → RunResult
stop_all cause ms r = conclude cause (shutdown (shutdown_context r.clock) ms r)

-- The goroutines that are entered once `n` modules of the shutdown are done with.
unfoldable pub enter_late : Outside → List Module → ℕ → Stop → Stop
unfolding start_sync_from start_sync_one
enter_late out all n (r, e) = (start_sync_from (λ i. enters_at n (out.entry i)) 0 all r, e)

-- `shutdown`, while goroutines of phase 2 may still be entered.
unfoldable pub shutdown_among : Outside → List Module → ℕ → ℕ → List Module → Stop → Stop
unfolding enter_late shutdown_one
shutdown_among out all deadline order [] s = enter_late out all 0 s
shutdown_among out all deadline order (m ∷ ms) s =
    enter_late out all (suc (length ms))
      (shutdown_one deadline order m (shutdown_among out all deadline (suc order) ms s))

-- The run just before its shutdown.
abbrev pub woken : Outside → List Module → Run → Run
woken out ms r =
    let r' = start_sync_from (λ i. is_early (out.entry i)) 0 ms r in
    record r' { clock = r'.clock + out.lasted }

unfoldable pub run_sync : Outside → List Module → Run → RunResult
unfolding shutdown_among
run_sync out ms r =
    conclude (surfaced (has_sync ms) out.wake (record_exits ms out.exits no_exit).first_err)
      (shutdown_among out ms (shutdown_context (woken out ms r).clock) 0 ms (woken out ms r, none))

unfoldable pub after_async : Outside → List Module → Run × List Error → RunResult
after_async out ms (r, []) = run_sync out ms r
after_async out ms (r, e ∷ errs) = stop_all (some (async_failed (e ∷ errs))) ms r

unfoldable pub after_boot : Outside → Boot → RunResult
after_boot out (failed_boot e r) = ended (some (single e)) r
after_boot out (crashed_boot p r) = crashed p r
after_boot out (booted ms i r) = after_async out ms (start_async_from 0 ms (r, []))

-- `injector` is the context's, or a fresh one with nothing in it.
unfoldable pub run_sorted : (ℕ → String) → Outside → Injector → ℕ → List (Module × Meta) → RunResult
run_sorted type_string out injector now sorted = after_boot out (
    init_modules 0 [] injector (map (λ s. s.0) sorted)
      (record { infos = describe_modules type_string 0 sorted; clock = now; log = [] }))

unfoldable pub run_context : (ℕ → String) → Outside → Injector → ℕ → List Module → RunResult
run_context type_string out injector now ms = elim (sort_modules ms) [
  | err e ↦ rejected e
  | ok sorted ↦ run_sorted type_string out injector now sorted
]
