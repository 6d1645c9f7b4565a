-- ===== src/Runtime/Context/Ends.antt =====
-- How a run ends.
use lakta.Prelude.{
  Bool, false, if◌then◌else◌, ℕ, suc, ◌≡◌, refl, ap, ◌↔◌, ◌∙◌, String, true, false, Option, none,
  some, List, [], ◌∷◌, arith, length,
}
use lakta.Runtime.Module.{Module, Outcome}
use lakta.Runtime.Info.{started}
use lakta.Runtime.Info.States.{length-set_state}
use lakta.Runtime.Stop.{Run, Stop, Error, shutdown_one, shutdown_from, shutdown, shutdown_context}
use lakta.Runtime.Boot.{Injector, booted}
use lakta.Runtime.Context.{
  Outside, early, is_early, enters_at, enter_late, shutdown_among, woken, conclude, Wake, signal,
  sync_done, Failure, sync_failed, FirstExit, record_exit, record_exits, start_error,
  start_async_one, start_async_from, start_sync_one, start_sync_from, has_sync, surfaced, no_exit,
  async_failed, RunResult, stop_all, run_sync, after_async, after_boot,
}

record_exit-ran : (e : Option Error) (f : FirstExit) → f.ran ≡ true → record_exit e f ≡ f
unfolding record_exit
record_exit-ran e f h = rw h

record_exits-ran :
    (ms : List Module) (is : List ℕ) (f : FirstExit) → f.ran ≡ true → record_exits ms is f ≡ f
unfolding record_exits
record_exits-ran ms [] f h = refl
record_exits-ran ms (i ∷ is) f h =
    rw (record_exit-ran (start_error ms i) f h) (record_exits-ran ms is f h)

record_exits-first :
    (ms : List Module) (i : ℕ) (is : List ℕ)
    → (record_exits ms (i ∷ is) no_exit).first_err ≡ start_error ms i
unfolding record_exits record_exit
record_exits-first ms i is =
    ap (λ (f : FirstExit). f.first_err)
      (record_exits-ran ms is (record { ran = true; first_err = start_error ms i }) refl)

-- With sync modules running, a failure is surfaced exactly if the run was woken by their end, with
-- the parent context not cancelled, and the module that returned first returned an error; and then
-- it is that error, whatever the modules that returned later say.
pub surfaced_iff :
    (ms : List Module) (i : ℕ) (is : List ℕ) (wake : Wake) (e : Error)
    → has_sync ms ≡ true
    → (surfaced (has_sync ms) wake (record_exits ms (i ∷ is) no_exit).first_err
        ≡ some (sync_failed e))
      ↔ ((wake ≡ sync_done false) × (start_error ms i ≡ some e))
unfolding surfaced
surfaced_iff ms i is signal e h = (λ p. absurd (cc), λ (q, _). absurd (cc))
surfaced_iff ms i is (sync_done cancelled) e h = (
  λ p. ground (arith, record_exits-first ms i is),
  λ (q, s). ground (arith, record_exits-first ms i is),
)

-- What a run that passed its boot does at its end: all modules are shut down under a fresh
-- deadline, and the error of the shutdown comes before the cause of the end.
pub record ShutDown (ms : List Module) (start : Run) (result : RunResult) : Type 0 where
  pub cause : Option Failure
  pub mid : Run
  pub long : length mid.infos ≡ length start.infos
  pub stops : result ≡ stop_all cause ms mid

length-start_async_one :
    (order : ℕ) (name : String) (o : Option Outcome) (s : Run × List Error)
    → length (start_async_one order name o s).0.infos ≡ length s.0.infos
unfolding start_async_one
length-start_async_one order name none (r, errs) = refl
length-start_async_one order name (some o) (r, errs) = length-set_state order started r.infos

length-start_sync_one :
    (order : ℕ) (o : Option Outcome) (r : Run)
    → length (start_sync_one order o r).infos ≡ length r.infos
unfolding start_sync_one
length-start_sync_one order none r = refl
length-start_sync_one order (some o) r = length-set_state order started r.infos

length-start_async_from :
    (order : ℕ) (ms : List Module) (s : Run × List Error)
    → length (start_async_from order ms s).0.infos ≡ length s.0.infos
unfolding start_async_from
length-start_async_from order [] s = refl
length-start_async_from order (m ∷ ms) s =
    length-start_async_from (suc order) ms (start_async_one order m.type_name m.start_async s)
    ∙ length-start_async_one order m.type_name m.start_async s

length-start_sync_from :
    (due : ℕ → Bool) (order : ℕ) (ms : List Module) (r : Run)
    → length (start_sync_from due order ms r).infos ≡ length r.infos
unfolding start_sync_from
length-start_sync_from due order [] r = refl
length-start_sync_from due order (m ∷ ms) r =
    length-start_sync_from due (suc order) ms _ ∙ one (due order)
  where
    one :
        (b : Bool) → length (if b then start_sync_one order m.start r else r).infos ≡ length r.infos
    one true = length-start_sync_one order m.start r
    one false = refl

start_sync_from-none :
    (due : ℕ → Bool) (order : ℕ) (ms : List Module) (r : Run)
    → ((i : ℕ) → due i ≡ false)
    → start_sync_from due order ms r ≡ r
unfolding start_sync_from
start_sync_from-none due order [] r h = refl
start_sync_from-none due order (m ∷ ms) r h =
    rw (h order) (start_sync_from-none due (suc order) ms r h)

module _ (out : Outside) (entered : (i : ℕ) → out.entry i ≡ early) where
  enter_late-none : (ms : List Module) (n : ℕ) (s : Stop) → enter_late out ms n s ≡ s
  unfolding enter_late
  enter_late-none ms n (r, e) =
      ap (λ (x : Run). (x, e))
        (start_sync_from-none (λ i. enters_at n (out.entry i)) 0 ms r
          (λ i. ap (enters_at n) (entered i)))

  shutdown_among-early :
      (all : List Module) (deadline order : ℕ) (ms : List Module) (s : Stop)
      → shutdown_among out all deadline order ms s ≡ shutdown_from deadline order ms s
  unfolding shutdown_among shutdown_from
  shutdown_among-early all deadline order [] s = enter_late-none all 0 s
  shutdown_among-early all deadline order (m ∷ ms) s =
      enter_late-none all (suc (length ms)) _
      ∙ ap (shutdown_one deadline order m) (shutdown_among-early all deadline (suc order) ms s)

  after_async-ShutDown :
      (ms : List Module) (s : Run × List Error) → ShutDown ms s.0 (after_async out ms s)
  unfolding after_async run_sync stop_all shutdown
  after_async-ShutDown ms (r, []) = record {
    cause = surfaced (has_sync ms) out.wake (record_exits ms out.exits no_exit).first_err;
    mid = woken out ms r;
    long = length-start_sync_from (λ i. is_early (out.entry i)) 0 ms r;
    stops =
        ap
          (conclude (surfaced (has_sync ms) out.wake (record_exits ms out.exits no_exit).first_err))
          (shutdown_among-early ms (shutdown_context (woken out ms r).clock) 0 ms
            (woken out ms r, none));
  }
  after_async-ShutDown ms (r, e ∷ errs) = record {
    cause = some (async_failed (e ∷ errs));
    mid = r;
    long = refl;
    stops = refl;
  }

  -- Once every module is initialized, a run whose sync goroutines are entered before it wakes ends
  -- by a shutdown of all modules.
  pub after_boot-ShutDown :
      (ms : List Module) (i : Injector) (r : Run) → ShutDown ms r (after_boot out (booted ms i r))
  unfolding after_boot
  after_boot-ShutDown ms i r =
      let s = start_async_from 0 ms (r, []) in
      let d = after_async-ShutDown ms s in
      record {
        cause = d.cause;
        mid = d.mid;
        long = d.long ∙ length-start_async_from 0 ms (r, []);
        stops = d.stops;
      }
