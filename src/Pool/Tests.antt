-- ===== src/Pool/Tests.antt =====
-- The pool on small runs.
use lakta.Prelude.{
  ℕ, ◌+◌, ◌*◌, ◌≡◌, ◌≢◌, ◌≤◌, refl, true, false, none, some, List, [], ◌∷◌, length, count, arith,
}
use lakta.Pool.{
  idle, running, exited, Pool, Event, submit, enqueue, take, finish, see_stop, exit, mark_closed,
  close_stop, new, submit_task, refuse, enqueue_at, receiving, hand_to, take_from, finish_as,
  stop_as, exit_as, step, run, all_exited,
}
use lakta.Pool.Order.{IsConserved, run-IsConserved}
use lakta.Pool.Drained.{close_drains}
use lakta.Pool.Progress.{IsWork, AllWork, drain_ends}
use lakta.Pool.Stranded.{enqueue_stranded}

pool_program : Unit {0}
unfolding new submit_task refuse enqueue_at receiving hand_to take_from finish_as stop_as exit_as
    step run all_exited
pool_program = tt

-- Two tasks, one worker.
abbrev before : List Event
before = submit 7 ∷ submit 8 ∷ enqueue 1 ∷ take 0 ∷ enqueue 0 ∷ []

abbrev after : List Event
after = close_stop ∷ finish 0 ∷ see_stop 0 ∷ take 0 ∷ finish 0 ∷ exit 0 ∷ []

abbrev start : Pool
start = record {
  capacity = 2;
  queue = [];
  closed = false;
  stop = false;
  workers = idle ∷ [];
  waiting = [];
  accepted = [];
  refused = [];
  started = [];
  executed = [];
}

abbrev at_close : Pool
at_close = record start {
  queue = 8 ∷ [];
  workers = running 7 ∷ [];
  accepted = 7 ∷ 8 ∷ [];
  started = 7 ∷ [];
}

abbrev at_end : Pool
at_end = record at_close {
  closed = true;
  stop = true;
  queue = [];
  workers = exited ∷ [];
  started = 7 ∷ 8 ∷ [];
  executed = 7 ∷ 8 ∷ [];
}

new-start : new 0 1 (some 2) ≡ start
unfolding new
new-start = refl

reached : run before (new 0 1 (some 2)) ≡ some at_close
unfolding pool_program
reached = refl

ended : run (mark_closed ∷ after) at_close ≡ some at_end
unfolding pool_program
ended = refl

all_out : all_exited (exited ∷ []) ≡ true
unfolding pool_program
all_out = refl

run-IsConserved_example : IsConserved at_close
run-IsConserved_example = run-IsConserved 0 1 (some 2) before at_close reached

close_drains_example :
    (at_end.queue ≡ []) × ((t : ℕ) → count t at_end.executed ≡ count t at_end.accepted)
close_drains_example =
    close_drains 0 1 (some 2) before after at_close at_end (omega arith) reached refl refl ended
      all_out

abbrev stopping : Pool
stopping = record at_close { closed = true; stop = true }

drain_ends_example :
    ((es : List Event) (p' : Pool)
      → AllWork es
      → run es stopping ≡ some p'
      → length es ≤ 3 * length stopping.queue + 3 * length stopping.workers)
    × (all_exited stopping.workers ≡ false → (e : Event) × IsWork e × (step e stopping ≢ none))
drain_ends_example = drain_ends stopping refl

-- The submitter of task 7 is overtaken by a closing.
abbrev overtaken : Pool
overtaken = record start { closed = true; stop = true; workers = exited ∷ []; waiting = 7 ∷ [] }

overtaken_reached :
    run (submit 7 ∷ mark_closed ∷ close_stop ∷ see_stop 0 ∷ exit 0 ∷ []) (new 0 1 (some 2))
    ≡ some overtaken
unfolding pool_program
overtaken_reached = refl

enqueue_stranded_example :
    (m : Pool) × (step (enqueue 0) overtaken ≡ some m)
    × (m.accepted ≡ 7 ∷ [])
    × ((es : List Event) (p' : Pool) → run es m ≡ some p' → p'.executed ≡ [])
enqueue_stranded_example = enqueue_stranded 0 7 overtaken all_out refl (omega arith)
