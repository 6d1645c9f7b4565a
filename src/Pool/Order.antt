-- ===== src/Pool/Order.antt =====
-- No task is lost or doubled, and tasks are taken up in the order in which they were accepted.
use mathlib.Core.Option.{some-injective}
use lakta.Prelude.{
  ℕ, zero, suc, ◌+◌, ◌≡◌, refl, sym, ap, ◌∙◌, Option, some, List, [], ◌∷◌, ◌++◌, append_assoc,
  append-nil, get_elem?, set, count, count-append, nat_eqb, if◌then◌else◌, arith,
}
use lakta.Pool.{
  Worker, idle, draining, exited, running, drain_running, Pool, Event, receiving, idle_workers, new,
  run,
}
use lakta.Pool.Moves.{Preserves, run-keeps}

-- Whether a worker executes a task, and how many do.
abbrev pub executes : ℕ → Worker → ℕ
executes t (running u) = if nat_eqb u t then 1 else 0
executes t (drain_running u) = if nat_eqb u t then 1 else 0
executes t w = 0

abbrev pub executing : ℕ → List Worker → ℕ
executing t [] = 0
executing t (w ∷ ws) = executes t w + executing t ws

executing-set :
    (t j : ℕ) (w w' : Worker) (ws : List Worker)
    → get_elem? ws j ≡ some w
    → executing t (set ws j w') + executes t w ≡ executing t ws + executes t w'
executing-set t j w w' [] h = absurd (cc h)
executing-set t zero w w' (x ∷ ws) h = rw (some_eq) (omega arith)
  where
    some_eq : x ≡ w
    some_eq = cc
executing-set t (suc j) w w' (x ∷ ws) h = omega (arith, executing-set t j w w' ws h)

receiving-executes :
    (t u : ℕ) (w : Worker) (busy : ℕ → Worker)
    → receiving w ≡ some busy
    → (executes t w ≡ 0) × (executes t (busy u) ≡ (if nat_eqb u t then 1 else 0))
unfolding receiving
receiving-executes t u idle busy h =
    (refl, ap (executes t) (sym (ap (λ f. f u) (some-injective _ _ h))))
receiving-executes t u draining busy h =
    (refl, ap (executes t) (sym (ap (λ f. f u) (some-injective _ _ h))))
receiving-executes t u exited busy h = absurd (cc h)
receiving-executes t u (running v) busy h = absurd (cc h)
receiving-executes t u (drain_running v) busy h = absurd (cc h)

pub record IsConserved (p : Pool) : Type 0 where
  pub fifo : p.accepted ≡ p.started ++ p.queue
  pub once : (t : ℕ) → count t p.started ≡ executing t p.workers + count t p.executed

started_more :
    (t u j : ℕ) (w : Worker) (busy : ℕ → Worker) (p : Pool)
    → IsConserved p
    → get_elem? p.workers j ≡ some w
    → receiving w ≡ some busy
    → count t (p.started ++ u ∷ []) ≡ executing t (set p.workers j (busy u)) + count t p.executed
started_more t u j w busy p c at free = omega (
  arith,
  count-append t p.started (u ∷ []),
  executing-set t j w (busy u) p.workers at,
  (receiving-executes t u w busy free).0,
  (receiving-executes t u w busy free).1,
  c.once t,
)

executed_more :
    (t u j : ℕ) (w w' : Worker) (p : Pool)
    → IsConserved p
    → get_elem? p.workers j ≡ some w
    → executes t w ≡ (if nat_eqb u t then 1 else 0)
    → executes t w' ≡ 0
    → count t p.started ≡ executing t (set p.workers j w') + count t (p.executed ++ u ∷ [])
executed_more t u j w w' p c at e e' = omega (
  arith,
  count-append t p.executed (u ∷ []),
  executing-set t j w w' p.workers at,
  e,
  e',
  c.once t,
)

moved :
    (t j : ℕ) (w w' : Worker) (p : Pool)
    → IsConserved p
    → get_elem? p.workers j ≡ some w
    → executes t w ≡ 0
    → executes t w' ≡ 0
    → count t p.started ≡ executing t (set p.workers j w') + count t p.executed
moved t j w w' p c at e e' = omega (arith, executing-set t j w w' p.workers at, e, e', c.once t)

conserved : Preserves IsConserved
conserved = record {
  submitted = λ t p o c. record { fifo = c.fifo; once = c.once };
  turned_away = λ t p c. record { fifo = c.fifo; once = c.once };
  refused_at = λ i t p at c. record { fifo = c.fifo; once = c.once };
  enqueued = λ i t p at room c. record {
    fifo = ap (λ l. l ++ t ∷ []) c.fifo ∙ append_assoc p.started p.queue (t ∷ []);
    once = c.once;
  };
  handed = λ i j t w busy p at worker free none_queued c. record {
    fifo =
        ap (λ l. l ++ t ∷ []) (c.fifo ∙ ap (λ l. p.started ++ l) none_queued ∙ append-nil p.started)
        ∙ sym (ap (λ l. (p.started ++ t ∷ []) ++ l) none_queued ∙ append-nil (p.started ++ t ∷ []));
    once = λ u. started_more u t j w busy p c worker free;
  };
  taken = λ j t q w busy p worker free queued c. record {
    fifo = c.fifo ∙ ap (λ l. p.started ++ l) queued ∙ sym (append_assoc p.started (t ∷ []) q);
    once = λ u. started_more u t j w busy p c worker free;
  };
  finished = λ j t p at c. record {
    fifo = c.fifo;
    once = λ u. executed_more u t j (running t) idle p c at refl refl;
  };
  drain_finished = λ j t p at c. record {
    fifo = c.fifo;
    once = λ u. executed_more u t j (drain_running t) draining p c at refl refl;
  };
  saw_stop =
      λ j p at s c. record { fifo = c.fifo; once = λ u. moved u j idle draining p c at refl refl };
  left = λ j p at q c. record {
    fifo = c.fifo;
    once = λ u. moved u j draining exited p c at refl refl;
  };
  marked = λ p c. record { fifo = c.fifo; once = c.once };
  stop_closed = λ p cl c. record { fifo = c.fifo; once = c.once };
}

none_executing : (t n : ℕ) → executing t (idle_workers n) ≡ 0
none_executing t zero = refl
none_executing t (suc n) = omega (arith, none_executing t n)

new-IsConserved : (n cpu : ℕ) (size : Option ℕ) → IsConserved (new n cpu size)
unfolding new
new-IsConserved zero cpu size = record {
  fifo = refl;
  once = λ t. omega (arith, none_executing t cpu);
}
new-IsConserved (suc n) cpu size = record {
  fifo = refl;
  once = λ t. omega (arith, none_executing t n);
}

-- However submitters, workers and a closing of the pool interleave: the tasks that were accepted are,
-- in the order of their acceptance, those that were taken up and then those still queued; and a
-- task was taken up exactly as often as it was executed or is being executed.
pub run-IsConserved :
    (workers num_cpu : ℕ) (queue_size : Option ℕ) (es : List Event) (p : Pool)
    → run es (new workers num_cpu queue_size) ≡ some p
    → IsConserved p
run-IsConserved workers num_cpu queue_size es p h =
    run-keeps conserved es _ p (new-IsConserved workers num_cpu queue_size) h
