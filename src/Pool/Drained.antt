-- ===== src/Pool/Drained.antt =====
-- A pool that nobody was submitting to when it was closed has executed what it accepted, once its
-- workers have returned; and until then some worker can go on.
use mathlib.Core.Option.{some-injective}
use lakta.Prelude.{
  ℕ, ◌≡◌, ◌<◌, inl, inr, refl, sym, ap, subst, ◌∙◌, true, false, Option, some, List, [], ◌∷◌, ◌++◌,
  append-nil, length, length-set, get_elem?, count, arith, Option-cases,
}
use lakta.Pool.{
  Worker, idle, draining, exited, running, drain_running, Pool, Event, mark_closed, new, all_exited,
  step, run,
}
use lakta.Pool.Moves.{Preserves, run-keeps}
use lakta.Pool.Order.{executing, run-IsConserved}
use lakta.Pool.Opening.{
  any_exited, any_exited-set, receiving-open, IsOpening, opening, none_exited, new-IsOpening,
}

-- Once it is closed with no submitter behind the check, a worker leaves only an empty queue behind.
pub record IsDraining (p : Pool) : Type 0 where
  pub is_closed : p.closed ≡ true
  pub none_waiting : p.waiting ≡ []
  pub emptied : any_exited p.workers ≡ true → p.queue ≡ []
  pub some_worker : 0 < length p.workers

no_submitter : {B : Type 0} (i t : ℕ) (ws : List ℕ) → ws ≡ [] → get_elem? ws i ≡ some t → B
no_submitter i t [] e h = absurd (cc h)
no_submitter i t (w ∷ ws) e h = absurd (cc e)

IsDraining-kept : Preserves IsDraining
IsDraining-kept = record {
  submitted = λ t p o c. absurd (cc (sym o ∙ c.is_closed));
  turned_away = λ t p c. record {
    is_closed = c.is_closed;
    none_waiting = c.none_waiting;
    emptied = c.emptied;
    some_worker = c.some_worker;
  };
  refused_at = λ i t p at c. no_submitter i t p.waiting c.none_waiting at;
  enqueued = λ i t p at room c. no_submitter i t p.waiting c.none_waiting at;
  handed = λ i j t w busy p at worker free q c. no_submitter i t p.waiting c.none_waiting at;
  taken = λ j t q w busy p worker free queued c. record {
    is_closed = c.is_closed;
    none_waiting = c.none_waiting;
    emptied = λ x. absurd (
        cc (
          sym queued
          ∙ c.emptied (any_exited-set p.workers j (busy t) (receiving-open w busy t free).0 x)));
    some_worker = omega (arith, length-set p.workers j (busy t), c.some_worker);
  };
  finished = λ j t p at c. record {
    is_closed = c.is_closed;
    none_waiting = c.none_waiting;
    emptied = λ x. c.emptied (any_exited-set p.workers j idle refl x);
    some_worker = omega (arith, length-set p.workers j idle, c.some_worker);
  };
  drain_finished = λ j t p at c. record {
    is_closed = c.is_closed;
    none_waiting = c.none_waiting;
    emptied = λ x. c.emptied (any_exited-set p.workers j draining refl x);
    some_worker = omega (arith, length-set p.workers j draining, c.some_worker);
  };
  saw_stop = λ j p at s c. record {
    is_closed = c.is_closed;
    none_waiting = c.none_waiting;
    emptied = λ x. c.emptied (any_exited-set p.workers j draining refl x);
    some_worker = omega (arith, length-set p.workers j draining, c.some_worker);
  };
  left = λ j p at q c. record {
    is_closed = c.is_closed;
    none_waiting = c.none_waiting;
    emptied = λ x. q;
    some_worker = omega (arith, length-set p.workers j exited, c.some_worker);
  };
  marked = λ p c. record {
    is_closed = refl;
    none_waiting = c.none_waiting;
    emptied = c.emptied;
    some_worker = c.some_worker;
  };
  stop_closed = λ p cl c. record {
    is_closed = c.is_closed;
    none_waiting = c.none_waiting;
    emptied = c.emptied;
    some_worker = c.some_worker;
  };
}

all_exited-any : (ws : List Worker) → 0 < length ws → all_exited ws ≡ true → any_exited ws ≡ true
unfolding all_exited
all_exited-any [] l h = absurd (omega arith)
all_exited-any (exited ∷ ws) l h = refl
all_exited-any (idle ∷ ws) l h = absurd (cc h)
all_exited-any (draining ∷ ws) l h = absurd (cc h)
all_exited-any (running t ∷ ws) l h = absurd (cc h)
all_exited-any (drain_running t ∷ ws) l h = absurd (cc h)

all_exited-executing : (t : ℕ) (ws : List Worker) → all_exited ws ≡ true → executing t ws ≡ 0
unfolding all_exited
all_exited-executing t [] h = refl
all_exited-executing t (exited ∷ ws) h = omega (arith, all_exited-executing t ws h)
all_exited-executing t (idle ∷ ws) h = absurd (cc h)
all_exited-executing t (draining ∷ ws) h = absurd (cc h)
all_exited-executing t (running u ∷ ws) h = absurd (cc h)
all_exited-executing t (drain_running u ∷ ws) h = absurd (cc h)

mark-IsDraining :
    (p : Pool)
    → IsOpening p
    → p.closed ≡ false
    → p.waiting ≡ []
    → IsDraining (record p { closed = true })
mark-IsDraining p c op none_left = record {
  is_closed = refl;
  none_waiting = none_left;
  emptied = λ x. absurd (cc (sym x ∙ none_exited p.workers (c.at_work op)));
  some_worker = c.some_worker;
}

run-append :
    (es fs : List Event) (p m p' : Pool)
    → run es p ≡ some m
    → run fs m ≡ some p'
    → run (es ++ fs) p ≡ some p'
unfolding run
run-append [] fs p m p' h k = subst (λ q. run fs q ≡ some p') (sym (some-injective _ _ h)) k
run-append (e ∷ es) fs p m p' h k = elim (Option-cases (step e p)) [
  | inl s ↦ absurd (cc (rw (s, run) at h))
  | inr (n, s) ↦ rw (s, run) (run-append es fs n m p' (rw (s, run) at h) k)
]

-- If no submitter stands between its check and its select when the pool is marked as closed, then
-- once all workers have returned, which is when `Close` returns nil, the queue is empty and every
-- task was executed as often as it was accepted, whatever happened in between.
pub close_drains :
    (workers num_cpu : ℕ) (queue_size : Option ℕ) (before after : List Event) (p p' : Pool)
    → 0 < num_cpu
    → run before (new workers num_cpu queue_size) ≡ some p
    → p.closed ≡ false
    → p.waiting ≡ []
    → run (mark_closed ∷ after) p ≡ some p'
    → all_exited p'.workers ≡ true
    → (p'.queue ≡ []) × ((t : ℕ) → count t p'.executed ≡ count t p'.accepted)
unfolding run step
close_drains workers num_cpu queue_size before after p p' pos first op none_left second done =
    let start = run-keeps opening before _ p (new-IsOpening workers num_cpu queue_size pos) first in
    let ended =
      run-keeps IsDraining-kept after _ p' (mark-IsDraining p start op none_left) second in
    let empty = ended.emptied (all_exited-any p'.workers ended.some_worker done) in
    let kept =
      run-IsConserved workers num_cpu queue_size (before ++ mark_closed ∷ after) p'
        (run-append before (mark_closed ∷ after) _ p p' first second) in
    let all_started = kept.fifo ∙ ap (λ l. p'.started ++ l) empty ∙ append-nil p'.started in
    (
      empty,
      λ t.
          omega
            (arith, ap (count t) all_started, kept.once t, all_exited-executing t p'.workers done),
    )
