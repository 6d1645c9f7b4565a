-- ===== src/Pool/Stranded.antt =====
-- The window between the check of `closed` and the select in `enqueue`.
use mathlib.Core.Option.{some-injective}
use lakta.Prelude.{
  ℕ, zero, suc, ◌≡◌, ◌<◌, refl, sym, true, some, List, [], ◌∷◌, ◌++◌, length, get_elem?, ltb, arith,
}
use lakta.Pool.{
  Worker, idle, draining, exited, running, drain_running, Pool, Event, enqueue, remove_at,
  enqueue_at, receiving, all_exited, step, run,
}
use lakta.Pool.Moves.{Preserves, run-keeps}

all_exited-get_elem? :
    (ws : List Worker) (j : ℕ) (w : Worker)
    → all_exited ws ≡ true
    → get_elem? ws j ≡ some w
    → w ≡ exited
unfolding all_exited
all_exited-get_elem? [] j w a h = absurd (cc h)
all_exited-get_elem? (exited ∷ ws) zero w a h = sym (some-injective _ _ h)
all_exited-get_elem? (exited ∷ ws) (suc j) w a h = all_exited-get_elem? ws j w a h
all_exited-get_elem? (idle ∷ ws) j w a h = absurd (cc a)
all_exited-get_elem? (draining ∷ ws) j w a h = absurd (cc a)
all_exited-get_elem? (running t ∷ ws) j w a h = absurd (cc a)
all_exited-get_elem? (drain_running t ∷ ws) j w a h = absurd (cc a)

exited_only :
    {B : Type 0} (ws : List Worker) (j : ℕ) (w : Worker)
    → all_exited ws ≡ true
    → get_elem? ws j ≡ some w
    → (w ≡ exited → B)
    → B
exited_only ws j w a at f = f (all_exited-get_elem? ws j w a at)

receiving-exited :
    {B : Type 0} (w : Worker) (busy : ℕ → Worker) → receiving w ≡ some busy → w ≡ exited → B
unfolding receiving
receiving-exited idle busy h e = absurd (cc e)
receiving-exited draining busy h e = absurd (cc e)
receiving-exited exited busy h e = absurd (cc h)
receiving-exited (running t) busy h e = absurd (cc e)
receiving-exited (drain_running t) busy h e = absurd (cc e)

lt→ltb : (a b : ℕ) → a < b → ltb a b ≡ true
lt→ltb a b l = ground arith

record IsOver (done : List ℕ) (p : Pool) : Type 0 where
  out : all_exited p.workers ≡ true
  same : p.executed ≡ done

over : (done : List ℕ) → Preserves (IsOver done)
over done = record {
  submitted = λ t p o c. record { out = c.out; same = c.same };
  turned_away = λ t p c. record { out = c.out; same = c.same };
  refused_at = λ i t p at c. record { out = c.out; same = c.same };
  enqueued = λ i t p at room c. record { out = c.out; same = c.same };
  handed = λ i j t w busy p at worker free q c.
      exited_only p.workers j w c.out worker (receiving-exited w busy free);
  taken = λ j t q w busy p worker free queued c.
      exited_only p.workers j w c.out worker (receiving-exited w busy free);
  finished = λ j t p at c. exited_only p.workers j (running t) c.out at (λ e. absurd (cc e));
  drain_finished =
      λ j t p at c. exited_only p.workers j (drain_running t) c.out at (λ e. absurd (cc e));
  saw_stop = λ j p at s c. exited_only p.workers j idle c.out at (λ e. absurd (cc e));
  left = λ j p at q c. exited_only p.workers j draining c.out at (λ e. absurd (cc e));
  marked = λ p c. record { out = c.out; same = c.same };
  stop_closed = λ p cl c. record { out = c.out; same = c.same };
}

-- If a submitter passed the check before the pool was closed, and its select comes after all workers
-- have returned, then on a buffered queue with room the submission can be accepted; and then the
-- task is not executed, whatever happens later.
pub enqueue_stranded :
    (i t : ℕ) (p : Pool)
    → all_exited p.workers ≡ true
    → get_elem? p.waiting i ≡ some t
    → length p.queue < p.capacity
    → (m : Pool) × (step (enqueue i) p ≡ some m)
      × (m.accepted ≡ p.accepted ++ t ∷ [])
      × ((es : List Event) (p' : Pool) → run es m ≡ some p' → p'.executed ≡ p.executed)
unfolding step enqueue_at
enqueue_stranded i t p out at room =
    let m = record p {
      waiting = remove_at p.waiting i;
      queue = p.queue ++ t ∷ [];
      accepted = p.accepted ++ t ∷ [];
    } in
    (
      m,
      rw (at, enqueue_at) (rw (lt→ltb (length p.queue) p.capacity room) refl),
      refl,
      λ es p' h. (run-keeps (over p.executed) es m p' (record { out = out; same = refl }) h).same,
    )
