-- ===== src/Pool/Progress.antt =====
-- The draining ends: workers can go on until they have returned, and only so often.
use mathlib.Core.Option.{some-injective}
use lakta.Prelude.{
  ℕ, zero, suc, ◌+◌, ◌*◌, ◌≡◌, ◌≢◌, ◌<◌, ◌≤◌, refl, sym, ap, subst, ◌∙◌, Bool, true, false, Option,
  none, some, List, [], ◌∷◌, length, get_elem?, set, if◌then◌else◌, arith, inl, inr, Option-cases,
}
use lakta.Pool.{
  Worker, idle, draining, exited, running, drain_running, Pool, Event, submit, enqueue, stopped,
  cancelled, hand_over, mark_closed, close_stop, finish, see_stop, take, exit, receiving,
  all_exited, finish_as, stop_as, exit_as, take_from, on_worker, step, run,
}
use lakta.Pool.Moves.{guard_passed, on_worker-keeps, on_receiver-keeps}
use lakta.Pool.Opening.{is_exited}

-- A step of a worker that needs no submitter.
abbrev pub IsWork : Event → Type 0
IsWork (take i) = Unit {0}
IsWork (finish i) = Unit {0}
IsWork (see_stop i) = Unit {0}
IsWork (exit i) = Unit {0}
IsWork e = ⊥

abbrev pub AllWork : List Event → Type 0
AllWork [] = Unit {0}
AllWork (e ∷ es) = IsWork e × AllWork es

-- How many steps are left at most: three for each queued task, and those to a worker's return.
abbrev pub steps_left : Worker → ℕ
steps_left idle = 2
steps_left draining = 1
steps_left exited = 0
steps_left (running t) = 3
steps_left (drain_running t) = 2

abbrev pub all_left : List Worker → ℕ
all_left [] = 0
all_left (w ∷ ws) = steps_left w + all_left ws

abbrev pub load : Pool → ℕ
load p = 3 * length p.queue + all_left p.workers

all_left-set :
    (j : ℕ) (w w' : Worker) (ws : List Worker)
    → get_elem? ws j ≡ some w
    → all_left (set ws j w') + steps_left w ≡ all_left ws + steps_left w'
all_left-set j w w' [] h = absurd (cc h)
all_left-set zero w w' (x ∷ ws) h = omega (arith, ap steps_left (some-injective x w h))
all_left-set (suc j) w w' (x ∷ ws) h = omega (arith, all_left-set j w w' ws h)

all_left_bound : (ws : List Worker) → all_left ws ≤ 3 * length ws
all_left_bound [] = omega arith
all_left_bound (idle ∷ ws) = omega (arith, all_left_bound ws)
all_left_bound (draining ∷ ws) = omega (arith, all_left_bound ws)
all_left_bound (exited ∷ ws) = omega (arith, all_left_bound ws)
all_left_bound (running t ∷ ws) = omega (arith, all_left_bound ws)
all_left_bound (drain_running t ∷ ws) = omega (arith, all_left_bound ws)

find_working :
    (ws : List Worker)
    → all_exited ws ≡ false
    → (j : ℕ) × (w : Worker) × (get_elem? ws j ≡ some w) × (is_exited w ≡ false)
unfolding all_exited
find_working [] h = absurd (cc h)
find_working (idle ∷ ws) h = (0, idle, refl, refl)
find_working (draining ∷ ws) h = (0, draining, refl, refl)
find_working (running t ∷ ws) h = (0, running t, refl, refl)
find_working (drain_running t ∷ ws) h = (0, drain_running t, refl, refl)
find_working (exited ∷ ws) h = let (j, w, at, n) = find_working ws h in (suc j, w, at, n)

abbrev CanWork : Pool → Type 0
CanWork p = (e : Event) × IsWork e × (step e p ≢ none)

guard_open : (b : Bool) (x : Pool) → b ≡ true → (if b then some x else none) ≢ none
guard_open true x b h = cc h
guard_open false x b h = cc b

at_worker :
    (f : Worker → ℕ → Pool → Option Pool) (j : ℕ) (w : Worker) (p : Pool)
    → get_elem? p.workers j ≡ some w
    → on_worker f j p ≡ f w j p
at_worker f j w p at = rw (at, on_worker) refl

at_receiver :
    (p : Pool) (j : ℕ) (w : Worker) (busy : ℕ → Worker)
    → get_elem? p.workers j ≡ some w
    → receiving w ≡ some busy
    → step (take j) p ≡ take_from p.queue busy j p
unfolding step
at_receiver p j w busy at free =
    ap (λ o. elim o [ none ↦ none | some b ↦ take_from p.queue b j p ])
      (ap (λ o. elim o [ none ↦ none | some v ↦ receiving v ]) at ∙ free)

drain_on :
    (j : ℕ) (p : Pool) (q : List ℕ)
    → p.queue ≡ q
    → get_elem? p.workers j ≡ some draining
    → CanWork p
unfolding step receiving take_from exit_as
drain_on j p [] eq at = (
  exit j,
  tt,
  λ h. cc (rw (eq, exit_as) at (sym (at_worker (λ w. exit_as w p.queue) j draining p at) ∙ h)),
)
drain_on j p (t ∷ q) eq at = (
  take j,
  tt,
  λ h. cc (rw (eq, take_from) at (sym (at_receiver p j draining drain_running at refl) ∙ h)),
)

can_work :
    (j : ℕ) (w : Worker) (p : Pool)
    → p.stop ≡ true
    → get_elem? p.workers j ≡ some w
    → is_exited w ≡ false
    → CanWork p
unfolding step finish_as stop_as
can_work j idle p s at n =
    (see_stop j, tt, λ h. guard_open p.stop _ s (sym (at_worker stop_as j idle p at) ∙ h))
can_work j draining p s at n = drain_on j p p.queue refl at
can_work j exited p s at n = absurd (cc n)
can_work j (running t) p s at n = (finish j, tt, λ h. cc (sym (at_worker finish_as j _ p at) ∙ h))
can_work j (drain_running t) p s at n =
    (finish j, tt, λ h. cc (sym (at_worker finish_as j _ p at) ∙ h))

-- `load` goes down by each of a worker's moves.
busy_steps :
    (w : Worker) (busy : ℕ → Worker) (t : ℕ)
    → receiving w ≡ some busy
    → steps_left (busy t) ≡ suc (steps_left w)
unfolding receiving
busy_steps idle busy t h = ap (λ f. steps_left (f t)) (sym (some-injective _ _ h))
busy_steps draining busy t h = ap (λ f. steps_left (f t)) (sym (some-injective _ _ h))
busy_steps exited busy t h = absurd (cc h)
busy_steps (running u) busy t h = absurd (cc h)
busy_steps (drain_running u) busy t h = absurd (cc h)

-- One worker changes into one that has fewer steps left.
eased :
    (j : ℕ) (w w' : Worker) (p : Pool)
    → get_elem? p.workers j ≡ some w
    → steps_left w' < steps_left w
    → 3 * length p.queue + all_left (set p.workers j w') < load p
eased j w w' p at l = omega (arith, all_left-set j w w' p.workers at)

take-lt-load :
    (qs : List ℕ) (w : Worker) (busy : ℕ → Worker) (j : ℕ) (p p' : Pool)
    → p.queue ≡ qs
    → get_elem? p.workers j ≡ some w
    → receiving w ≡ some busy
    → take_from qs busy j p ≡ some p'
    → load p' < load p
unfolding take_from
take-lt-load [] w busy j p p' eq at free h = absurd (cc h)
take-lt-load (t ∷ q) w busy j p p' eq at free h =
    subst (λ r. load r < load p) (some-injective _ _ h)
      (omega
        (arith, all_left-set j w (busy t) p.workers at, busy_steps w busy t free, ap length eq))

finish-lt-load :
    (w : Worker) (j : ℕ) (p p' : Pool)
    → get_elem? p.workers j ≡ some w
    → finish_as w j p ≡ some p'
    → load p' < load p
unfolding finish_as
finish-lt-load idle j p p' at h = absurd (cc h)
finish-lt-load draining j p p' at h = absurd (cc h)
finish-lt-load exited j p p' at h = absurd (cc h)
finish-lt-load (running t) j p p' at h =
    subst (λ r. load r < load p) (some-injective _ _ h)
      (eased j (running t) idle p at (omega arith))
finish-lt-load (drain_running t) j p p' at h =
    subst (λ r. load r < load p) (some-injective _ _ h)
      (eased j (drain_running t) draining p at (omega arith))

stop-lt-load :
    (w : Worker) (j : ℕ) (p p' : Pool)
    → get_elem? p.workers j ≡ some w
    → stop_as w j p ≡ some p'
    → load p' < load p
unfolding stop_as
stop-lt-load idle j p p' at h =
    subst (λ r. load r < load p) (some-injective _ _ (guard_passed p.stop _ p' h).1)
      (eased j idle draining p at (omega arith))
stop-lt-load draining j p p' at h = absurd (cc h)
stop-lt-load exited j p p' at h = absurd (cc h)
stop-lt-load (running t) j p p' at h = absurd (cc h)
stop-lt-load (drain_running t) j p p' at h = absurd (cc h)

exit-lt-load :
    (w : Worker) (qs : List ℕ) (j : ℕ) (p p' : Pool)
    → get_elem? p.workers j ≡ some w
    → exit_as w qs j p ≡ some p'
    → load p' < load p
unfolding exit_as
exit-lt-load draining [] j p p' at h =
    subst (λ r. load r < load p) (some-injective _ _ h) (eased j draining exited p at (omega arith))
exit-lt-load draining (x ∷ qs) j p p' at h = absurd (cc h)
exit-lt-load idle qs j p p' at h = absurd (cc h)
exit-lt-load exited qs j p p' at h = absurd (cc h)
exit-lt-load (running t) qs j p p' at h = absurd (cc h)
exit-lt-load (drain_running t) qs j p p' at h = absurd (cc h)

step-lt-load : (e : Event) (p p' : Pool) → IsWork e → step e p ≡ some p' → load p' < load p
unfolding step
step-lt-load (take j) p p' w h =
    on_receiver-keeps (λ r. load r < load p) (λ busy. take_from p.queue busy j p) j p p'
      (λ w busy at free. take-lt-load p.queue w busy j p p' refl at free) h
step-lt-load (finish j) p p' w h =
    on_worker-keeps (λ r. load r < load p) finish_as j p p' (λ w at. finish-lt-load w j p p' at) h
step-lt-load (see_stop j) p p' w h =
    on_worker-keeps (λ r. load r < load p) stop_as j p p' (λ w at. stop-lt-load w j p p' at) h
step-lt-load (exit j) p p' w h =
    on_worker-keeps (λ r. load r < load p) (λ w. exit_as w p.queue) j p p'
      (λ w at. exit-lt-load w p.queue j p p' at) h
step-lt-load (submit t) p p' w h = elim w [ ]
step-lt-load (enqueue i) p p' w h = elim w [ ]
step-lt-load (stopped i) p p' w h = elim w [ ]
step-lt-load (cancelled i) p p' w h = elim w [ ]
step-lt-load (hand_over i j) p p' w h = elim w [ ]
step-lt-load mark_closed p p' w h = elim w [ ]
step-lt-load close_stop p p' w h = elim w [ ]

run-le-load :
    (es : List Event) (p p' : Pool) → AllWork es → run es p ≡ some p' → length es + load p' ≤ load p
unfolding run
run-le-load [] p p' a h = omega (arith, ap load (some-injective _ _ h))
run-le-load (e ∷ es) p p' (w, a) h = elim (Option-cases (step e p)) [
  | inl s ↦ absurd (cc (rw (s, run) at h))
  | inr (m, s) ↦ omega (arith, run-le-load es m p' a (rw (s, run) at h), step-lt-load e p m w s)
]

-- After the stop signal the draining comes to an end. Workers can make at most three moves for each
-- queued task and three for each worker, whatever the order; and as long as some worker has not
-- returned, one of them can move.
pub drain_ends :
    (p : Pool)
    → p.stop ≡ true
    → ((es : List Event) (p' : Pool)
        → AllWork es
        → run es p ≡ some p'
        → length es ≤ 3 * length p.queue + 3 * length p.workers)
      × (all_exited p.workers ≡ false → (e : Event) × IsWork e × (step e p ≢ none))
drain_ends p s = (
  λ es p' a h. omega (arith, run-le-load es p p' a h, all_left_bound p.workers),
  λ n. let (j, w, at, out) = find_working p.workers n in can_work j w p s at out,
)
