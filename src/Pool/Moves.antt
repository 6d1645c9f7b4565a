-- ===== src/Pool/Moves.antt =====
-- The moves of the pool, and the proof that what every move preserves every run preserves.
use mathlib.Core.Option.{some-injective}
use lakta.Prelude.{
  ℕ, ◌≡◌, ◌<◌, refl, subst, Bool, true, false, Option, none, some, List, [], ◌∷◌, ◌++◌, length,
  get_elem?, set, ltb, ltb→lt, if◌then◌else◌, inl, inr, Bool-cases, Option-cases,
}
use lakta.Pool.{
  Worker, idle, draining, exited, running, drain_running, Pool, Event, submit, enqueue, stopped,
  cancelled, hand_over, take, finish, see_stop, exit, mark_closed, close_stop, remove_at,
  submit_task, refuse, enqueue_at, receiving, receiving_at, hand_to, take_from, finish_as, stop_as,
  exit_as, on_worker, step, run,
}

pub record Preserves (Q : Pool → Type 0) : Type 0 where
  pub submitted :
      (t : ℕ) (p : Pool) → p.closed ≡ false → Q p → Q (record p { waiting = t ∷ p.waiting })
  pub turned_away : (t : ℕ) (p : Pool) → Q p → Q (record p { refused = p.refused ++ t ∷ [] })
  pub refused_at :
      (i t : ℕ) (p : Pool)
      → get_elem? p.waiting i ≡ some t
      → Q p
      → Q (record p { waiting = remove_at p.waiting i; refused = p.refused ++ t ∷ [] })
  pub enqueued :
      (i t : ℕ) (p : Pool)
      → get_elem? p.waiting i ≡ some t
      → length p.queue < p.capacity
      → Q p
      → Q (record p {
        waiting = remove_at p.waiting i;
        queue = p.queue ++ t ∷ [];
        accepted = p.accepted ++ t ∷ [];
      })
  pub handed :
      (i j t : ℕ) (w : Worker) (busy : ℕ → Worker) (p : Pool)
      → get_elem? p.waiting i ≡ some t
      → get_elem? p.workers j ≡ some w
      → receiving w ≡ some busy
      → p.queue ≡ []
      → Q p
      → Q (record p {
        waiting = remove_at p.waiting i;
        accepted = p.accepted ++ t ∷ [];
        started = p.started ++ t ∷ [];
        workers = set p.workers j (busy t);
      })
  pub taken :
      (j t : ℕ) (q : List ℕ) (w : Worker) (busy : ℕ → Worker) (p : Pool)
      → get_elem? p.workers j ≡ some w
      → receiving w ≡ some busy
      → p.queue ≡ t ∷ q
      → Q p
      → Q (record p {
        queue = q;
        started = p.started ++ t ∷ [];
        workers = set p.workers j (busy t);
      })
  pub finished :
      (j t : ℕ) (p : Pool)
      → get_elem? p.workers j ≡ some (running t)
      → Q p
      → Q (record p { executed = p.executed ++ t ∷ []; workers = set p.workers j idle })
  pub drain_finished :
      (j t : ℕ) (p : Pool)
      → get_elem? p.workers j ≡ some (drain_running t)
      → Q p
      → Q (record p { executed = p.executed ++ t ∷ []; workers = set p.workers j draining })
  pub saw_stop :
      (j : ℕ) (p : Pool)
      → get_elem? p.workers j ≡ some idle
      → p.stop ≡ true
      → Q p
      → Q (record p { workers = set p.workers j draining })
  pub left :
      (j : ℕ) (p : Pool)
      → get_elem? p.workers j ≡ some draining
      → p.queue ≡ []
      → Q p
      → Q (record p { workers = set p.workers j exited })
  pub marked : (p : Pool) → Q p → Q (record p { closed = true })
  pub stop_closed : (p : Pool) → p.closed ≡ true → Q p → Q (record p { stop = true })

-- A guarded move took place only if its guard held.
pub guard_passed :
    (b : Bool) (o : Option Pool) (p' : Pool)
    → (if b then o else none) ≡ some p'
    → (b ≡ true) × (o ≡ some p')
guard_passed true o p' h = (refl, h)
guard_passed false o p' h = absurd (cc h)

pub on_worker-keeps :
    (Q : Pool → Type 0) (f : Worker → ℕ → Pool → Option Pool) (j : ℕ) (p p' : Pool)
    → ((w : Worker) → get_elem? p.workers j ≡ some w → f w j p ≡ some p' → Q p')
    → on_worker f j p ≡ some p'
    → Q p'
on_worker-keeps Q f j p p' each h = elim (Option-cases (get_elem? p.workers j)) [
  | inl e ↦ absurd (cc (rw (e, on_worker) at h))
  | inr (w, e) ↦ each w e (rw (e, on_worker) at h)
]

pub on_receiver-keeps :
    (Q : Pool → Type 0) (f : (ℕ → Worker) → Option Pool) (j : ℕ) (p p' : Pool)
    → ((w : Worker) (busy : ℕ → Worker)
        → get_elem? p.workers j ≡ some w
        → receiving w ≡ some busy
        → f busy ≡ some p'
        → Q p')
    → elim (receiving_at p.workers j) [ none ↦ none | some busy ↦ f busy ] ≡ some p'
    → Q p'
on_receiver-keeps Q f j p p' each h = elim (Option-cases (get_elem? p.workers j)) [
  | inl e ↦ absurd (cc (rw e at h))
  | inr (w, e) ↦ elim (Option-cases (receiving w)) [
    | inl r ↦ absurd (cc (rw (e, r) at h))
    | inr (busy, r) ↦ each w busy e r (rw (e, r) at h)
  ]
]

module _ {Q : Pool → Type 0} (keeps : Preserves Q) where
  refuse-keeps : (i : ℕ) (p p' : Pool) → Q p → refuse i p ≡ some p' → Q p'
  unfolding refuse
  refuse-keeps i p p' q h = elim (Option-cases (get_elem? p.waiting i)) [
    | inl e ↦ absurd (cc (rw (e, refuse) at h))
    | inr (t, e) ↦ subst Q (some-injective _ _ (rw (e, refuse) at h)) (keeps.refused_at i t p e q)
  ]

  enqueue_at-keeps : (i : ℕ) (p p' : Pool) → Q p → enqueue_at i p ≡ some p' → Q p'
  unfolding enqueue_at
  enqueue_at-keeps i p p' q h = elim (Option-cases (get_elem? p.waiting i)) [
    | inl e ↦ absurd (cc (rw (e, enqueue_at) at h))
    | inr (t, e) ↦ elim (Bool-cases (ltb (length p.queue) p.capacity)) [
      | inl r ↦
          subst Q (some-injective _ _ (rw (e, enqueue_at, r) at h))
            (keeps.enqueued i t p e (ltb→lt _ _ r) q)
      | inr r ↦ absurd (cc (rw (e, enqueue_at, r) at h))
    ]
  ]

  hand_to-keeps :
      (qs : List ℕ) (w : Worker) (busy : ℕ → Worker) (i j : ℕ) (p p' : Pool)
      → p.queue ≡ qs
      → get_elem? p.workers j ≡ some w
      → receiving w ≡ some busy
      → Q p
      → hand_to qs busy i j p ≡ some p'
      → Q p'
  unfolding hand_to
  hand_to-keeps (x ∷ qs) w busy i j p p' eq at free q h = absurd (cc h)
  hand_to-keeps [] w busy i j p p' eq at free q h = elim (Option-cases (get_elem? p.waiting i)) [
    | inl e ↦ absurd (cc (rw (e, hand_to) at h))
    | inr (t, e) ↦
        subst Q (some-injective _ _ (rw (e, hand_to) at h))
          (keeps.handed i j t w busy p e at free eq q)
  ]

  take_from-keeps :
      (qs : List ℕ) (w : Worker) (busy : ℕ → Worker) (j : ℕ) (p p' : Pool)
      → p.queue ≡ qs
      → get_elem? p.workers j ≡ some w
      → receiving w ≡ some busy
      → Q p
      → take_from qs busy j p ≡ some p'
      → Q p'
  unfolding take_from
  take_from-keeps [] w busy j p p' eq at free q h = absurd (cc h)
  take_from-keeps (t ∷ qs) w busy j p p' eq at free q h =
      subst Q (some-injective _ _ h) (keeps.taken j t qs w busy p at free eq q)

  finish_as-keeps :
      (w : Worker) (j : ℕ) (p p' : Pool)
      → get_elem? p.workers j ≡ some w
      → Q p
      → finish_as w j p ≡ some p'
      → Q p'
  unfolding finish_as
  finish_as-keeps idle j p p' at q h = absurd (cc h)
  finish_as-keeps draining j p p' at q h = absurd (cc h)
  finish_as-keeps exited j p p' at q h = absurd (cc h)
  finish_as-keeps (running t) j p p' at q h =
      subst Q (some-injective _ _ h) (keeps.finished j t p at q)
  finish_as-keeps (drain_running t) j p p' at q h =
      subst Q (some-injective _ _ h) (keeps.drain_finished j t p at q)

  stop_as-keeps :
      (w : Worker) (j : ℕ) (p p' : Pool)
      → get_elem? p.workers j ≡ some w
      → Q p
      → stop_as w j p ≡ some p'
      → Q p'
  unfolding stop_as
  stop_as-keeps idle j p p' at q h =
      let (s, moved) = guard_passed p.stop _ p' h in
      subst Q (some-injective _ _ moved) (keeps.saw_stop j p at s q)
  stop_as-keeps draining j p p' at q h = absurd (cc h)
  stop_as-keeps exited j p p' at q h = absurd (cc h)
  stop_as-keeps (running t) j p p' at q h = absurd (cc h)
  stop_as-keeps (drain_running t) j p p' at q h = absurd (cc h)

  exit_as-keeps :
      (w : Worker) (qs : List ℕ) (j : ℕ) (p p' : Pool)
      → p.queue ≡ qs
      → get_elem? p.workers j ≡ some w
      → Q p
      → exit_as w qs j p ≡ some p'
      → Q p'
  unfolding exit_as
  exit_as-keeps draining [] j p p' eq at q h =
      subst Q (some-injective _ _ h) (keeps.left j p at eq q)
  exit_as-keeps draining (x ∷ qs) j p p' eq at q h = absurd (cc h)
  exit_as-keeps idle qs j p p' eq at q h = absurd (cc h)
  exit_as-keeps exited qs j p p' eq at q h = absurd (cc h)
  exit_as-keeps (running t) qs j p p' eq at q h = absurd (cc h)
  exit_as-keeps (drain_running t) qs j p p' eq at q h = absurd (cc h)

  submit_task-keeps : (t : ℕ) (p : Pool) → Q p → Q (submit_task t p)
  unfolding submit_task
  submit_task-keeps t p q = go p.closed refl
    where
      go :
          (c : Bool)
          → p.closed ≡ c
          → Q (
              if c
              then record p { refused = p.refused ++ t ∷ [] }
              else record p { waiting = t ∷ p.waiting })
      go true c = keeps.turned_away t p q
      go false c = keeps.submitted t p c q

  pub step-keeps : (e : Event) (p p' : Pool) → Q p → step e p ≡ some p' → Q p'
  unfolding step
  step-keeps (submit t) p p' q h = subst Q (some-injective _ _ h) (submit_task-keeps t p q)
  step-keeps (enqueue i) p p' q h = enqueue_at-keeps i p p' q h
  step-keeps (hand_over i j) p p' q h =
      on_receiver-keeps Q (λ busy. hand_to p.queue busy i j p) j p p'
        (λ w busy at free. hand_to-keeps p.queue w busy i j p p' refl at free q) h
  step-keeps (stopped i) p p' q h = refuse-keeps i p p' q (guard_passed p.stop _ p' h).1
  step-keeps (cancelled i) p p' q h = refuse-keeps i p p' q h
  step-keeps (take j) p p' q h =
      on_receiver-keeps Q (λ busy. take_from p.queue busy j p) j p p'
        (λ w busy at free. take_from-keeps p.queue w busy j p p' refl at free q) h
  step-keeps (finish j) p p' q h =
      on_worker-keeps Q finish_as j p p' (λ w at. finish_as-keeps w j p p' at q) h
  step-keeps (see_stop j) p p' q h =
      on_worker-keeps Q stop_as j p p' (λ w at. stop_as-keeps w j p p' at q) h
  step-keeps (exit j) p p' q h =
      on_worker-keeps Q (λ w. exit_as w p.queue) j p p'
        (λ w at. exit_as-keeps w p.queue j p p' refl at q) h
  step-keeps mark_closed p p' q h = subst Q (some-injective _ _ h) (keeps.marked p q)
  step-keeps close_stop p p' q h =
      let (c, moved) = guard_passed p.closed _ p' h in
      subst Q (some-injective _ _ moved) (keeps.stop_closed p c q)

  pub run-keeps : (es : List Event) (p p' : Pool) → Q p → run es p ≡ some p' → Q p'
  unfolding run
  run-keeps [] p p' q h = subst Q (some-injective _ _ h) q
  run-keeps (e ∷ es) p p' q h = elim (Option-cases (step e p)) [
    | inl s ↦ absurd (cc (rw (s, run) at h))
    | inr (m, s) ↦ run-keeps es m p' (step-keeps e p m q s) (rw (s, run) at h)
  ]
