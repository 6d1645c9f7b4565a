-- ===== src/Bus/Delivered.antt =====
-- What a subscription is handed, and what of it is invoked (pkg/events/bus/bus.go).
use lakta.Prelude.{
  ℕ, ◌≤◌, ◌<◌, ◌≡◌, refl, sym, ap, subst, ◌∙◌, Bool, true, false, Option, none, some, List, [], ◌∷◌,
  ◌++◌, append_assoc, append-nil, length, length-append, ltb, ltb→lt, nat_keyed, if◌then◌else◌, inl,
  inr, Bool-cases, arith,
}
use lakta.Bus.{
  BusEvent, Worker, no_worker, receiving, draining, returned, Subscription, invoke_sync,
  enqueue_async, skip_stopped, ctx_done, take_from, see_stop, return_from, if_room,
}

abbrev pub OfTopic : ℕ → List BusEvent → Type 0
OfTopic t [] = Unit
OfTopic t (e ∷ es) = (e.topic ≡ t) × OfTopic t es

OfTopic-append :
    (t : ℕ) (es : List BusEvent) (e : BusEvent)
    → OfTopic t es
    → e.topic ≡ t
    → OfTopic t (es ++ e ∷ [])
OfTopic-append t [] e h k = (k, tt)
OfTopic-append t (x ∷ es) e (h, hs) k = (h, OfTopic-append t es e hs k)

-- A sync subscription has no queue; and only once a worker has returned can something be left over.
abbrev pub Left : Worker → (queue late : List BusEvent) → Type 0
Left no_worker queue late = (late ≡ []) × (queue ≡ [])
Left receiving queue late = late ≡ []
Left draining queue late = late ≡ []
Left returned queue late = queue ≡ late

pub record InOrder (size : ℕ) (s : Subscription) : Type 0 where
  pub conserved : s.accepted ≡ s.invoked ++ s.queue
  pub own : OfTopic s.topic s.accepted
  pub bounded : length s.queue ≤ size
  pub left : Left s.worker s.queue s.late

-- What a step makes of a subscription, where it makes anything.
abbrev pub Kept : ℕ → Subscription → Option Subscription → Type 0
Kept size s none = Unit
Kept size s (some s') = InOrder size s' × (s'.topic ≡ s.topic)

module _ (size : ℕ) where
  pub invoke_sync-Kept :
      (e : BusEvent) (s : Subscription) (w : Worker)
      → s.worker ≡ w
      → e.topic ≡ s.topic
      → InOrder size s
      → Kept size s (invoke_sync e s w)
  unfolding invoke_sync
  invoke_sync-Kept e s no_worker is t o =
      let l : Left no_worker s.queue s.late = subst (λ x. Left x s.queue s.late) is o.left in
      (
        record {
          conserved =
              ap (λ z. z ++ e ∷ [])
                (o.conserved ∙ ap (λ q. s.invoked ++ q) l.1 ∙ append-nil s.invoked)
              ∙ sym (append-nil (s.invoked ++ e ∷ []))
              ∙ ap (λ q. (s.invoked ++ e ∷ []) ++ q) (sym l.1);
          own = OfTopic-append s.topic s.accepted e o.own t;
          bounded = o.bounded;
          left = o.left;
        },
        refl,
      )
  invoke_sync-Kept e s receiving is t o = tt
  invoke_sync-Kept e s draining is t o = tt
  invoke_sync-Kept e s returned is t o = tt

  room-Kept :
      (s s' : Subscription)
      → (length s.queue < size → InOrder size s' × (s'.topic ≡ s.topic))
      → Kept size s (if_room size s.queue s')
  room-Kept s s' k = elim (Bool-cases (ltb (length s.queue) size)) [
    | inl y ↦ rw y (k (ltb→lt _ _ y))
    | inr n ↦ rw n tt
  ]

  snoc_conserved :
      (e : BusEvent) (s : Subscription)
      → InOrder size s
      → s.accepted ++ e ∷ [] ≡ s.invoked ++ (s.queue ++ e ∷ [])
  snoc_conserved e s o = ap (λ z. z ++ e ∷ []) o.conserved ∙ append_assoc s.invoked s.queue (e ∷ [])

  pub enqueue_async-Kept :
      (e : BusEvent) (s : Subscription) (w : Worker)
      → s.worker ≡ w
      → e.topic ≡ s.topic
      → InOrder size s
      → Kept size s (enqueue_async size e s w)
  unfolding enqueue_async
  enqueue_async-Kept e s no_worker is t o = tt
  enqueue_async-Kept e s returned is t o = room-Kept s _ (λ room. (
    record {
      conserved = snoc_conserved e s o;
      own = OfTopic-append s.topic s.accepted e o.own t;
      bounded = omega (arith, length-append s.queue (e ∷ []));
      left =
          subst (λ x. Left x (s.queue ++ e ∷ []) (s.late ++ e ∷ [])) (sym is)
            (ap (λ q. q ++ e ∷ []) (subst (λ x. Left x s.queue s.late) is o.left));
    },
    refl,
  ))
  enqueue_async-Kept e s receiving is t o = room-Kept s _ (λ room. (
    record {
      conserved = snoc_conserved e s o;
      own = OfTopic-append s.topic s.accepted e o.own t;
      bounded = omega (arith, length-append s.queue (e ∷ []));
      left =
          subst (λ x. Left x (s.queue ++ e ∷ []) s.late) (sym is)
            (subst (λ x. Left x s.queue s.late) is o.left);
    },
    refl,
  ))
  enqueue_async-Kept e s draining is t o = room-Kept s _ (λ room. (
    record {
      conserved = snoc_conserved e s o;
      own = OfTopic-append s.topic s.accepted e o.own t;
      bounded = omega (arith, length-append s.queue (e ∷ []));
      left =
          subst (λ x. Left x (s.queue ++ e ∷ []) s.late) (sym is)
            (subst (λ x. Left x s.queue s.late) is o.left);
    },
    refl,
  ))

  same-Kept : (s : Subscription) → InOrder size s → Kept size s (some s)
  same-Kept s o = (o, refl)

  if-Kept :
      (b : Bool) (s : Subscription) (o : Option Subscription)
      → Kept size s o
      → Kept size s (if b then o else none)
  if-Kept true s o k = k
  if-Kept false s o k = tt

  pub skip_stopped-Kept :
      (s : Subscription) (w : Worker) → InOrder size s → Kept size s (skip_stopped s w)
  unfolding skip_stopped
  skip_stopped-Kept s no_worker o = tt
  skip_stopped-Kept s receiving o = if-Kept s.stop s (some s) (same-Kept s o)
  skip_stopped-Kept s draining o = if-Kept s.stop s (some s) (same-Kept s o)
  skip_stopped-Kept s returned o = if-Kept s.stop s (some s) (same-Kept s o)

  pub ctx_done-Kept : (s : Subscription) (w : Worker) → InOrder size s → Kept size s (ctx_done s w)
  unfolding ctx_done
  ctx_done-Kept s no_worker o = tt
  ctx_done-Kept s receiving o = same-Kept s o
  ctx_done-Kept s draining o = same-Kept s o
  ctx_done-Kept s returned o = same-Kept s o

  taken :
      (s : Subscription) (w : Worker) (e : BusEvent) (queue : List BusEvent)
      → s.worker ≡ w
      → s.queue ≡ e ∷ queue
      → (Left w (e ∷ queue) s.late → Left w queue s.late)
      → InOrder size s
      → Kept size s (some (record s { queue = queue; invoked = s.invoked ++ e ∷ [] }))
  taken s w e queue is q l o = (
    record {
      conserved =
          o.conserved ∙ ap (λ z. s.invoked ++ z) q ∙ sym (append_assoc s.invoked (e ∷ []) queue);
      own = o.own;
      bounded = shorter (subst (λ z. length z ≤ size) q o.bounded);
      left =
          subst (λ x. Left x queue s.late) (sym is)
            (l (subst (λ z. Left w z s.late) q (subst (λ x. Left x s.queue s.late) is o.left)));
    },
    refl,
  )
    where
      shorter : length (e ∷ queue) ≤ size → length queue ≤ size
      shorter h = omega (arith, h)

  pub take_from-Kept :
      (s : Subscription) (w w' : Worker) (queue : List BusEvent)
      → s.worker ≡ w
      → s.queue ≡ queue
      → InOrder size s
      → Kept size s (take_from s w queue w')
  unfolding take_from
  take_from-Kept s receiving receiving (e ∷ queue) is q o =
      taken s receiving e queue is q (λ l. l) o
  take_from-Kept s draining draining (e ∷ queue) is q o = taken s draining e queue is q (λ l. l) o
  take_from-Kept s receiving receiving [] is q o = tt
  take_from-Kept s draining draining [] is q o = tt
  take_from-Kept s receiving draining [] is q o = tt
  take_from-Kept s receiving draining (e ∷ queue) is q o = tt
  take_from-Kept s receiving no_worker [] is q o = tt
  take_from-Kept s receiving no_worker (e ∷ queue) is q o = tt
  take_from-Kept s receiving returned [] is q o = tt
  take_from-Kept s receiving returned (e ∷ queue) is q o = tt
  take_from-Kept s draining receiving [] is q o = tt
  take_from-Kept s draining receiving (e ∷ queue) is q o = tt
  take_from-Kept s draining no_worker [] is q o = tt
  take_from-Kept s draining no_worker (e ∷ queue) is q o = tt
  take_from-Kept s draining returned [] is q o = tt
  take_from-Kept s draining returned (e ∷ queue) is q o = tt
  take_from-Kept s no_worker w' queue is q o = tt
  take_from-Kept s returned w' queue is q o = tt

  with_worker :
      (s : Subscription) (w w' : Worker)
      → s.worker ≡ w
      → (Left w s.queue s.late → Left w' s.queue s.late)
      → InOrder size s
      → Kept size s (some (record s { worker = w' }))
  with_worker s w w' is l o = (
    record {
      conserved = o.conserved;
      own = o.own;
      bounded = o.bounded;
      left = l (subst (λ x. Left x s.queue s.late) is o.left);
    },
    refl,
  )

  pub see_stop-Kept :
      (s : Subscription) (w : Worker) → s.worker ≡ w → InOrder size s → Kept size s (see_stop s w)
  unfolding see_stop
  see_stop-Kept s receiving is o =
      if-Kept s.stop s _ (with_worker s receiving draining is (λ l. l) o)
  see_stop-Kept s draining is o = tt
  see_stop-Kept s no_worker is o = tt
  see_stop-Kept s returned is o = tt

  pub return_from-Kept :
      (s : Subscription) (w : Worker) (queue : List BusEvent)
      → s.worker ≡ w
      → s.queue ≡ queue
      → InOrder size s
      → Kept size s (return_from s w queue)
  unfolding return_from
  return_from-Kept s draining [] is q o = with_worker s draining returned is (λ l. q ∙ sym l) o
  return_from-Kept s draining (e ∷ queue) is q o = tt
  return_from-Kept s receiving queue is q o = tt
  return_from-Kept s no_worker queue is q o = tt
  return_from-Kept s returned queue is q o = tt

  pub stopped-Kept :
      (s : Subscription) → InOrder size s → Kept size s (some (record s { stop = true }))
  stopped-Kept s o =
      (record { conserved = o.conserved; own = o.own; bounded = o.bounded; left = o.left }, refl)
