-- ===== src/Bus/Runs.antt =====
-- Every run of a bus: subscribers, publishers, workers, and a closing, in any order
-- (pkg/events/bus/bus.go).
use lakta.Prelude.{
  ℕ, suc, ◌<◌, ◌≡◌, ◌≢◌, refl, sym, ap, subst, ◌∙◌, Bool, true, false, Option, none, some, List, [],
  ◌∷◌, ◌++◌, get, put, get-put, get-put_ne, get-put-some, nat_eqb, nat_keyed, none_ne, ◌==◌,
  if◌then◌else◌, inl, inr, ◌⊎◌, Bool-cases, same-eq, not_eq, arith,
}
use lakta.Bus.{
  BusEvent, Worker, no_worker, receiving, draining, Subscription, Publishing, Bus, Event, subscribe,
  subscribe_async, remove, signal, publish, invoke, enqueue, skip, give_up, receive, notice, drain,
  exit, close, ids, without, add, remove_from, set_stop, begin_publish, moved, on_sub, passed,
  on_first, on_publisher, step, run, new_bus,
}
use lakta.Bus.Delivered.{
  InOrder, Kept, invoke_sync-Kept, enqueue_async-Kept, skip_stopped-Kept, ctx_done-Kept,
  take_from-Kept, see_stop-Kept, return_from-Kept, stopped-Kept,
}

abbrev pub Among : ℕ → List ℕ → Type 0
Among j [] = ⊥
Among j (k ∷ l) = (j ≡ k) ⊎ Among j l

Among-append : (j k : ℕ) (l : List ℕ) → Among j (l ++ k ∷ []) → (j ≡ k) ⊎ Among j l
Among-append j k [] h = h
Among-append j k (x ∷ l) (inl y) = inr (inl y)
Among-append j k (x ∷ l) (inr h) = elim (Among-append j k l h) [
  | inl y ↦ inl y
  | inr r ↦ inr (inr r)
]

Among-without : (j k : ℕ) (l : List ℕ) → Among j (without k l) → Among j l
Among-without j k [] h = h
Among-without j k (x ∷ l) h = by_id (nat_eqb x k) h (Among-without j k l)
  where
    by_id :
        (b : Bool)
        → Among j (if b then without k l else x ∷ without k l)
        → (Among j (without k l) → Among j l)
        → Among j (x ∷ l)
    by_id true h ih = inr (ih h)
    by_id false (inl y) ih = inl y
    by_id false (inr h) ih = inr (ih h)

-- A subscription of a topic.
abbrev pub Subscribed : List (ℕ × Subscription) → ℕ → ℕ → Type 0
Subscribed subs topic j = (s : Subscription) × (get subs j ≡ some s) × (s.topic ≡ topic)

pub record IsTidy (b : Bus) : Type 0 where
  pub in_order : (j : ℕ) (s : Subscription) → get b.subs j ≡ some s → InOrder b.buffer_size s
  pub listed : (topic j : ℕ) → Among j (ids (get b.listed topic)) → Subscribed b.subs topic j
  pub pending :
      (i : ℕ) (p : Publishing) (j : ℕ)
      → get b.publishing i ≡ some p
      → Among j p.rest
      → Subscribed b.subs p.event.topic j
  pub below : (j : ℕ) (s : Subscription) → get b.subs j ≡ some s → j < b.created

-- What a step leaves, where it is possible.
abbrev Tidy : Option Bus → Type 0
Tidy none = Unit
Tidy (some b) = IsTidy b

some_eq {ℓ} : {A : Type ℓ} {a b : A} → some a ≡ some b → a ≡ b
some_eq h = cc h

-- A subscription that is exchanged for one of the same topic.
Subscribed-put :
    (subs : List (ℕ × Subscription)) (topic j k : ℕ) (s s' : Subscription)
    → get subs k ≡ some s
    → s'.topic ≡ s.topic
    → Subscribed subs topic j
    → Subscribed (put subs k s') topic j
Subscribed-put subs topic j k s s' known same (x, found, is) = elim (Bool-cases (k == j)) [
  | inl y ↦ (
    s',
    ap (get (put subs k s')) (sym (same-eq k j y)) ∙ get-put subs k s',
    same
        ∙ ap (λ (z : Subscription). z.topic)
            (some_eq (sym known ∙ ap (get subs) (same-eq k j y) ∙ found))
        ∙ is,
  )
  | inr ne ↦ (x, get-put_ne subs k j s' (not_eq k j ne) ∙ found, is)
]

moved-IsTidy :
    (b : Bus) (k : ℕ) (s s' : Subscription)
    → get b.subs k ≡ some s
    → InOrder b.buffer_size s' × (s'.topic ≡ s.topic)
    → IsTidy b
    → IsTidy (record b { subs = put b.subs k s' })
moved-IsTidy b k s s' known (o, same) t = record {
  in_order = λ j x f. order_at j x (get-put-some b.subs k j s' x f);
  listed = λ topic j h. Subscribed-put b.subs topic j k s s' known same (t.listed topic j h);
  pending =
      λ i p j f h. Subscribed-put b.subs p.event.topic j k s s' known same (t.pending i p j f h);
  below = λ j x f. below_at j x (get-put-some b.subs k j s' x f);
}
  where
    order_at :
        (j : ℕ) (x : Subscription)
        → ((k ≡ j) × (s' ≡ x)) ⊎ ((k ≢ j) × (get b.subs j ≡ some x))
        → InOrder b.buffer_size x
    order_at j x (inl (y, e)) = subst (InOrder b.buffer_size) e o
    order_at j x (inr (n, f)) = t.in_order j x f

    below_at :
        (j : ℕ) (x : Subscription)
        → ((k ≡ j) × (s' ≡ x)) ⊎ ((k ≢ j) × (get b.subs j ≡ some x))
        → j < b.created
    below_at j x (inl (y, e)) = omega (arith, t.below k s known, y)
    below_at j x (inr (n, f)) = t.below j x f

on_sub-Tidy :
    (act : Subscription → Option Subscription) (k : ℕ) (o : Option Subscription) (b : Bus)
    → ((s : Subscription)
        → get b.subs k ≡ some s
        → InOrder b.buffer_size s
        → Kept b.buffer_size s (act s))
    → get b.subs k ≡ o
    → IsTidy b
    → Tidy (on_sub act k o b)
unfolding on_sub
on_sub-Tidy act k none b keeps known t = tt
on_sub-Tidy act k (some s) b keeps known t = by_act (act s) (keeps s known (t.in_order k s known))
  where
    by_act : (o : Option Subscription) → Kept b.buffer_size s o → Tidy (moved k o b)
    by_act none h = tt
    by_act (some s') h = moved-IsTidy b k s s' known h t

passed-IsTidy :
    (b : Bus) (i : ℕ) (p : Publishing) (rest errors : List ℕ)
    → ((j : ℕ) → Among j rest → Subscribed b.subs p.event.topic j)
    → IsTidy b
    → IsTidy
        (record b { publishing = put b.publishing i (record p { rest = rest; errors = errors }) })
passed-IsTidy b i p rest errors h t = record {
  in_order = t.in_order;
  listed = t.listed;
  pending = λ k q j f a. pending_at k q j (get-put-some b.publishing i k _ q f) a;
  below = t.below;
}
  where
    pending_at :
        (k : ℕ) (q : Publishing) (j : ℕ)
        → ((i ≡ k) × (record p { rest = rest; errors = errors } ≡ q))
          ⊎ ((i ≢ k) × (get b.publishing k ≡ some q))
        → Among j q.rest
        → Subscribed b.subs q.event.topic j
    pending_at k q j (inl (y, e)) a =
        subst (λ (z : Publishing). Subscribed b.subs z.event.topic j) e
          (h j (subst (λ (z : Publishing). Among j z.rest) (sym e) a))
    pending_at k q j (inr (n, f)) a = t.pending k q j f a

on_first-Tidy :
    (act : BusEvent → Subscription → Option Subscription) (fails : BusEvent → ℕ → Bool) (i : ℕ)
    (p : Publishing) (rest : List ℕ) (b : Bus)
    → ((s : Subscription)
        → p.event.topic ≡ s.topic
        → InOrder b.buffer_size s
        → Kept b.buffer_size s (act p.event s))
    → ((j : ℕ) → Among j rest → Subscribed b.subs p.event.topic j)
    → IsTidy b
    → Tidy (on_first act fails i p rest b)
unfolding on_first on_sub
on_first-Tidy act fails i p [] b keeps known t = tt
on_first-Tidy act fails i p (k ∷ rest) b keeps known t = by_sub (get b.subs k) refl
  where
    by_act :
        (s : Subscription) (o : Option Subscription)
        → get b.subs k ≡ some s
        → Kept b.buffer_size s o
        → Tidy (
            passed i p rest
              (if fails p.event k then p.errors ++ k ∷ [] else p.errors)
              (moved k o b))
    by_act s none found h = tt
    by_act s (some s') found h =
        passed-IsTidy (record b { subs = put b.subs k s' }) i p rest _
          (λ j a. Subscribed-put b.subs p.event.topic j k s s' found h.1 (known j (inr a)))
          (moved-IsTidy b k s s' found h t)

    by_sub :
        (o : Option Subscription)
        → get b.subs k ≡ o
        → Tidy (
            passed i p rest
              (if fails p.event k then p.errors ++ k ∷ [] else p.errors)
              (on_sub (act p.event) k o b))
    by_sub none found = tt
    by_sub (some s) found =
        let (x, found', is) = known k (inl refl) in
        by_act s (act p.event s) found (
          keeps s (sym is ∙ ap (λ (z : Subscription). z.topic) (some_eq (sym found' ∙ found)))
            (t.in_order k s found))

on_publisher-Tidy :
    (act : BusEvent → Subscription → Option Subscription) (fails : BusEvent → ℕ → Bool) (i : ℕ)
    (o : Option Publishing) (b : Bus)
    → ((e : BusEvent) (s : Subscription)
        → e.topic ≡ s.topic
        → InOrder b.buffer_size s
        → Kept b.buffer_size s (act e s))
    → get b.publishing i ≡ o
    → IsTidy b
    → Tidy (on_publisher act fails i o b)
unfolding on_publisher
on_publisher-Tidy act fails i none b keeps known t = tt
on_publisher-Tidy act fails i (some p) b keeps known t =
    on_first-Tidy act fails i p p.rest b (keeps p.event) (λ j a. t.pending i p j known a) t

abbrev fresh : ℕ → Worker → Subscription
fresh topic w = record {
  topic = topic;
  worker = w;
  queue = [];
  stop = false;
  accepted = [];
  invoked = [];
  late = [];
}

add-IsTidy :
    (topic : ℕ) (w : Worker) (b : Bus)
    → InOrder b.buffer_size (fresh topic w)
    → IsTidy b
    → IsTidy (add topic w b)
unfolding add
add-IsTidy topic w b o t = record {
  in_order = λ j x f. order_at j x (get-put-some b.subs b.created j _ x f);
  listed = λ u j a. listed_at u j (Bool-cases (topic == u)) a;
  pending = λ i p j f a. still p.event.topic j (t.pending i p j f a);
  below = λ j x f. below_at j x (get-put-some b.subs b.created j _ x f);
}
  where
    still :
        (u j : ℕ) → Subscribed b.subs u j → Subscribed (put b.subs b.created (fresh topic w)) u j
    still u j (x, f, is) =
        (x, get-put_ne b.subs b.created j _ (λ y. omega (arith, t.below j x f, y)) ∙ f, is)

    order_at :
        (j : ℕ) (x : Subscription)
        → ((b.created ≡ j) × (fresh topic w ≡ x)) ⊎ ((b.created ≢ j) × (get b.subs j ≡ some x))
        → InOrder b.buffer_size x
    order_at j x (inl (y, e)) = subst (InOrder b.buffer_size) e o
    order_at j x (inr (n, f)) = t.in_order j x f

    below_at :
        (j : ℕ) (x : Subscription)
        → ((b.created ≡ j) × (fresh topic w ≡ x)) ⊎ ((b.created ≢ j) × (get b.subs j ≡ some x))
        → j < suc b.created
    below_at j x (inl (y, e)) = omega (arith, y)
    below_at j x (inr (n, f)) = omega (arith, t.below j x f)

    new_one :
        (j : ℕ)
        → (j ≡ b.created) ⊎ Among j (ids (get b.listed topic))
        → Subscribed (put b.subs b.created (fresh topic w)) topic j
    new_one j (inl y) = (
      fresh topic w,
      ap (get (put b.subs b.created (fresh topic w))) y ∙ get-put b.subs b.created (fresh topic w),
      refl,
    )
    new_one j (inr a) = still topic j (t.listed topic j a)

    listed_at :
        (u j : ℕ)
        → (topic == u ≡ true) ⊎ (topic == u ≡ false)
        → Among j (ids (get (put b.listed topic (ids (get b.listed topic) ++ b.created ∷ [])) u))
        → Subscribed (put b.subs b.created (fresh topic w)) u j
    listed_at u j (inl y) a =
        let e = same-eq topic u y in
        subst (λ (z : ℕ). Subscribed (put b.subs b.created (fresh topic w)) z j) e
          (new_one j (
            Among-append j b.created (ids (get b.listed topic)) (
              subst (λ (l : List ℕ). Among j l)
                (ap ids (
                  ap (get (put b.listed topic (ids (get b.listed topic) ++ b.created ∷ []))) (sym e)
                  ∙ get-put b.listed topic _))
                a)))
    listed_at u j (inr n) a = still u j (
        t.listed u j (
          subst (λ (l : List ℕ). Among j l)
            (ap ids (get-put_ne b.listed topic u _ (not_eq topic u n))) a))

removed-Tidy : (k : ℕ) (o : Option Subscription) (b : Bus) → IsTidy b → Tidy (remove_from k o b)
unfolding remove_from
removed-Tidy k none b t = tt
removed-Tidy k (some s) b t = record {
  in_order = t.in_order;
  listed = λ u j a. t.listed u j (listed_at u j (Bool-cases (s.topic == u)) a);
  pending = t.pending;
  below = t.below;
}
  where
    listed_at :
        (u j : ℕ)
        → (s.topic == u ≡ true) ⊎ (s.topic == u ≡ false)
        → Among j (ids (get (put b.listed s.topic (without k (ids (get b.listed s.topic)))) u))
        → Among j (ids (get b.listed u))
    listed_at u j (inl y) a =
        let e = same-eq s.topic u y in
        subst (λ (z : ℕ). Among j (ids (get b.listed z))) e
          (Among-without j k (ids (get b.listed s.topic)) (
            subst (λ (l : List ℕ). Among j l)
              (ap ids (
                ap (get (put b.listed s.topic (without k (ids (get b.listed s.topic))))) (sym e)
                ∙ get-put b.listed s.topic _))
              a))
    listed_at u j (inr n) a =
        subst (λ (l : List ℕ). Among j l)
          (ap ids (get-put_ne b.listed s.topic u _ (not_eq s.topic u n))) a

if-Tidy : (c : Bool) (o : Option Bus) → Tidy o → Tidy (if c then none else o)
if-Tidy true o t = tt
if-Tidy false o t = t

begun-Tidy : (e : BusEvent) (b : Bus) → IsTidy b → Tidy (begin_publish e b)
unfolding begin_publish
begun-Tidy e b t = if-Tidy b.closed _ (record {
  in_order = t.in_order;
  listed = t.listed;
  pending = λ i p j f a. pending_at i p j (get-put-some b.publishing b.calls i _ p f) a;
  below = t.below;
})
  where
    pending_at :
        (i : ℕ) (p : Publishing) (j : ℕ)
        → ((b.calls ≡ i)
            × (record { event = e; rest = ids (get b.listed e.topic); errors = [] } ≡ p))
          ⊎ ((b.calls ≢ i) × (get b.publishing i ≡ some p))
        → Among j p.rest
        → Subscribed b.subs p.event.topic j
    pending_at i p j (inl (y, q)) a =
        subst (λ (z : Publishing). Subscribed b.subs z.event.topic j) q
          (t.listed e.topic j (subst (λ (z : Publishing). Among j z.rest) (sym q) a))
    pending_at i p j (inr (n, f)) a = t.pending i p j f a

stop-Tidy :
    (k : ℕ) (o : Option Subscription) (b : Bus)
    → get b.subs k ≡ o
    → IsTidy b
    → Tidy (set_stop k o b)
unfolding set_stop
stop-Tidy k none b known t = tt
stop-Tidy k (some s) b known t =
    moved-IsTidy b k s _ known (stopped-Kept b.buffer_size s (t.in_order k s known)) t

closed-IsTidy : (b : Bus) → IsTidy b → IsTidy (record b { closed = true; listed = [] })
closed-IsTidy b t = record {
  in_order = t.in_order;
  listed = λ u j a. absurd a;
  pending = t.pending;
  below = t.below;
}

module _ (handler_fails : BusEvent → ℕ → Bool) where
  step-Tidy : (e : Event) (b : Bus) → IsTidy b → Tidy (step handler_fails e b)
  unfolding step
  step-Tidy (subscribe topic) b t =
      add-IsTidy topic no_worker b
        (record { conserved = refl; own = tt; bounded = omega arith; left = (refl, refl) }) t
  step-Tidy (subscribe_async topic) b t =
      add-IsTidy topic receiving b
        (record { conserved = refl; own = tt; bounded = omega arith; left = refl }) t
  step-Tidy (remove j) b t = removed-Tidy j (get b.subs j) b t
  step-Tidy (signal j) b t = stop-Tidy j (get b.subs j) b refl t
  step-Tidy (publish e) b t = begun-Tidy e b t
  step-Tidy (invoke i) b t =
      on_publisher-Tidy _ _ i (get b.publishing i) b
        (λ e s y o. invoke_sync-Kept b.buffer_size e s s.worker refl y o) refl t
  step-Tidy (enqueue i) b t =
      on_publisher-Tidy _ (λ e j. false) i (get b.publishing i) b
        (λ e s y o. enqueue_async-Kept b.buffer_size e s s.worker refl y o) refl t
  step-Tidy (skip i) b t =
      on_publisher-Tidy _ (λ e j. false) i (get b.publishing i) b
        (λ e s y o. skip_stopped-Kept b.buffer_size s s.worker o) refl t
  step-Tidy (give_up i) b t =
      on_publisher-Tidy _ (λ e j. true) i (get b.publishing i) b
        (λ e s y o. ctx_done-Kept b.buffer_size s s.worker o) refl t
  step-Tidy (receive j) b t =
      on_sub-Tidy _ j (get b.subs j) b
        (λ s k o. take_from-Kept b.buffer_size s s.worker receiving s.queue refl refl o) refl t
  step-Tidy (notice j) b t =
      on_sub-Tidy _ j (get b.subs j) b (λ s k o. see_stop-Kept b.buffer_size s s.worker refl o) refl
        t
  step-Tidy (drain j) b t =
      on_sub-Tidy _ j (get b.subs j) b
        (λ s k o. take_from-Kept b.buffer_size s s.worker draining s.queue refl refl o) refl t
  step-Tidy (exit j) b t =
      on_sub-Tidy _ j (get b.subs j) b
        (λ s k o. return_from-Kept b.buffer_size s s.worker s.queue refl refl o) refl t
  step-Tidy close b t = if-Tidy b.closed _ (closed-IsTidy b t)

  run-Tidy : (es : List Event) (b : Bus) → IsTidy b → Tidy (run handler_fails es b)
  unfolding run
  run-Tidy [] b t = t
  run-Tidy (e ∷ es) b t =
      next (step handler_fails e b) (step-Tidy e b t) (λ b' t'. run-Tidy es b' t')
    where
      next :
          (o : Option Bus)
          → Tidy o
          → ((b' : Bus) → IsTidy b' → Tidy (run handler_fails es b'))
          → Tidy (elim o [ none ↦ none | some b' ↦ run handler_fails es b' ])
      next none h r = tt
      next (some b') h r = r b' h

  new_bus-IsTidy : (n : ℕ) → IsTidy (new_bus n)
  unfolding new_bus
  new_bus-IsTidy n = record {
    in_order = λ j s f. absurd (none_ne f);
    listed = λ u j a. absurd a;
    pending = λ i p j f a. absurd (none_ne f);
    below = λ j s f. absurd (none_ne f);
  }

  -- However subscribers come and go, publishers and workers move, and the bus is closed: what the
  -- handler of a subscription was called with, followed by its queue, is what the publishers handed to
  -- it, in that order; all of it was published under the type that it subscribed to; its queue is no
  -- longer than the buffer; a sync subscription has none; and what is left in the queue once a worker
  -- has returned is exactly what was put there after it returned.
  pub run-InOrder :
      (buffer_size : ℕ) (es : List Event) (b : Bus)
      → run handler_fails es (new_bus buffer_size) ≡ some b
      → (j : ℕ) (s : Subscription) → get b.subs j ≡ some s
      → InOrder b.buffer_size s
  run-InOrder buffer_size es b h j s f =
      (tidy_of (run handler_fails es (new_bus buffer_size)) h
          (run-Tidy es (new_bus buffer_size) (new_bus-IsTidy buffer_size))).in_order
        j s f
    where
      tidy_of : (o : Option Bus) → o ≡ some b → Tidy o → IsTidy b
      tidy_of none e t = absurd (none_ne e)
      tidy_of (some c) e t = subst IsTidy (some_eq e) t
