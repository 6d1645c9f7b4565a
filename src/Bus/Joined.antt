-- ===== src/Bus/Joined.antt =====
-- What Publish returns (pkg/events/bus/bus.go): the errors of its subscribers, in their order.
use lakta.Prelude.{
  ℕ, ◌≡◌, refl, sym, ap, ◌∙◌, Bool, true, false, Option, none, some, List, [], ◌∷◌, ◌++◌,
  append_assoc, append-nil, get, put, get-put, get-put_ne, nat_keyed, ◌==◌, if◌then◌else◌, inl, inr,
  same-eq, not_eq, Bool-cases,
}
use lakta.Bus.{
  BusEvent, Worker, no_worker, Subscription, Publishing, Bus, Event, invoke, invoke_sync, moved,
  on_sub, passed, on_publisher, step, run,
}

-- The subscriptions whose handler fails on an event, in the order of the list.
abbrev pub failing : (BusEvent → ℕ → Bool) → BusEvent → List ℕ → List ℕ
failing fails e [] = []
failing fails e (j ∷ rest) = let more = failing fails e rest in if fails e j then j ∷ more else more

-- Each of them is a sync subscription.
abbrev pub AllSync : List (ℕ × Subscription) → List ℕ → Type 0
AllSync subs [] = Unit
AllSync subs (j ∷ rest) =
    ((s : Subscription) × (get subs j ≡ some s) × (s.worker ≡ no_worker)) × AllSync subs rest

-- The calls of the handlers, one for each subscription.
abbrev pub invokes : ℕ → List ℕ → List Event
invokes i [] = []
invokes i (j ∷ rest) = invoke i ∷ invokes i rest

module _ (fails : BusEvent → ℕ → Bool) where
  AllSync-put :
      (subs : List (ℕ × Subscription)) (k : ℕ) (s : Subscription) (l : List ℕ)
      → s.worker ≡ no_worker
      → AllSync subs l
      → AllSync (put subs k s) l
  AllSync-put subs k s [] w a = tt
  AllSync-put subs k s (j ∷ l) w ((x, f, v), a) = (one, AllSync-put subs k s l w a)
    where
      one : (z : Subscription) × (get (put subs k s) j ≡ some z) × (z.worker ≡ no_worker)
      one = elim (Bool-cases (k == j)) [
        | inl y ↦ (s, ap (get (put subs k s)) (sym (same-eq k j y)) ∙ get-put subs k s, w)
        | inr n ↦ (x, get-put_ne subs k j s (not_eq k j n) ∙ f, v)
      ]

  abbrev called : BusEvent → Subscription → Subscription
  called e s = record s { accepted = s.accepted ++ e ∷ []; invoked = s.invoked ++ e ∷ [] }

  abbrev errors_with : BusEvent → ℕ → List ℕ → List ℕ
  errors_with e j errors = if fails e j then errors ++ j ∷ [] else errors

  -- The bus once the first handler of a Publish was called.
  abbrev after_call : ℕ → BusEvent → ℕ → List ℕ → List ℕ → Subscription → Bus → Bus
  after_call i e j rest errors s b = record b {
    subs = put b.subs j (called e s);
    publishing =
        put b.publishing i (record { event = e; rest = rest; errors = errors_with e j errors });
  }

  invoke_step :
      (b : Bus) (i : ℕ) (e : BusEvent) (j : ℕ) (rest errors : List ℕ) (s : Subscription)
      → get b.publishing i ≡ some (record { event = e; rest = j ∷ rest; errors = errors })
      → get b.subs j ≡ some s
      → s.worker ≡ no_worker
      → step fails (invoke i) b ≡ some (after_call i e j rest errors s b)
  unfolding step
  invoke_step b i e j rest errors s known found w =
      ap
        (λ (o : Option Publishing). on_publisher (λ e' s'. invoke_sync e' s' s'.worker) fails i o b)
        known
      ∙ ap
          (λ (o : Option Subscription).
            passed i (record { event = e; rest = j ∷ rest; errors = errors }) rest
              (errors_with e j errors) (on_sub (λ s'. invoke_sync e s' s'.worker) j o b))
          found
      ∙ ap
          (λ (v : Worker).
            passed i (record { event = e; rest = j ∷ rest; errors = errors }) rest
              (errors_with e j errors) (moved j (invoke_sync e s v) b))
          w

  errors_append :
      (e : BusEvent) (j : ℕ) (rest errors : List ℕ) (b : Bool)
      → (if b then errors ++ j ∷ [] else errors) ++ failing fails e rest
        ≡ errors ++ (if b then j ∷ failing fails e rest else failing fails e rest)
  errors_append e j rest errors true = append_assoc errors (j ∷ []) (failing fails e rest)
  errors_append e j rest errors false = refl

  -- A Publish whose subscribers are all sync is never held up: their handlers can be called one after
  -- the other, and the errors that it then has to join are those of all handlers that failed, in the
  -- order of the subscriptions: a handler that fails keeps none of the later ones from being called.
  pub publish-failing :
      (rest : List ℕ) (b : Bus) (i : ℕ) (e : BusEvent) (errors : List ℕ)
      → get b.publishing i ≡ some (record { event = e; rest = rest; errors = errors })
      → AllSync b.subs rest
      → (b' : Bus) × (run fails (invokes i rest) b ≡ some b')
        × (get b'.publishing i
            ≡ some (record { event = e; rest = []; errors = errors ++ failing fails e rest }))
  unfolding run
  publish-failing [] b i e errors known a = (
    b,
    refl,
    known
        ∙ ap (λ (l : List ℕ). some (record { event = e; rest = []; errors = l }))
            (sym (append-nil errors)),
  )
  publish-failing (j ∷ rest) b i e errors known ((s, found, w), a) =
      let b1 : Bus = after_call i e j rest errors s b in
      let (b', ran, is) =
        publish-failing rest b1 i e (errors_with e j errors) (get-put b.publishing i _)
          (AllSync-put b.subs j (called e s) rest w a) in
      (
        b',
        ap (λ (o : Option Bus). elim o [ none ↦ none | some c ↦ run fails (invokes i rest) c ])
              (invoke_step b i e j rest errors s known found w)
            ∙ ran,
        is
            ∙ ap (λ (l : List ℕ). some (record { event = e; rest = []; errors = l }))
                (errors_append e j rest errors (fails e j)),
      )
