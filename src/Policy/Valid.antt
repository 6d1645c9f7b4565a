-- ===== src/Policy/Valid.antt =====
-- Which policies are accepted, and what they are composed of (pkg/resilience/policy/config.go).
use lakta.Prelude.{
  ◌≤◌, ◌≡◌, ◌≢◌, ◌↔◌, refl, sym, ap, ◌∙◌, ℤ, pos, negsuc, Bool, true, false, not, ◌||◌, Option,
  none, some, List, [], ◌∷◌, ◌++◌, Result, ok, err, ◌>>=◌, >>=-eq-ok, ok-injective, ltb,
  is_positive, is_negative, IsPositive, NotNegative, if◌then◌else◌, arith,
}
use lakta.Policy.{
  RetryConfig, BreakerConfig, RateLimitConfig, HedgeConfig, QueueingConfig, AdaptiveLimiterConfig,
  BulkheadConfig, PolicyConfig, Primitive, PolicyError, hedge, retry, circuit_breaker, rate_limiter,
  adaptive_limiter, bulkhead, when_positive, backoff_of, second, build_hedge, build_retry,
  build_breaker, build_rate_limit, build_bulkhead, check_queueing, build_adaptive, optional,
  timeout_layer, some_primitives, build,
}

-- The parts of a configuration that are in order.
abbrev pub IsHedge : HedgeConfig → Type 0
IsHedge c = IsPositive c.delay × NotNegative c.max_hedges

abbrev pub IsQueueing :
    {Float : Type 0} → (Float → Float → Bool) → Float → Option (QueueingConfig Float) → Type 0
IsQueueing lt one none = Unit
IsQueueing lt one (some q) =
    (lt q.initial_factor one ≡ false) × (lt q.max_factor q.initial_factor ≡ false)

abbrev pub IsAdaptive :
    {Float : Type 0} → (Float → Float → Bool) → Float → AdaptiveLimiterConfig Float → Type 0
IsAdaptive lt one c =
    (1 ≤ c.max) × (c.min ≤ c.initial) × (c.initial ≤ c.max) × IsQueueing lt one c.queueing

abbrev pub Part : {C : Type 0} → (C → Type 0) → Option C → Type 0
Part V none = Unit
Part V (some c) = V c

pub record IsValid {Float : Type 0} (lt : Float → Float → Bool) (one : Float)
    (c : PolicyConfig Float) : Type 0 where
  pub hedge : Part IsHedge c.hedge
  pub retry : Part (λ (r : RetryConfig). IsPositive r.max_attempts) c.retry
  pub circuit_breaker :
      Part (λ (b : BreakerConfig). IsPositive b.failure_threshold) c.circuit_breaker
  pub rate_limit : Part (λ (l : RateLimitConfig). IsPositive l.max) c.rate_limit
  pub adaptive_limiter : Part (IsAdaptive lt one) c.adaptive_limiter
  pub bulkhead : Part (λ (b : BulkheadConfig). 1 ≤ b.max_concurrent) c.bulkhead

not-IsPositive_iff : (z : ℤ) → (not (is_positive z) ≡ false) ↔ IsPositive z
not-IsPositive_iff (pos n) = ground arith
not-IsPositive_iff (negsuc n) = (λ h. cc, λ h. absurd h)

is_negative-NotNegative : (z : ℤ) → (is_negative z ≡ false) ↔ NotNegative z
is_negative-NotNegative (pos n) = (λ h. tt, λ h. refl)
is_negative-NotNegative (negsuc n) = (λ h. cc, λ h. absurd h)

module _ {Float : Type 0} where
  guard_iff :
      (b : Bool) (e : PolicyError) (r : Result PolicyError (Primitive Float)) (p : Primitive Float)
      (V : Type 0)
      → (b ≡ false) ↔ V
      → ((if b then err e else r) ≡ ok p) ↔ (V × (r ≡ ok p))
  guard_iff true e r p V i = (λ h. cc, λ h. cc (i.1 h.0))
  guard_iff false e r p V i = (λ h. (i.0 refl, h), λ h. h.1)

  -- A builder accepts what is valid, and makes of it what it should.
  abbrev Checks :
      {C : Type 0}
      → (C → Result PolicyError (Primitive Float))
      → (C → Type 0)
      → (C → Primitive Float)
      → Type 0
  Checks {C} make V L = (c : C) (p : Primitive Float) → (make c ≡ ok p) ↔ (V c × (p ≡ L c))

  -- What each part adds.
  abbrev pub hedge_of : HedgeConfig → Primitive Float
  hedge_of c = hedge c.delay (when_positive c.max_hedges)

  abbrev pub retry_of : RetryConfig → Primitive Float
  retry_of c = retry c.max_attempts (backoff_of c.delay c.max_delay) (when_positive c.jitter)

  abbrev pub breaker_of : BreakerConfig → Primitive Float
  breaker_of c =
      circuit_breaker c.failure_threshold (when_positive c.success_threshold)
        (when_positive c.delay)

  abbrev pub limiter_of : RateLimitConfig → Primitive Float
  limiter_of c =
      rate_limiter c.bursty c.max (if is_positive c.period then c.period else second)
        (when_positive c.max_wait)

  abbrev pub adaptive_of : AdaptiveLimiterConfig Float → Primitive Float
  adaptive_of c = adaptive_limiter c.min c.max c.initial c.queueing (when_positive c.max_wait)

  abbrev pub bulkhead_of : BulkheadConfig → Primitive Float
  bulkhead_of c = bulkhead c.max_concurrent (when_positive c.max_wait)

  done_iff :
      (p q : Primitive Float) (V : Type 0) (r : Type 0)
      → (r ↔ (V × ◌≡◌ {A = Result PolicyError (Primitive Float)} (ok q) (ok p)))
      → r ↔ (V × (p ≡ q))
  done_iff p q V r i =
      (λ h. let (v, e) = i.0 h in (v, sym (ok-injective e)), λ h. i.1 (h.0, ap ok (sym h.1)))

  build_hedge_iff : Checks build_hedge IsHedge hedge_of
  unfolding build_hedge
  build_hedge_iff c p =
      let outer = guard_iff (not (is_positive c.delay)) _ _ p _ (not-IsPositive_iff c.delay) in
      let inner =
        guard_iff (is_negative c.max_hedges) _ (ok (hedge_of c)) p _
          (is_negative-NotNegative c.max_hedges) in
      (
        λ h. let (d, k) = outer.0 h in let (m, e) = inner.0 k in ((d, m), sym (ok-injective e)),
        λ h. outer.1 (h.0.0, inner.1 (h.0.1, ap ok (sym h.1))),
      )

  build_retry_iff : Checks build_retry (λ c. IsPositive c.max_attempts) retry_of
  unfolding build_retry
  build_retry_iff c p =
      done_iff p (retry_of c) _ _
        (guard_iff (not (is_positive c.max_attempts)) _ _ p _ (not-IsPositive_iff c.max_attempts))

  build_breaker_iff : Checks build_breaker (λ c. IsPositive c.failure_threshold) breaker_of
  unfolding build_breaker
  build_breaker_iff c p = done_iff p (breaker_of c) _ _ (
      guard_iff (not (is_positive c.failure_threshold)) _ _ p _
        (not-IsPositive_iff c.failure_threshold))

  build_rate_limit_iff : Checks build_rate_limit (λ c. IsPositive c.max) limiter_of
  unfolding build_rate_limit
  build_rate_limit_iff c p =
      done_iff p (limiter_of c) _ _
        (guard_iff (not (is_positive c.max)) _ _ p _ (not-IsPositive_iff c.max))

  build_bulkhead_iff : Checks build_bulkhead (λ c. 1 ≤ c.max_concurrent) bulkhead_of
  unfolding build_bulkhead
  build_bulkhead_iff c p =
      done_iff p (bulkhead_of c) _ _ (guard_iff (ltb c.max_concurrent 1) _ _ p _ (ground arith))

  abbrev one_of : {C : Type 0} → (C → Primitive Float) → Option C → List (Primitive Float)
  one_of L none = []
  one_of L (some c) = L c ∷ []

  -- The primitives of a policy, the outermost first.
  abbrev pub layers : PolicyConfig Float → List (Primitive Float)
  layers c =
      one_of hedge_of c.hedge
      ++ one_of retry_of c.retry
      ++ one_of breaker_of c.circuit_breaker
      ++ one_of limiter_of c.rate_limit
      ++ one_of adaptive_of c.adaptive_limiter
      ++ one_of bulkhead_of c.bulkhead
      ++ timeout_layer c.timeout

  optional_iff :
      {C : Type 0} {make : C → Result PolicyError (Primitive Float)} {V : C → Type 0}
      {L : C → Primitive Float}
      → Checks make V L
      → (o : Option C) (ps : List (Primitive Float))
      → (optional make o ≡ ok ps) ↔ (Part V o × (ps ≡ one_of L o))
  optional_iff i none ps = (λ h. (tt, sym (ok-injective h)), λ h. ap ok (sym h.1))
  optional_iff {make} i (some c) ps = (
    λ h.
        let (p, made, e) = >>=-eq-ok (make c) (λ p. ok (p ∷ [])) h in
        let (v, same) = (i c p).0 made in (v, sym (ok-injective e) ∙ ap (λ q. q ∷ []) same),
    λ h. ap (λ r. r >>= λ p. ok (p ∷ [])) ((i c _).1 (h.0, refl)) ∙ ap ok (sym h.1),
  )

  chain_iff :
      (m : Result PolicyError (List (Primitive Float))) (L : List (Primitive Float)) (V W : Type 0)
      (k : List (Primitive Float) → Result PolicyError (List (Primitive Float)))
      (ps : List (Primitive Float))
      → ((xs : List (Primitive Float)) → (m ≡ ok xs) ↔ (V × (xs ≡ L)))
      → (k L ≡ ok ps) ↔ W
      → ((m >>= k) ≡ ok ps) ↔ (V × W)
  chain_iff m L V W k ps i j = (
    λ h.
        let (xs, made, e) = >>=-eq-ok m k h in
        let (v, same) = (i xs).0 made in (v, j.0 (ap k (sym same) ∙ e)),
    λ h. ap (λ r. r >>= k) ((i L).1 (h.0, refl)) ∙ j.1 h.1,
  )

  some_iff :
      (xs ps : List (Primitive Float)) → (some_primitives xs ≡ ok ps) ↔ ((xs ≢ []) × (ps ≡ xs))
  unfolding some_primitives
  some_iff [] ps = (λ h. cc, λ h. absurd (h.0 refl))
  some_iff (x ∷ xs) ps = (λ h. (λ e. cc, sym (ok-injective h)), λ h. ap ok (sym h.1))

  module _ (lt : Float → Float → Bool) (one : Float) where
    check_queueing-IsQueueing :
        (q : Option (QueueingConfig Float))
        → (check_queueing lt one q ≡ ok tt) ↔ IsQueueing lt one q
    unfolding check_queueing
    check_queueing-IsQueueing none = (λ h. tt, λ h. refl)
    check_queueing-IsQueueing (some q) = ground arith

    build_adaptive_iff : Checks (build_adaptive lt one) (IsAdaptive lt one) adaptive_of
    unfolding build_adaptive
    build_adaptive_iff c p =
        let size = guard_iff (ltb c.max 1) _ _ p (1 ≤ c.max) (ground arith) in
        let order =
          guard_iff (ltb c.initial c.min || ltb c.max c.initial) _ _ p
            ((c.min ≤ c.initial) × (c.initial ≤ c.max)) order_iff in
        (
          λ h.
              let (a, k) = size.0 h in
              let (b, k') = order.0 k in
              let (u, q, e) =
                >>=-eq-ok (check_queueing lt one c.queueing) (λ _. ok (adaptive_of c)) k' in
              (
                (a, b.0, b.1, (check_queueing-IsQueueing c.queueing).0 (q ∙ ap ok (unit_eq u))),
                sym (ok-injective e),
              ),
          λ h.
              let (a, b, d, q) = h.0 in
              size.1 (
                a,
                order.1 (
                  (b, d),
                  ap (λ r. r >>= λ _. ok (adaptive_of c))
                        ((check_queueing-IsQueueing c.queueing).1 q)
                      ∙ ap ok (sym h.1),
                ),
              ),
        )
      where
        order_iff :
            ((ltb c.initial c.min || ltb c.max c.initial) ≡ false)
            ↔ ((c.min ≤ c.initial) × (c.initial ≤ c.max))
        order_iff = ground arith

        unit_eq : (u : Unit {0}) → u ≡ tt
        unit_eq u = refl

    -- The checks in the order in which they are made.
    chained :
        (c : PolicyConfig Float) (ps : List (Primitive Float))
        → (build lt one c ≡ ok ps) ↔ (
            Part IsHedge c.hedge
            × (Part (λ (r : RetryConfig). IsPositive r.max_attempts) c.retry
                × (Part (λ (b : BreakerConfig). IsPositive b.failure_threshold) c.circuit_breaker
                    × (Part (λ (l : RateLimitConfig). IsPositive l.max) c.rate_limit
                        × (Part (IsAdaptive lt one) c.adaptive_limiter
                            × (Part (λ (b : BulkheadConfig). 1 ≤ b.max_concurrent) c.bulkhead
                                × ((layers c ≢ []) × (ps ≡ layers c))))))))
    unfolding build
    chained c ps = chain_iff _ _ _ _ _ ps (optional_iff build_hedge_iff c.hedge) (
        chain_iff _ _ _ _ _ ps (optional_iff build_retry_iff c.retry) (
          chain_iff _ _ _ _ _ ps (optional_iff build_breaker_iff c.circuit_breaker) (
            chain_iff _ _ _ _ _ ps (optional_iff build_rate_limit_iff c.rate_limit) (
              chain_iff _ _ _ _ _ ps (optional_iff build_adaptive_iff c.adaptive_limiter) (
                chain_iff _ _ _ _ _ ps (optional_iff build_bulkhead_iff c.bulkhead)
                  (some_iff (layers c) ps))))))

    -- A policy is built exactly if it has some primitive and each of its parts is in order; and then
    -- it consists of these, the hedge first and the timeout last.
    pub build_iff :
        (c : PolicyConfig Float) (ps : List (Primitive Float))
        → (build lt one c ≡ ok ps) ↔ (IsValid lt one c × (layers c ≢ []) × (ps ≡ layers c))
    build_iff c ps = (
      λ h.
          let (a, (b, (d, (e, (f, (g, (many, same))))))) = (chained c ps).0 h in
          (
            record {
              hedge = a;
              retry = b;
              circuit_breaker = d;
              rate_limit = e;
              adaptive_limiter = f;
              bulkhead = g;
            },
            many,
            same,
          ),
      λ h.
          let (v, many, same) = h in
          (chained c ps).1 (
            v.hedge,
            (
              v.retry,
              (v.circuit_breaker, (v.rate_limit, (v.adaptive_limiter, (v.bulkhead, (many, same))))),
            ),
          ),
    )
