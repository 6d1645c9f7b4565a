-- ===== src/Policy.antt =====
-- pkg/resilience/policy: a policy of the configuration is checked and composed of primitives
-- (config.go). The primitives are the failsafe-go library's: here, what their builders are told. Of a
-- float64 the code uses the order and 1, which are parameters.
pub mod Registry
pub mod Valid
pub mod Known
mod Tests
use lakta.Prelude.{
  ℕ, ℤ, pos, negsuc, Bool, true, false, not, ◌||◌, ◌&&◌, Option, none, some, List, [], ◌∷◌, ◌++◌,
  Result, ok, err, ◌>>=◌, ltb, nat_eqb, is_positive, is_negative, if◌then◌else◌,
}

pub record RetryConfig : Type 0 where
  pub max_attempts : ℤ
  pub delay : ℤ
  pub max_delay : ℤ
  pub jitter : ℤ

pub record BreakerConfig : Type 0 where
  pub failure_threshold : ℤ
  pub success_threshold : ℤ
  pub delay : ℤ

pub record RateLimitConfig : Type 0 where
  pub max : ℤ
  pub period : ℤ
  pub bursty : Bool
  pub max_wait : ℤ

pub record HedgeConfig : Type 0 where
  pub delay : ℤ
  pub max_hedges : ℤ

pub record QueueingConfig (Float : Type 0) : Type 0 where
  pub initial_factor : Float
  pub max_factor : Float

pub record AdaptiveLimiterConfig (Float : Type 0) : Type 0 where
  pub min : ℕ
  pub max : ℕ
  pub initial : ℕ
  pub max_wait : ℤ
  pub queueing : Option (QueueingConfig Float)

pub record BulkheadConfig : Type 0 where
  pub max_concurrent : ℕ
  pub max_wait : ℤ

pub record PolicyConfig (Float : Type 0) : Type 0 where
  pub timeout : ℤ
  pub retry : Option RetryConfig
  pub circuit_breaker : Option BreakerConfig
  pub rate_limit : Option RateLimitConfig
  pub hedge : Option HedgeConfig
  pub adaptive_limiter : Option (AdaptiveLimiterConfig Float)
  pub bulkhead : Option BulkheadConfig

pub data Backoff : Type 0 where
  at_once : Backoff
  fixed : ℤ → Backoff
  backoff : (delay max_delay : ℤ) → Backoff

-- An argument that was not given to a builder is `none`.
pub data Primitive (Float : Type 0) : Type 0 where
  hedge : (delay : ℤ) (max_hedges : Option ℤ) → Primitive Float
  retry : (max_attempts : ℤ) → Backoff → (jitter : Option ℤ) → Primitive Float
  circuit_breaker : (failures : ℤ) (successes delay : Option ℤ) → Primitive Float
  rate_limiter : (bursty : Bool) (max period : ℤ) (max_wait : Option ℤ) → Primitive Float
  adaptive_limiter :
      (min max initial : ℕ) (queueing : Option (QueueingConfig Float)) (max_wait : Option ℤ)
      → Primitive Float
  bulkhead : (max_concurrent : ℕ) (max_wait : Option ℤ) → Primitive Float
  timeout : ℤ → Primitive Float

pub data PolicyError : Type 0 where
  hedge_delay hedge_max retry_attempts failure_threshold rate_limit_max limiter_max : PolicyError
  limiter_order initial_factor max_factor max_concurrent no_primitives : PolicyError

abbrev pub when_positive : ℤ → Option ℤ
when_positive z = if is_positive z then some z else none

-- `time.Second`
abbrev pub second : ℤ
second = pos 1000000000

unfoldable pub backoff_of : (delay max_delay : ℤ) → Backoff
backoff_of d m =
    if is_positive d && is_positive m
    then backoff d m
    else if is_positive d
    then fixed d
    else at_once

module _ {Float : Type 0} where
  unfoldable pub build_hedge : HedgeConfig → Result PolicyError (Primitive Float)
  build_hedge c =
      if not (is_positive c.delay)
      then err hedge_delay
      else if is_negative c.max_hedges
      then err hedge_max
      else ok (hedge c.delay (when_positive c.max_hedges))

  unfoldable pub build_retry : RetryConfig → Result PolicyError (Primitive Float)
  unfolding backoff_of
  build_retry c =
      if not (is_positive c.max_attempts)
      then err retry_attempts
      else ok (retry c.max_attempts (backoff_of c.delay c.max_delay) (when_positive c.jitter))

  unfoldable pub build_breaker : BreakerConfig → Result PolicyError (Primitive Float)
  build_breaker c =
      if not (is_positive c.failure_threshold)
      then err failure_threshold
      else ok (
          circuit_breaker c.failure_threshold (when_positive c.success_threshold)
            (when_positive c.delay))

  unfoldable pub build_rate_limit : RateLimitConfig → Result PolicyError (Primitive Float)
  build_rate_limit c =
      if not (is_positive c.max)
      then err rate_limit_max
      else ok (
          rate_limiter c.bursty c.max (if is_positive c.period then c.period else second)
            (when_positive c.max_wait))

  unfoldable pub build_bulkhead : BulkheadConfig → Result PolicyError (Primitive Float)
  build_bulkhead c =
      if ltb c.max_concurrent 1
      then err max_concurrent
      else ok (bulkhead c.max_concurrent (when_positive c.max_wait))

  -- A part of a policy that is not configured adds nothing.
  abbrev pub optional :
      {C : Type 0}
      → (C → Result PolicyError (Primitive Float))
      → Option C
      → Result PolicyError (List (Primitive Float))
  optional build none = ok []
  optional build (some c) = build c >>= λ p. ok (p ∷ [])

  abbrev pub timeout_layer : ℤ → List (Primitive Float)
  timeout_layer t = if is_positive t then timeout t ∷ [] else []

  unfoldable pub some_primitives :
      List (Primitive Float) → Result PolicyError (List (Primitive Float))
  some_primitives [] = err no_primitives
  some_primitives (p ∷ ps) = ok (p ∷ ps)

  module _ (lt : Float → Float → Bool) (one : Float) where
    unfoldable pub check_queueing : Option (QueueingConfig Float) → Result PolicyError (Unit {0})
    check_queueing none = ok tt
    check_queueing (some q) =
        if lt q.initial_factor one
        then err initial_factor
        else if lt q.max_factor q.initial_factor
        then err max_factor
        else ok tt

    unfoldable pub build_adaptive :
        AdaptiveLimiterConfig Float → Result PolicyError (Primitive Float)
    unfolding check_queueing
    build_adaptive c =
        if ltb c.max 1
        then err limiter_max
        else if ltb c.initial c.min || ltb c.max c.initial
        then err limiter_order
        else check_queueing c.queueing >>= λ _.
            ok (adaptive_limiter c.min c.max c.initial c.queueing (when_positive c.max_wait))

    -- `Build`, and `buildWithMetrics` without what it counts.
    unfoldable pub build : PolicyConfig Float → Result PolicyError (List (Primitive Float))
    unfolding build_hedge build_retry build_breaker build_rate_limit build_adaptive build_bulkhead
        some_primitives
    build c = optional build_hedge c.hedge >>= λ hs. optional build_retry c.retry >>= λ rs.
        optional build_breaker c.circuit_breaker >>= λ cs.
        optional build_rate_limit c.rate_limit >>= λ ls.
        optional build_adaptive c.adaptive_limiter >>= λ as'.
        optional build_bulkhead c.bulkhead >>= λ bs.
        some_primitives (hs ++ rs ++ cs ++ ls ++ as' ++ bs ++ timeout_layer c.timeout)
