-- ===== src/Policy/Tests.antt =====
-- Policies on concrete configurations, and the theorems at them. A float64 is a number of hundredths.
use lakta.Prelude.{
  ℕ, ◌≡◌, refl, pos, true, none, some, List, [], ◌∷◌, ok, err, ◌↔◌, ◌≢◌, bytes_keyed, ltb, nat_eqb,
}
use lakta.Policy.{PolicyConfig, retry, timeout, fixed, build, retry_attempts, no_primitives}
use lakta.Policy.Valid.{IsValid, layers, build_iff}
use lakta.Policy.Registry.{Executor, of_config, typed_result}

abbrev empty : PolicyConfig ℕ
empty = record {
  timeout = pos 0;
  retry = none;
  circuit_breaker = none;
  rate_limit = none;
  hedge = none;
  adaptive_limiter = none;
  bulkhead = none;
}

abbrev patient : PolicyConfig ℕ
patient = record empty {
  timeout = pos 9;
  retry = some (record { max_attempts = pos 3; delay = pos 2; max_delay = pos 0; jitter = pos 0 });
}

abbrev eager : PolicyConfig ℕ
eager = record patient {
  retry = some (record { max_attempts = pos 0; delay = pos 2; max_delay = pos 0; jitter = pos 0 });
}

patient_layers :
    build ltb 100 patient ≡ ok (retry (pos 3) (fixed (pos 2)) none ∷ timeout (pos 9) ∷ [])
unfolding build
patient_layers = refl

eager_refused : build ltb 100 eager ≡ err retry_attempts
unfolding build
eager_refused = refl

empty_refused : build ltb 100 empty ≡ err no_primitives
unfolding build
empty_refused = refl

build_iff_example :
    (build ltb 100 patient ≡ ok (layers patient))
    ↔ (IsValid ltb 100 patient × (layers patient ≢ []) × (layers patient ≡ layers patient))
build_iff_example = build_iff ltb 100 patient (layers patient)

abbrev api : List ℕ
api = b'a' ∷ []

abbrev coded : List (List ℕ × List ℕ)
coded = (api, 5 ∷ []) ∷ []

abbrev configured : List (List ℕ × PolicyConfig ℕ)
configured = (api, patient) ∷ []

abbrev known : List (List ℕ × Executor ℕ)
known = (api, of_config (retry (pos 3) (fixed (pos 2)) none ∷ timeout (pos 9) ∷ [])) ∷ []

-- Type 1 is an interface. A result of its own type comes through; a nil of an interface does not.
nil_result : typed_result (λ t. nat_eqb t 1) (λ t i. true) 1 none ≡ none
unfolding typed_result
nil_result = refl

some_result : typed_result (λ t. nat_eqb t 1) (λ t i. true) 1 (some (7, 3)) ≡ some (7, 3)
unfolding typed_result
some_result = refl
