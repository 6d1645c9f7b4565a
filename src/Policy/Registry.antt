-- ===== src/Policy/Registry.antt =====
-- The registry of policies: `Init` of pkg/resilience/policy/module.go, and registry.go. A policy that
-- is given in code is a number. What an executor does with a call is failsafe-go's; whether the gauges
-- of a limiter can be registered is a parameter.
use lakta.Prelude.{
  sort_texts, ℕ, Bool, Option, none, some, List, [], ◌∷◌, Result, ok, err, ◌>>=◌, get, put,
  bytes_keyed, nat_eqb, if◌then◌else◌,
}
use lakta.Policy.{PolicyConfig, AdaptiveLimiterConfig, Primitive, PolicyError, build}

-- `failsafe.With`
pub data Executor (Float : Type 0) : Type 0 where
  of_code : List ℕ → Executor Float
  of_config : List (Primitive Float) → Executor Float

pub data InitError : Type 0 where
  no_code_primitives gauges_failed : List ℕ → InitError
  build_failed : List ℕ → PolicyError → InitError

module _ {Float : Type 0} where
  unfoldable pub add_code :
      List ℕ
      → List ℕ
      → List (List ℕ × Executor Float)
      → Result InitError (List (List ℕ × Executor Float))
  add_code name [] executors = err (no_code_primitives name)
  add_code name (p ∷ ps) executors = ok (put executors name (of_code (p ∷ ps)))

  unfoldable pub add_all_code :
      List (List ℕ × List ℕ)
      → List (List ℕ × Executor Float)
      → Result InitError (List (List ℕ × Executor Float))
  unfolding add_code
  add_all_code [] executors = ok executors
  add_all_code ((name, ps) ∷ policies) executors =
      add_code name ps executors >>= λ more. add_all_code policies more

  module _ (lt : Float → Float → Bool) (one : Float) (gauges : List ℕ → Bool) where
    unfoldable pub register_gauges :
        List ℕ → Option (AdaptiveLimiterConfig Float) → Result InitError (Unit {0})
    register_gauges name none = ok tt
    register_gauges name (some limiter) = if gauges name then ok tt else err (gauges_failed name)

    unfoldable pub add_built :
        List ℕ
        → PolicyConfig Float
        → Result PolicyError (List (Primitive Float))
        → List (List ℕ × Executor Float)
        → Result InitError (List (List ℕ × Executor Float))
    unfolding register_gauges
    add_built name pc (err e) executors = err (build_failed name e)
    add_built name pc (ok ps) executors =
        register_gauges name pc.adaptive_limiter >>= λ _. ok (put executors name (of_config ps))

    unfoldable pub add_all_built :
        List (List ℕ × PolicyConfig Float)
        → List (List ℕ × Executor Float)
        → Result InitError (List (List ℕ × Executor Float))
    unfolding add_built build
    add_all_built [] executors = ok executors
    add_all_built ((name, pc) ∷ policies) executors =
        add_built name pc (build lt one pc) executors >>= λ more. add_all_built policies more

    unfoldable pub init :
        List (List ℕ × List ℕ)
        → List (List ℕ × PolicyConfig Float)
        → Result InitError (List (List ℕ × Executor Float))
    unfolding add_all_code add_all_built
    init code policies = add_all_code code [] >>= λ executors. add_all_built policies executors

  abbrev pub names : List (List ℕ × Executor Float) → List (List ℕ)
  names [] = []
  names ((name, e) ∷ executors) = name ∷ names executors

  abbrev pub answered :
      List (List ℕ × Executor Float)
      → Option (Executor Float)
      → Result (List (List ℕ)) (Executor Float)
  answered executors none = err (sort_texts (names executors))
  answered executors (some e) = ok e

  -- `Executor`: the error lists the known names.
  unfoldable pub executor :
      List (List ℕ × Executor Float) → List ℕ → Result (List (List ℕ)) (Executor Float)
  executor executors name = answered executors (get executors name)

-- `Get`, once the executor has returned a result of type `any`: it is asserted to the type T. `none`
-- is a nil, and a result of another type is an error.
unfoldable pub typed_result :
    (is_interface : ℕ → Bool) (implements : ℕ → ℕ → Bool) (type : ℕ)
    → Option (ℕ × ℕ)
    → Option (ℕ × ℕ)
typed_result is_interface implements type none = none
typed_result is_interface implements type (some (t, x)) =
    if (if is_interface type then implements t type else nat_eqb t type) then some (t, x) else none
