-- ===== src/Cache/Tests.antt =====
-- Caches on concrete modules, and the theorems at them.
use lakta.Prelude.{
  ℤ, ap, Option, ℕ, ◌≡◌, refl, pos, true, false, none, some, List, [], ◌∷◌, ok, err, get, nat_keyed,
  bytes_keyed, ◌&&◌, nat_eqb, if◌then◌else◌,
}
use lakta.Cache.{Entry, Built, built, already_bound, TypedCache, named}
use lakta.Cache.Guard.{asks, named-same_handle}
use lakta.Cache.Memory.{Options, Spec, Otter, zero_spec, writing}
use lakta.Cache.Memory.Reload.{init, shutdown}
use lakta.Cache.Memory.Serving.{IsServing}
use lakta.Cache.Memory.Calls.{Call, names, reloads, steady, calls, calls-IsServing}

abbrev users : List ℕ
users = b'u' ∷ []

abbrev small : Spec
small = record zero_spec { max_size = pos 10 }

abbrev large : Spec
large = record zero_spec { max_size = pos 90 }

abbrev fading : Spec
fading = record zero_spec { max_size = pos 10; ttl = pos 5 }

-- An otter that takes everything, and whose SetMaximum has no effect on a cache without a maximum.
abbrev limited : ℤ → Option ℤ → Option ℤ
limited n none = none
limited n (some k) = some n

abbrev willing : Otter
willing = record {
  accepts = λ o. true;
  observes = λ name. true;
  set_maximum = λ o n. record o { maximum_size = limited n o.maximum_size };
}

-- A larger size is set on the cache that runs; a time to live makes another cache.
resized :
    (calls willing
      (names users 1 2 ∷ reloads (some ((users, large) ∷ [])) ∷ [])
      (init ((users, small) ∷ []) [])).mem.running
    ≡ (
      0,
      record {
        options = record { maximum_size = some (pos 90); expiry = none; stats_recorder = false };
        gauge = false;
      },
    )
      ∷ []
unfolding calls init
resized = refl

remade :
    (calls willing
      (names users 1 2 ∷ reloads (some ((users, fading) ∷ [])) ∷ [])
      (init ((users, small) ∷ []) [])).mem.running
    ≡ (
      1,
      record {
        options = record {
          maximum_size = some (pos 10);
          expiry = some (writing (pos 5));
          stats_recorder = false;
        };
        gauge = false;
      },
    )
      ∷ []
unfolding calls init
remade = refl

abbrev history : List Call
history =
    names users 1 2 ∷ reloads (some ((users, fading) ∷ [])) ∷ reloads none ∷ reloads (some []) ∷ []

resizes_limited :
    (o : Options) (n k : ℤ)
    → o.maximum_size ≡ some k
    → willing.set_maximum o n ≡ record o { maximum_size = some n }
resizes_limited o n k e = ap (λ z. record o { maximum_size = limited n z }) e

history-steady : steady willing history (init [] ((users, small) ∷ [])) ≡ true
unfolding calls init
history-steady = refl

calls-IsServing_example :
    IsServing
      (get (calls willing history (init [] ((users, small) ∷ []))).mem.specs)
      (calls willing history (init [] ((users, small) ∷ [])))
    × ((oc : ℕ)
        → get
            (shutdown
              (calls willing history (init [] ((users, small) ∷ []))).mem.live
              (calls willing history (init [] ((users, small) ∷ []))).mem).running
            oc
          ≡ none)
calls-IsServing_example =
    calls-IsServing willing (λ o. refl) (λ name. refl) (λ o n k e. resizes_limited o n k e) []
      ((users, small) ∷ []) history history-steady

-- A backend whose state is the number of boxes that it has made.
abbrev counting : ℕ → (kt vt : ℕ) → ℕ → ℕ × Built
counting b kt vt n = (7, built n)

abbrev declared : List (List ℕ × Entry ℕ)
declared = (users, record { builder = 0; bound = none }) ∷ []

abbrev users_handle : TypedCache
users_handle = record { box = 3; key_type = 1; val_type = 2 }

first_handle : (named counting users 1 2 declared 3).1 ≡ ok users_handle
unfolding named
first_handle = refl

named-same_handle_example :
    let first = named counting users 1 2 declared 3 in
    let later = asks counting ((users, 9, 9) ∷ []) first.0.0 first.0.1 in
    (users_handle.key_type ≡ 1)
    × (users_handle.val_type ≡ 2)
    × (named counting users 5 6 later.0 later.1
        ≡ (later, if nat_eqb 1 5 && nat_eqb 2 6 then ok users_handle else err (already_bound 1 2)))
named-same_handle_example =
    named-same_handle counting users 1 2 declared 3 users_handle first_handle ((users, 9, 9) ∷ []) 5
      6
