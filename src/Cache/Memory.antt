-- ===== src/Cache/Memory.antt =====
-- pkg/cache/memory: the otter caches behind the registry (module.go, config.go). otter is not part
-- of the repository: whether it takes the options of a cache, and whether the gauge of its size can
-- be registered, are the record `Otter`, with what `SetMaximum` makes of a cache's options. A cache
-- that runs is a number with its options, and an `otterBox` goes by the number of its first cache.
pub mod Reload
pub mod Serving
pub mod Moved
pub mod Boxes
pub mod NewBox
pub mod Builds
pub mod Settled
pub mod Reloads
pub mod Calls
use lakta.Prelude.{
  ℕ, suc, ℤ, pos, negsuc, Bool, true, false, not, ◌&&◌, ◌||◌, Option, none, some, List, [], ◌∷◌,
  Result, ok, err, get, put, erase, nat_keyed, bytes_keyed, nat_eqb, int_eqb, bool_eqb, is_positive,
  if◌then◌else◌,
}
use lakta.Cache.{Entry, Bound, Built, failed, built, register, TypedCache, NamedError, named}

pub record Spec : Type 0 where
  pub max_size : ℤ
  pub ttl : ℤ
  pub ttl_access : ℤ
  pub record_stats : Bool

abbrev pub zero_spec : Spec
zero_spec = record { max_size = pos 0; ttl = pos 0; ttl_access = pos 0; record_stats = false }

pub data Expiry : Type 0 where
  accessing writing : ℤ → Expiry

pub record Options : Type 0 where
  pub maximum_size : Option ℤ
  pub expiry : Option Expiry
  pub stats_recorder : Bool

pub record Otter : Type 0 where
  pub accepts : Options → Bool
  pub observes : List ℕ → Bool
  pub set_maximum : Options → ℤ → Options

unfoldable pub expiry_of : (ttl_access ttl : ℤ) → Option Expiry
expiry_of ttl_access ttl =
    if is_positive ttl_access
    then some (accessing ttl_access)
    else if is_positive ttl
    then some (writing ttl)
    else none

unfoldable pub options : Spec → Options
unfolding expiry_of
options s = record {
  maximum_size = if is_positive s.max_size then some s.max_size else none;
  expiry = expiry_of s.ttl_access s.ttl;
  stats_recorder = s.record_stats;
}

-- A cache that otter runs, and whether its size is registered with the gauge.
pub record Running : Type 0 where
  pub options : Options
  pub gauge : Bool

pub record OtterBox : Type 0 where
  pub oc : ℕ
  pub spec : Spec
  pub name : List ℕ

pub record Memory : Type 0 where
  pub code_caches : List (List ℕ × Spec)
  pub specs : List (List ℕ × Spec)
  pub live : List (List ℕ × ℕ)
  pub boxes : List (ℕ × OtterBox)
  -- otter: the caches that run, and how many were made
  pub running : List (ℕ × Running)
  pub created : ℕ

abbrev pub spec_or_zero : Option Spec → Spec
spec_or_zero none = zero_spec
spec_or_zero (some s) = s

unfoldable pub stop : Option OtterBox → Memory → Memory
stop none m = m
stop (some b) m = record m { running = erase m.running b.oc }

unfoldable pub swap : Spec → ℕ → OtterBox → Memory × Option ℕ → Memory
swap spec p b (m, none) = m
swap spec p b (m, some oc) = record m {
  boxes = put m.boxes p (record b { oc = oc; spec = spec });
  running = erase m.running b.oc;
}

module _ (otter : Otter) where
  -- A cache whose gauge cannot be registered is left running.
  unfoldable pub observe : List ℕ → Spec → Memory → Memory × Option ℕ
  unfolding options
  observe name spec m =
      if spec.record_stats && not (otter.observes name)
      then (
        record m {
          running = put m.running m.created (record { options = options spec; gauge = false });
          created = suc m.created;
        },
        none,
      )
      else (
        record m {
          running =
              put m.running m.created
                (record { options = options spec; gauge = spec.record_stats });
          created = suc m.created;
        },
        some m.created,
      )

  -- `buildOtter`: the number of the cache.
  unfoldable pub build_otter : List ℕ → Spec → Memory → Memory × Option ℕ
  unfolding observe options
  build_otter name spec m = if otter.accepts (options spec) then observe name spec m else (m, none)

  unfoldable pub keep_box : List ℕ → Spec → Memory × Option ℕ → Memory × Built
  keep_box name spec (m, none) = (m, failed)
  keep_box name spec (m, some oc) = (
    record m {
      live = put m.live name oc;
      boxes = put m.boxes oc (record { oc = oc; spec = spec; name = name });
    },
    built oc,
  )

  -- `buildBox`, with the types that the registry passes.
  unfoldable pub build_box : List ℕ → (kt vt : ℕ) → Memory → Memory × Built
  unfolding keep_box build_otter
  build_box name kt vt m =
      keep_box name (spec_or_zero (get m.specs name))
        (build_otter name (spec_or_zero (get m.specs name)) m)

  abbrev pub resize : ℤ → Option Running → ℕ → List (ℕ × Running) → List (ℕ × Running)
  resize n none oc running = running
  resize n (some r) oc running =
      put running oc (record r { options = otter.set_maximum r.options n })

  unfoldable pub set_maximum : Spec → ℕ → OtterBox → Memory → Memory
  set_maximum spec p b m = record m {
    boxes = put m.boxes p (record b { spec = spec });
    running = resize spec.max_size (get m.running b.oc) b.oc m.running;
  }

  unfoldable pub rebuild : Spec → ℕ → OtterBox → Memory → Memory
  unfolding swap build_otter
  rebuild spec p b m = swap spec p b (build_otter b.name spec m)

unfoldable pub spec_eqb : Spec → Spec → Bool
spec_eqb a b =
    int_eqb a.max_size b.max_size
    && int_eqb a.ttl b.ttl
    && int_eqb a.ttl_access b.ttl_access
    && bool_eqb a.record_stats b.record_stats

unfoldable pub only_max_size_changed : Spec → Spec → Bool
only_max_size_changed a b =
    not (int_eqb a.max_size b.max_size)
    && int_eqb a.ttl b.ttl
    && int_eqb a.ttl_access b.ttl_access
    && bool_eqb a.record_stats b.record_stats
