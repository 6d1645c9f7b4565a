-- ===== src/Scheduler/Changes.antt =====
-- The calls of the scheduler, against the jobs that gocron runs (pkg/workers/scheduler/scheduler.go).
use lakta.Prelude.{
  ℕ, ◌≡◌, refl, ap, ◌∙◌, true, Option, none, some, List, get, get-erase, none_ne, then_at, else_at,
  bytes_keyed, nat_keyed, if◌then◌else◌, inl, inr, Bool-cases, arith,
}
use lakta.Scheduler.Spec.{JobSpec, JobDefinition, is_enabled, job_definition, job_options}
use lakta.Scheduler.{
  Gocron, Scheduler, Outcome, remove_job, remove, add_job, define_job, register_handler, register,
}
use lakta.Scheduler.Live.{IsLive, removed-IsLive, added-IsLive}

module _ (gocron : Gocron) where
  -- What the removal of a name leaves.
  abbrev Freed : List ℕ → Outcome → Type 0
  Freed name (s, some e) = IsLive gocron s
  Freed name (s, none) = IsLive gocron s × (get s.jobs name ≡ none)

  remove_job-Freed :
      (name : List ℕ) (job : Option ℕ) (s : Scheduler)
      → IsLive gocron s
      → get s.jobs name ≡ job
      → Freed name (remove_job gocron name job s)
  unfolding remove_job
  remove_job-Freed name none s live e = (live, e)
  remove_job-Freed name (some id) s live e = elim (Bool-cases (gocron.remove_job id)) [
    | inl y ↦ rw y (removed-IsLive gocron name s live id e, get-erase s.jobs name)
    | inr n ↦ rw n live
  ]

  pub remove-IsLive :
      (name : List ℕ) (s : Scheduler) → IsLive gocron s → IsLive gocron (remove gocron name s).0
  unfolding remove
  remove-IsLive name s live = by_outcome _ (remove_job-Freed name (get s.jobs name) s live refl)
    where
      by_outcome : (o : Outcome) → Freed name o → IsLive gocron o.0
      by_outcome (t, some e) h = h
      by_outcome (t, none) h = h.0

  add_job-IsLive :
      (name : List ℕ) (spec : JobSpec) (handler : ℕ) (def : JobDefinition) (tz : List ℕ)
      (o : Outcome)
      → Freed name o
      → o.0.def_tz ≡ tz
      → job_definition gocron.parse_duration tz spec ≡ some def
      → spec.handler ≡ some handler
      → is_enabled spec ≡ true
      → IsLive gocron (add_job gocron name spec handler def o).0
  unfolding add_job
  add_job-IsLive name spec handler def tz (s, some e) live same d h e' = live
  add_job-IsLive name spec handler def tz (s, none) (live, free) same d h e =
      elim (Bool-cases (gocron.new_job def (job_options name spec))) [
        | inl y ↦ rw y (
            added-IsLive gocron name s live spec handler def free
              (ap (λ (z : List ℕ). job_definition gocron.parse_duration z spec) same ∙ d) h e)
        | inr n ↦ rw n live
      ]

  remove_tz :
      (name : List ℕ) (job : Option ℕ) (s : Scheduler)
      → (remove_job gocron name job s).0.def_tz ≡ s.def_tz
  unfolding remove_job
  remove_tz name none s = refl
  remove_tz name (some id) s = ground arith

  define_job-IsLive :
      (name : List ℕ) (spec : JobSpec) (handler : ℕ) (def : Option JobDefinition) (s : Scheduler)
      → IsLive gocron s
      → job_definition gocron.parse_duration s.def_tz spec ≡ def
      → spec.handler ≡ some handler
      → is_enabled spec ≡ true
      → IsLive gocron (define_job gocron name spec handler def (remove gocron name s) s).0
  unfolding define_job remove
  define_job-IsLive name spec handler none s live d h e = live
  define_job-IsLive name spec handler (some def) s live d h e =
      add_job-IsLive name spec handler def s.def_tz _
        (remove_job-Freed name (get s.jobs name) s live refl) (remove_tz name (get s.jobs name) s) d
        h e

  runnable_lem :
      (spec : JobSpec) (handler : ℕ)
      → (if is_enabled spec then spec.handler else none) ≡ some handler
      → (spec.handler ≡ some handler) × (is_enabled spec ≡ true)
  runnable_lem spec handler h = elim (Bool-cases (is_enabled spec)) [
    | inl y ↦ (then_at (is_enabled spec) _ _ y h, y)
    | inr n ↦ absurd (none_ne (else_at (is_enabled spec) _ _ n h))
  ]

  register_handler-IsLive :
      (name : List ℕ) (spec : JobSpec) (handler : Option ℕ) (s : Scheduler)
      → IsLive gocron s
      → (if is_enabled spec then spec.handler else none) ≡ handler
      → IsLive gocron (register_handler gocron name spec handler s).0
  unfolding register_handler
  register_handler-IsLive name spec none s live e = remove-IsLive name s live
  register_handler-IsLive name spec (some handler) s live e =
      let (h, y) = runnable_lem spec handler e in
      define_job-IsLive name spec handler _ s live refl h y

  pub register-IsLive :
      (name : List ℕ) (spec : JobSpec) (s : Scheduler)
      → IsLive gocron s
      → IsLive gocron (register gocron name spec s).0
  unfolding register
  register-IsLive name spec s live = register_handler-IsLive name spec _ s live refl
