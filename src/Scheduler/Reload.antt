-- ===== src/Scheduler/Reload.antt =====
-- `Init` and `OnReload` of pkg/workers/scheduler/module.go. A reload compares the specs that were
-- registered before with those that the new configuration asks for.
pub mod Changed
pub mod Settled
pub mod Agrees
use lakta.Prelude.{
  ℕ, Bool, true, false, Option, none, some, List, [], ◌∷◌, get, bytes_keyed, if◌then◌else◌,
}
use lakta.Scheduler.Spec.{JobSpec, spec_changed, merged_jobs}
use lakta.Scheduler.{Gocron, Scheduler, RegisterError, Outcome, remove, register}

-- The code's jobs, which a reload keeps, and the scheduler.
pub record SchedulerModule : Type 0 where
  pub code_jobs : List (List ℕ × JobSpec)
  pub config_jobs : List (List ℕ × JobSpec)
  pub sched : Scheduler

abbrev pub new_scheduler : List ℕ → Scheduler
new_scheduler tz = record { def_tz = tz; jobs = []; specs = []; cron = []; created = 0 }

module _ (gocron : Gocron) where
  -- `Init`: the first job that is refused ends it.
  unfoldable pub init_jobs : List (List ℕ × JobSpec) → Outcome → Outcome
  init_jobs [] o = o
  init_jobs (job ∷ jobs) (s, some e) = (s, some e)
  init_jobs ((name, spec) ∷ jobs) (s, none) = init_jobs jobs (register gocron name spec s)

  -- The time zone is one that `time.LoadLocation` knows, and `gocron.NewScheduler` succeeds.
  unfoldable pub init : List ℕ → SchedulerModule → SchedulerModule × Option RegisterError
  unfolding init_jobs merged_jobs
  init tz m =
      let (s, e) = init_jobs (merged_jobs m.code_jobs m.config_jobs) (new_scheduler tz, none) in
      (record m { sched = s }, e)

  -- Errors are logged only.
  unfoldable pub remove_unless : Option JobSpec → List ℕ → Scheduler → Scheduler
  remove_unless (some spec) name s = s
  remove_unless none name s = (remove gocron name s).0

  unfoldable pub remove_gone : (live desired : List (List ℕ × JobSpec)) → Scheduler → Scheduler
  unfolding remove_unless
  remove_gone [] desired s = s
  remove_gone ((name, old) ∷ live) desired s =
      remove_gone live desired (remove_unless (get desired name) name s)

  unfoldable pub register_if_changed : Option JobSpec → List ℕ → JobSpec → Scheduler → Scheduler
  unfolding spec_changed
  register_if_changed none name spec s = (register gocron name spec s).0
  register_if_changed (some old) name spec s =
      if spec_changed old spec then (register gocron name spec s).0 else s

  unfoldable pub register_changed : (live desired : List (List ℕ × JobSpec)) → Scheduler → Scheduler
  unfolding register_if_changed
  register_changed live [] s = s
  register_changed live ((name, spec) ∷ desired) s =
      register_changed live desired (register_if_changed (get live name) name spec s)

  unfoldable pub apply_jobs : List (List ℕ × JobSpec) → Scheduler → Scheduler
  unfolding remove_gone register_changed
  apply_jobs desired s = register_changed s.specs desired (remove_gone s.specs desired s)

  -- `none` is a configuration that does not unmarshal; else its `jobs`.
  unfoldable pub on_reload : Option (List (List ℕ × JobSpec)) → SchedulerModule → SchedulerModule
  unfolding apply_jobs
  on_reload none m = m
  on_reload (some jobs) m = record m {
    config_jobs = jobs;
    sched = apply_jobs (merged_jobs m.code_jobs jobs) m.sched;
  }
