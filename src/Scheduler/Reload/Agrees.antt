-- ===== src/Scheduler/Reload/Agrees.antt =====
-- Sequences of calls of the scheduler, reloads included, whatever gocron answers.
use lakta.Prelude.{ℕ, Option, none, some, List, [], ◌∷◌, get, bytes_keyed, inl, inr, Bool-cases}
use lakta.Scheduler.Spec.{JobSpec, spec_changed, merged_jobs}
use lakta.Scheduler.{Gocron, Scheduler, Outcome, remove, register}
use lakta.Scheduler.Live.{IsLive, empty-IsLive}
use lakta.Scheduler.Changes.{remove-IsLive, register-IsLive}
use lakta.Scheduler.Reload.{
  SchedulerModule, new_scheduler, init_jobs, init, remove_unless, remove_gone, register_if_changed,
  register_changed, apply_jobs, on_reload,
}

pub data Call : Type 0 where
  registers : List ℕ → JobSpec → Call
  removes : List ℕ → Call
  reloads : Option (List (List ℕ × JobSpec)) → Call

module _ (gocron : Gocron) where
  unfoldable pub call : Call → SchedulerModule → SchedulerModule
  unfolding on_reload register remove
  call (registers name spec) m = record m { sched = (register gocron name spec m.sched).0 }
  call (removes name) m = record m { sched = (remove gocron name m.sched).0 }
  call (reloads jobs) m = on_reload gocron jobs m

  unfoldable pub calls : List Call → SchedulerModule → SchedulerModule
  unfolding call
  calls [] m = m
  calls (c ∷ cs) m = calls cs (call c m)

  remove_unless-IsLive :
      (wanted : Option JobSpec) (name : List ℕ) (s : Scheduler)
      → IsLive gocron s
      → IsLive gocron (remove_unless gocron wanted name s)
  unfolding remove_unless
  remove_unless-IsLive (some spec) name s live = live
  remove_unless-IsLive none name s live = remove-IsLive gocron name s live

  remove_gone-IsLive :
      (old desired : List (List ℕ × JobSpec)) (s : Scheduler)
      → IsLive gocron s
      → IsLive gocron (remove_gone gocron old desired s)
  unfolding remove_gone
  remove_gone-IsLive [] desired s live = live
  remove_gone-IsLive ((name, spec) ∷ old) desired s live =
      remove_gone-IsLive old desired (remove_unless gocron (get desired name) name s)
        (remove_unless-IsLive (get desired name) name s live)

  register_if_changed-IsLive :
      (old : Option JobSpec) (name : List ℕ) (spec : JobSpec) (s : Scheduler)
      → IsLive gocron s
      → IsLive gocron (register_if_changed gocron old name spec s)
  unfolding register_if_changed
  register_if_changed-IsLive none name spec s live = register-IsLive gocron name spec s live
  register_if_changed-IsLive (some old) name spec s live =
      elim (Bool-cases (spec_changed old spec)) [
        | inl y ↦ rw y (register-IsLive gocron name spec s live)
        | inr n ↦ rw n live
      ]

  register_changed-IsLive :
      (old desired : List (List ℕ × JobSpec)) (s : Scheduler)
      → IsLive gocron s
      → IsLive gocron (register_changed gocron old desired s)
  unfolding register_changed
  register_changed-IsLive old [] s live = live
  register_changed-IsLive old ((name, spec) ∷ desired) s live =
      register_changed-IsLive old desired (register_if_changed gocron (get old name) name spec s)
        (register_if_changed-IsLive (get old name) name spec s live)

  call-IsLive :
      (c : Call) (m : SchedulerModule) → IsLive gocron m.sched → IsLive gocron (call c m).sched
  unfolding call on_reload apply_jobs
  call-IsLive (registers name spec) m live = register-IsLive gocron name spec m.sched live
  call-IsLive (removes name) m live = remove-IsLive gocron name m.sched live
  call-IsLive (reloads none) m live = live
  call-IsLive (reloads (some jobs)) m live =
      register_changed-IsLive m.sched.specs (merged_jobs m.code_jobs jobs) _
        (remove_gone-IsLive m.sched.specs (merged_jobs m.code_jobs jobs) m.sched live)

  calls_lem :
      (cs : List Call) (m : SchedulerModule)
      → IsLive gocron m.sched
      → IsLive gocron (calls cs m).sched
  unfolding calls
  calls_lem [] m live = live
  calls_lem (c ∷ cs) m live = calls_lem cs (call c m) (call-IsLive c m live)

  init_jobs-IsLive :
      (jobs : List (List ℕ × JobSpec)) (o : Outcome)
      → IsLive gocron o.0
      → IsLive gocron (init_jobs gocron jobs o).0
  unfolding init_jobs
  init_jobs-IsLive [] o live = live
  init_jobs-IsLive (job ∷ jobs) (s, some e) live = live
  init_jobs-IsLive ((name, spec) ∷ jobs) (s, none) live =
      init_jobs-IsLive jobs (register gocron name spec s) (register-IsLive gocron name spec s live)

  -- After Init, also one that gives up, and then any calls of Register and remove and any reloads,
  -- the scheduler and gocron agree, whatever gocron refuses: each job that runs was built from the
  -- spec that stands under its name, which is enabled and has that handler, with the jitter, the
  -- options and the definition of that spec; each name that has a job has one that runs; no two
  -- names have the same job, and a name without a job has no spec.
  pub calls-IsLive :
      (cs : List Call) (tz : List ℕ) (m : SchedulerModule)
      → IsLive gocron (calls cs (init gocron tz m).0).sched
  unfolding init
  calls-IsLive cs tz m = calls_lem cs (init gocron tz m).0 (
      init_jobs-IsLive (merged_jobs m.code_jobs m.config_jobs) (new_scheduler tz, none)
        (empty-IsLive gocron tz))
