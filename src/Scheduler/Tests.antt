-- ===== src/Scheduler/Tests.antt =====
-- Jobs on concrete schedulers, and the theorems at them.
use lakta.Prelude.{ℕ, ◌≡◌, refl, pos, true, false, none, some, List, [], ◌∷◌, get, bytes_keyed}
use lakta.Scheduler.Spec.{
  JobSpec, queue, zero_spec, crontab, with_name, wait, job_definition, job_options, merged_jobs,
}
use lakta.Scheduler.{Gocron, Scheduler, register}
use lakta.Scheduler.Live.{IsLive}
use lakta.Scheduler.Reload.{SchedulerModule, init, on_reload}
use lakta.Scheduler.Reload.Changed.{IsReloaded}
use lakta.Scheduler.Reload.Settled.{on_reload-jobs}
use lakta.Scheduler.Reload.Agrees.{registers, removes, reloads, calls, calls-IsLive}

-- A gocron that takes every definition, and every interval is five.
abbrev willing : Gocron
willing = record {
  new_job = λ d o. true;
  remove_job = λ id. true;
  parse_duration = λ t. some (pos 5);
}

abbrev clean : List ℕ
clean = b'c' ∷ b'l' ∷ []

abbrev mail : List ℕ
mail = b'm' ∷ []

abbrev clean_spec : JobSpec
clean_spec = record zero_spec { schedule = b'*' ∷ []; handler = some 1 }

abbrev mail_spec : JobSpec
mail_spec = record zero_spec {
  schedule = b'@' ∷ b'e' ∷ b'v' ∷ b'e' ∷ b'r' ∷ b'y' ∷ b' ' ∷ b'5' ∷ [];
  overlap = queue;
  handler = some 2;
}

abbrev off : JobSpec
off = record zero_spec { enabled = some false }

abbrev idle : Scheduler
idle = record { def_tz = b'Z' ∷ []; jobs = []; specs = []; cron = []; created = 0 }

abbrev fresh : SchedulerModule
fresh = record { code_jobs = (clean, clean_spec) ∷ []; config_jobs = []; sched = idle }

cron_definition :
    job_definition willing.parse_duration idle.def_tz clean_spec
    ≡ some
        (crontab (b'C' ∷ b'R' ∷ b'O' ∷ b'N' ∷ b'_' ∷ b'T' ∷ b'Z' ∷ b'=' ∷ b'Z' ∷ b' ' ∷ b'*' ∷ []))
unfolding job_definition
cron_definition = refl

mail_options : job_options mail mail_spec ≡ with_name mail ∷ wait ∷ []
unfolding job_options
mail_options = refl

mail_first : get (register willing mail mail_spec idle).0.jobs mail ≡ some 0
unfolding register
mail_first = refl

-- The job that configuration switches off is gone after the reload, as is one that was registered
-- by hand.
reload_off :
    (calls willing
      (reloads (some []) ∷ registers mail mail_spec ∷ reloads (some ((clean, off) ∷ [])) ∷ [])
      fresh).sched.jobs
    ≡ []
unfolding calls merged_jobs
reload_off = refl

on_reload-jobs_example :
    IsReloaded willing idle.def_tz clean none
      (get (merged_jobs fresh.code_jobs []) clean)
      (get (on_reload willing (some []) fresh).sched.specs clean)
on_reload-jobs_example = on_reload-jobs willing (λ id. refl) [] fresh (λ c e. refl) (refl, tt) clean

calls-IsLive_example :
    IsLive willing
      (calls willing
        (reloads (some []) ∷ registers mail mail_spec ∷ removes clean ∷ [])
        (init willing idle.def_tz fresh).0).sched
calls-IsLive_example =
    calls-IsLive willing (reloads (some []) ∷ registers mail mail_spec ∷ removes clean ∷ [])
      idle.def_tz fresh
