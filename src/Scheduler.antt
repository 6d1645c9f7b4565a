-- ===== src/Scheduler.antt =====
-- pkg/workers/scheduler: jobs by name on top of gocron (scheduler.go). A handler is a number. gocron
-- is not part of the repository: whether `NewJob` takes a definition and whether `RemoveJob` takes a
-- job are the record `Gocron`, and the jobs that it runs are the calls that were made.
pub mod Spec
pub mod Live
pub mod Changes
pub mod Reload
mod Tests
use lakta.Prelude.{
  ℕ, suc, ◌+◌, ℤ, Bool, true, false, not, ◌&&◌, ◌||◌, Option, none, some, List, [], ◌∷◌, Result, ok,
  err, get, put, erase, map, ◌==◌, nat_keyed, bytes_keyed, nat_eqb, if◌then◌else◌,
}
use lakta.Scheduler.Spec.{
  JobSpec, JobDefinition, JobOption, is_enabled, job_definition, job_options,
}

pub record Gocron : Type 0 where
  pub new_job : JobDefinition → List JobOption → Bool
  pub remove_job : ℕ → Bool
  -- `time.ParseDuration`
  pub parse_duration : List ℕ → Option ℤ

pub data RegisterError : Type 0 where
  invalid_schedule : List ℕ → RegisterError
  remove_failed : List ℕ → RegisterError
  new_job_failed : List ℕ → RegisterError

-- A job that gocron runs: its ID, and what it was created from.
pub record Job : Type 0 where
  pub id : ℕ
  pub definition : JobDefinition
  pub options : List JobOption
  pub jitter : ℤ
  pub handler : ℕ

pub record Scheduler : Type 0 where
  pub def_tz : List ℕ
  pub jobs : List (List ℕ × ℕ)
  pub specs : List (List ℕ × JobSpec)
  -- gocron: the jobs that it runs, and how many IDs it has given
  pub cron : List Job
  pub created : ℕ

abbrev pub drop_job : ℕ → List Job → List Job
drop_job id [] = []
drop_job id (j ∷ cron) = let rest = drop_job id cron in if nat_eqb j.id id then rest else j ∷ rest

-- The state afterwards, and the error.
abbrev pub Outcome : Type 0
Outcome = Scheduler × Option RegisterError

abbrev pub without_job : List ℕ → ℕ → Scheduler → Scheduler
without_job name id s = record s {
  jobs = erase s.jobs name;
  specs = erase s.specs name;
  cron = drop_job id s.cron;
}

abbrev pub new_job : List ℕ → JobSpec → ℕ → JobDefinition → ℕ → Job
new_job name spec handler def id = record {
  id = id;
  definition = def;
  options = job_options name spec;
  jitter = spec.jitter;
  handler = handler;
}

abbrev pub with_job : List ℕ → JobSpec → ℕ → JobDefinition → Scheduler → Scheduler
with_job name spec handler def s = record s {
  jobs = put s.jobs name s.created;
  specs = put s.specs name spec;
  cron = new_job name spec handler def s.created ∷ s.cron;
  created = suc s.created;
}

module _ (gocron : Gocron) where
  unfoldable pub remove_job : List ℕ → Option ℕ → Scheduler → Outcome
  remove_job name none s = (s, none)
  remove_job name (some id) s =
      if gocron.remove_job id then (without_job name id s, none) else (s, some (remove_failed name))

  -- `removeLocked`, and `remove` under the lock.
  unfoldable pub remove : List ℕ → Scheduler → Outcome
  unfolding remove_job
  remove name s = remove_job name (get s.jobs name) s

  unfoldable pub add_job : List ℕ → JobSpec → ℕ → JobDefinition → Outcome → Outcome
  unfolding job_options
  add_job name spec handler def (s, some e) = (s, some e)
  add_job name spec handler def (s, none) =
      if gocron.new_job def (job_options name spec)
      then (with_job name spec handler def s, none)
      else (s, some (new_job_failed name))

  unfoldable pub define_job :
      List ℕ → JobSpec → ℕ → Option JobDefinition → Outcome → Scheduler → Outcome
  unfolding add_job
  define_job name spec handler none removed s = (s, some (invalid_schedule name))
  define_job name spec handler (some def) removed s = add_job name spec handler def removed

  unfoldable pub register_handler : List ℕ → JobSpec → Option ℕ → Scheduler → Outcome
  unfolding remove define_job job_definition
  register_handler name spec none s = remove name s
  register_handler name spec (some handler) s =
      define_job name spec handler (job_definition gocron.parse_duration s.def_tz spec)
        (remove name s) s

  unfoldable pub register : List ℕ → JobSpec → Scheduler → Outcome
  unfolding register_handler remove is_enabled
  register name spec s =
      register_handler name spec (if is_enabled spec then spec.handler else none) s
