-- ===== src/Scheduler/Spec.antt =====
-- `JobSpec`, `OverlapPolicy` and the merging of jobs (pkg/workers/scheduler/config.go), and
-- `specChanged` of module.go. Texts are ASCII bytes.
pub mod Overlay
use lakta.Prelude.{
  ℕ, ℤ, pos, negsuc, zero, suc, Bool, true, false, not, ◌&&◌, ◌||◌, Option, none, some, List, [],
  ◌∷◌, ◌++◌, get, put, leb, nat_eqb, int_eqb, bool_eqb, ◌==◌, nat_keyed, bytes_keyed, if◌then◌else◌,
}
use lakta.Config.Keys.{cut_prefix}

-- `""` is `unset`, and a text that is none of the constants is `unknown`.
pub data OverlapPolicy : Type 0 where
  unset skip queue allow : OverlapPolicy
  unknown : List ℕ → OverlapPolicy

pub record JobSpec : Type 0 where
  pub schedule : List ℕ
  pub timezone : List ℕ
  pub jitter : ℤ
  pub overlap : OverlapPolicy
  pub enabled : Option Bool
  pub handler : Option ℕ

abbrev pub zero_spec : JobSpec
zero_spec = record {
  schedule = [];
  timezone = [];
  jitter = pos 0;
  overlap = unset;
  enabled = none;
  handler = none;
}

pub data JobDefinition : Type 0 where
  duration : ℤ → JobDefinition
  crontab : List ℕ → JobDefinition

pub data JobOption : Type 0 where
  with_name : List ℕ → JobOption
  -- the singleton modes `LimitModeReschedule` and `LimitModeWait`
  reschedule wait : JobOption

unfoldable pub is_enabled : JobSpec → Bool
is_enabled s = elim s.enabled [ none ↦ true | some b ↦ b ]

abbrev pub or_text : List ℕ → List ℕ → List ℕ
or_text [] old = old
or_text (c ∷ new) old = c ∷ new

abbrev pub or_int : ℤ → ℤ → ℤ
or_int (negsuc n) old = negsuc n
or_int (pos n) old = if nat_eqb n 0 then old else pos n

abbrev pub or_policy : OverlapPolicy → OverlapPolicy → OverlapPolicy
or_policy unset old = old
or_policy skip old = skip
or_policy queue old = queue
or_policy allow old = allow
or_policy (unknown t) old = unknown t

abbrev pub or_flag : Option Bool → Option Bool → Option Bool
or_flag none old = old
or_flag (some b) old = some b

unfoldable pub overlaid_with : JobSpec → JobSpec → JobSpec
overlaid_with s o = record {
  schedule = or_text o.schedule s.schedule;
  timezone = or_text o.timezone s.timezone;
  jitter = or_int o.jitter s.jitter;
  overlap = or_policy o.overlap s.overlap;
  enabled = or_flag o.enabled s.enabled;
  handler = s.handler;
}

abbrev pub or_zero : Option JobSpec → JobSpec
or_zero none = zero_spec
or_zero (some s) = s

unfoldable pub overlay_jobs :
    List (List ℕ × JobSpec) → List (List ℕ × JobSpec) → List (List ℕ × JobSpec)
unfolding overlaid_with
overlay_jobs merged [] = merged
overlay_jobs merged ((name, override) ∷ jobs) =
    overlay_jobs (put merged name (overlaid_with (or_zero (get merged name)) override)) jobs

unfoldable pub merged_jobs :
    List (List ℕ × JobSpec) → List (List ℕ × JobSpec) → List (List ℕ × JobSpec)
unfolding overlay_jobs
merged_jobs code_jobs jobs = overlay_jobs code_jobs jobs

-- `none` where no option is given.
unfoldable pub gocron_mode : OverlapPolicy → Option JobOption
gocron_mode allow = none
gocron_mode queue = some wait
gocron_mode p = some reschedule

abbrev pub every_prefix : List ℕ
every_prefix = b'@' ∷ b'e' ∷ b'v' ∷ b'e' ∷ b'r' ∷ b'y' ∷ []

abbrev pub cron_tz : List ℕ
cron_tz = b'C' ∷ b'R' ∷ b'O' ∷ b'N' ∷ b'_' ∷ b'T' ∷ b'Z' ∷ b'=' ∷ []

abbrev pub is_space : ℕ → Bool
is_space c = nat_eqb c b' ' || (leb 9 c && leb c 13)

abbrev pub trim_left : List ℕ → List ℕ
trim_left [] = []
trim_left (c ∷ s) = let rest = trim_left s in if is_space c then rest else c ∷ s

-- White space at the end goes as well.
abbrev pub trim_right : List ℕ → List ℕ
trim_right [] = []
trim_right (c ∷ s) =
    let rest = trim_right s in
    elim rest [ [] ↦ if is_space c then [] else c ∷ [] | d ∷ t ↦ c ∷ d ∷ t ]

-- `strings.TrimSpace`
abbrev pub trim_space : List ℕ → List ℕ
trim_space s = trim_right (trim_left s)

unfoldable pub with_timezone : List ℕ → List ℕ → List ℕ
with_timezone [] schedule = schedule
with_timezone (c ∷ tz) schedule = cron_tz ++ (c ∷ tz) ++ b' ' ∷ schedule

-- `none` is an error of the interval's syntax.
unfoldable pub job_definition : (List ℕ → Option ℤ) → List ℕ → JobSpec → Option JobDefinition
unfolding cut_prefix with_timezone
job_definition parse_duration default_tz s = elim (cut_prefix every_prefix s.schedule) [
  | none ↦ some (crontab (with_timezone (or_text s.timezone default_tz) s.schedule))
  | some raw ↦ elim (parse_duration (trim_space raw)) [ none ↦ none | some d ↦ some (duration d) ]
]

unfoldable pub job_options : List ℕ → JobSpec → List JobOption
unfolding gocron_mode
job_options name s = elim (gocron_mode s.overlap) [
  | none ↦ with_name name ∷ []
  | some mode ↦ with_name name ∷ mode ∷ []
]

abbrev pub policy_eqb : OverlapPolicy → OverlapPolicy → Bool
policy_eqb unset unset = true
policy_eqb skip skip = true
policy_eqb queue queue = true
policy_eqb allow allow = true
policy_eqb (unknown s) (unknown t) = s == t
policy_eqb p q = false

unfoldable pub spec_changed : JobSpec → JobSpec → Bool
unfolding is_enabled
spec_changed a b =
    not (a.schedule == b.schedule)
    || not (a.timezone == b.timezone)
    || not (int_eqb a.jitter b.jitter)
    || not (policy_eqb a.overlap b.overlap)
    || not (bool_eqb (is_enabled a) (is_enabled b))
