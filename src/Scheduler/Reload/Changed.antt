-- ===== src/Scheduler/Reload/Changed.antt =====
-- What one call of Register or remove leaves, where RemoveJob does not fail
-- (pkg/workers/scheduler/scheduler.go).
use lakta.Prelude.{
  ℤ, Bool, false, int_eqb, bool_eqb, int_eqb-eq, bool_eqb-eq, ==-refl, ◌⊎◌, not, ◌||◌, ℕ, ◌≡◌, refl,
  sym, ap, subst, ◌∙◌, true, Option, none, some, List, get, get-put_if, get-erase_if, ◌==◌, same-eq,
  bytes_keyed, if◌then◌else◌, inl, inr, Bool-cases, arith,
}
use lakta.Scheduler.Spec.{
  OverlapPolicy, unset, skip, queue, allow, unknown, policy_eqb, JobSpec, JobDefinition, is_enabled,
  job_definition, job_options, spec_changed,
}
use lakta.Scheduler.{
  Gocron, Scheduler, Outcome, remove_job, remove, add_job, define_job, register_handler, register,
}
use lakta.Scheduler.Live.{HasSpecs}
use lakta.Scheduler.Reload.{register_if_changed}

-- The specs agree in what is compared: all but the handler.
pub record IsSame (a b : JobSpec) : Type 0 where
  pub schedules : a.schedule ≡ b.schedule
  pub timezones : a.timezone ≡ b.timezone
  pub jitters : a.jitter ≡ b.jitter
  pub overlaps : a.overlap ≡ b.overlap
  pub enabled : is_enabled a ≡ is_enabled b

policy_eqb-eq : (p q : OverlapPolicy) → policy_eqb p q ≡ true → p ≡ q
policy_eqb-eq unset unset h = refl
policy_eqb-eq skip skip h = refl
policy_eqb-eq queue queue h = refl
policy_eqb-eq allow allow h = refl
policy_eqb-eq (unknown s) (unknown t) h = ap unknown (same-eq s t h)
policy_eqb-eq p q h = absurd (cc h)

policy_eqb_refl : (p : OverlapPolicy) → policy_eqb p p ≡ true
policy_eqb_refl unset = refl
policy_eqb_refl skip = refl
policy_eqb_refl queue = refl
policy_eqb_refl allow = refl
policy_eqb_refl (unknown s) = ==-refl s

int_eqb_refl : (n : ℤ) → int_eqb n n ≡ true
int_eqb_refl n = ground arith

bool_eqb_refl : (b : Bool) → bool_eqb b b ≡ true
bool_eqb_refl b = ground arith

neither : (p q : Bool) → (p || not q) ≡ false → (p ≡ false) × (q ≡ true)
neither true q h = absurd (cc h)
neither false true h = (refl, refl)
neither false false h = absurd (cc h)

both_not : (p q : Bool) → p ≡ false → q ≡ true → (p || not q) ≡ false
both_not p q e h = rw (e, h) refl

negated : (b : Bool) → not b ≡ false → b ≡ true
negated true h = refl
negated false h = absurd (cc h)

IsSame-unchanged : (a b : JobSpec) → IsSame a b → spec_changed a b ≡ false
unfolding spec_changed
IsSame-unchanged a b s =
    both_not _ _
      (both_not _ _
        (both_not _ _
          (both_not _ _
            (ap not (subst (λ x. a.schedule == x ≡ true) s.schedules (==-refl a.schedule)))
            (subst (λ x. a.timezone == x ≡ true) s.timezones (==-refl a.timezone)))
          (subst (λ x. int_eqb a.jitter x ≡ true) s.jitters (int_eqb_refl a.jitter)))
        (subst (λ x. policy_eqb a.overlap x ≡ true) s.overlaps (policy_eqb_refl a.overlap)))
      (subst (λ x. bool_eqb (is_enabled a) x ≡ true) s.enabled (bool_eqb_refl (is_enabled a)))

unchanged-IsSame : (a b : JobSpec) → spec_changed a b ≡ false → IsSame a b
unfolding spec_changed
unchanged-IsSame a b h =
    let (h₁, e₁) = neither _ (bool_eqb (is_enabled a) (is_enabled b)) h in
    let (h₂, e₂) = neither _ (policy_eqb a.overlap b.overlap) h₁ in
    let (h₃, e₃) = neither _ (int_eqb a.jitter b.jitter) h₂ in
    let (h₄, e₄) = neither _ (a.timezone == b.timezone) h₃ in
    record {
      schedules = same-eq a.schedule b.schedule (negated _ h₄);
      timezones = same-eq a.timezone b.timezone e₄;
      jitters = int_eqb-eq a.jitter b.jitter e₃;
      overlaps = policy_eqb-eq a.overlap b.overlap e₂;
      enabled = bool_eqb-eq (is_enabled a) (is_enabled b) e₁;
    }

spec_changed-cases :
    (a b : JobSpec)
    → ((spec_changed a b ≡ false) × IsSame a b) ⊎ ((spec_changed a b ≡ true) × ¬ IsSame a b)
spec_changed-cases a b = elim (Bool-cases (spec_changed a b)) [
  | inr e ↦ inl (e, unchanged-IsSame a b e)
  | inl e ↦ inr (e, λ s. absurd (cc (e, IsSame-unchanged a b s)))
]

module _ (gocron : Gocron) where
  abbrev defined_as : List ℕ → Option JobSpec → JobSpec → Option JobDefinition → Option JobSpec
  defined_as name current spec none = current
  defined_as name current spec (some def) =
      if gocron.new_job def (job_options name spec) then some spec else none

  abbrev handled_as : List ℕ → List ℕ → Option JobSpec → JobSpec → Option ℕ → Option JobSpec
  handled_as tz name current spec none = none
  handled_as tz name current spec (some handler) =
      defined_as name current spec (job_definition gocron.parse_duration tz spec)

  -- The spec that stands under a name once a spec is registered there: none if it is disabled, has no
  -- handler or is refused by gocron, and the one before if its interval has no meaning.
  abbrev pub registered_as : List ℕ → List ℕ → Option JobSpec → JobSpec → Option JobSpec
  registered_as tz name current spec =
      handled_as tz name current spec (if is_enabled spec then spec.handler else none)

  abbrev pub settled : List ℕ → List ℕ → (live current : Option JobSpec) → JobSpec → Option JobSpec
  settled tz name none current spec = registered_as tz name current spec
  settled tz name (some old) current spec =
      if spec_changed old spec then registered_as tz name current spec else current

  -- The spec under a name after a reload that asks for `wanted` there.
  abbrev pub reloaded : List ℕ → List ℕ → (current wanted : Option JobSpec) → Option JobSpec
  reloaded tz name current none = none
  reloaded tz name current (some spec) = settled tz name current current spec

  -- The same in terms of the fields of a spec: nothing if none is asked for; the one of before if it
  -- agrees; else what a registration leaves.
  abbrev pub IsReloaded :
      List ℕ → List ℕ → (current wanted : Option JobSpec) → Option JobSpec → Type 0
  IsReloaded tz name current none result = result ≡ none
  IsReloaded tz name none (some spec) result = result ≡ registered_as tz name none spec
  IsReloaded tz name (some old) (some spec) result =
      (IsSame old spec × (result ≡ some old))
      ⊎ ((¬ IsSame old spec) × (result ≡ registered_as tz name (some old) spec))

  pub reloaded-IsReloaded :
      (tz name : List ℕ) (current wanted : Option JobSpec)
      → IsReloaded tz name current wanted (reloaded tz name current wanted)
  reloaded-IsReloaded tz name current none = refl
  reloaded-IsReloaded tz name none (some spec) = refl
  reloaded-IsReloaded tz name (some old) (some spec) = elim (spec_changed-cases old spec) [
    | inl (e, same) ↦ inl (same, rw e refl)
    | inr (e, differ) ↦ inr (differ, rw e refl)
  ]

  -- What a change of one name leaves.
  pub record Changed (name : List ℕ) (to : Option JobSpec) (s s' : Scheduler) : Type 0 where
    pub specs : (c : List ℕ) → get s'.specs c ≡ (if name == c then to else get s.specs c)
    pub has_specs : HasSpecs s'
    pub same_tz : s'.def_tz ≡ s.def_tz

  unchanged : (name : List ℕ) (s : Scheduler) → HasSpecs s → Changed name (get s.specs name) s s
  unchanged name s h = record {
    specs = λ c. elim (Bool-cases (name == c)) [
      | inl e ↦ rw e (ap (get s.specs) (sym (same-eq name c e)))
      | inr e ↦ rw e refl
    ];
    has_specs = h;
    same_tz = refl;
  }

  module _ (removable : (id : ℕ) → gocron.remove_job id ≡ true) where
    pub remove_job-Changed :
        (name : List ℕ) (job : Option ℕ) (s : Scheduler)
        → HasSpecs s
        → get s.jobs name ≡ job
        → Changed name none s (remove_job gocron name job s).0
          × ((remove_job gocron name job s).1 ≡ none)
    unfolding remove_job
    remove_job-Changed name none s h e =
        (subst (λ o. Changed name o s s) (h name e) (unchanged name s h), refl)
    remove_job-Changed name (some id) s h e = rw (removable id) (
      record {
        specs = get-erase_if s.specs name;
        has_specs = λ c gone.
            get-erase_if s.specs name c ∙ still c (sym (get-erase_if s.jobs name c) ∙ gone);
        same_tz = refl;
      },
      refl,
    )
      where
        still :
            (c : List ℕ)
            → (if name == c then none else get s.jobs c) ≡ none
            → (if name == c then none else get s.specs c) ≡ none
        still c gone = ground (arith, h c)

    added-Changed :
        (name : List ℕ) (spec : JobSpec) (handler : ℕ) (def : JobDefinition) (s m : Scheduler)
        → Changed name none s m
        → Changed name
            (if gocron.new_job def (job_options name spec) then some spec else none)
            s
            (add_job gocron name spec handler def (m, none)).0
    unfolding add_job
    added-Changed name spec handler def s m c =
        elim (Bool-cases (gocron.new_job def (job_options name spec))) [
          | inr e ↦ rw e c
          | inl e ↦ rw e (record {
            specs = λ d. get-put_if m.specs name d spec ∙ ground (arith, c.specs d);
            has_specs = λ d gone.
                get-put_if m.specs name d spec
                ∙ still d (sym (get-put_if m.jobs name d m.created) ∙ gone);
            same_tz = c.same_tz;
          })
        ]
      where
        still :
            (d : List ℕ)
            → (if name == d then some m.created else get m.jobs d) ≡ none
            → (if name == d then some spec else get m.specs d) ≡ none
        still d gone = ground (arith, c.has_specs d)

    defined-Changed :
        (name : List ℕ) (spec : JobSpec) (handler : ℕ) (def : Option JobDefinition) (s : Scheduler)
        (removed : Outcome)
        → HasSpecs s
        → Changed name none s removed.0 × (removed.1 ≡ none)
        → Changed name
            (defined_as name (get s.specs name) spec def)
            s
            (define_job gocron name spec handler def removed s).0
    unfolding define_job add_job
    defined-Changed name spec handler none s removed h c = unchanged name s h
    defined-Changed name spec handler (some d) s (m, some err) h (c, no_error) =
        absurd (cc no_error)
    defined-Changed name spec handler (some d) s (m, none) h (c, no_error) =
        added-Changed name spec handler d s m c

    register_handler-Changed :
        (name : List ℕ) (spec : JobSpec) (handler : Option ℕ) (s : Scheduler)
        → HasSpecs s
        → Changed name
            (handled_as s.def_tz name (get s.specs name) spec handler)
            s
            (register_handler gocron name spec handler s).0
    unfolding register_handler remove
    register_handler-Changed name spec none s h =
        (remove_job-Changed name (get s.jobs name) s h refl).0
    register_handler-Changed name spec (some handler) s h =
        defined-Changed name spec handler (job_definition gocron.parse_duration s.def_tz spec) s
          (remove gocron name s) h (remove_job-Changed name (get s.jobs name) s h refl)

    register-Changed :
        (name : List ℕ) (spec : JobSpec) (s : Scheduler)
        → HasSpecs s
        → Changed name
            (registered_as s.def_tz name (get s.specs name) spec)
            s
            (register gocron name spec s).0
    unfolding register
    register-Changed name spec s h = register_handler-Changed name spec _ s h

    pub register_if_changed-Changed :
        (live : Option JobSpec) (name : List ℕ) (spec : JobSpec) (s : Scheduler)
        → HasSpecs s
        → Changed name
            (settled s.def_tz name live (get s.specs name) spec)
            s
            (register_if_changed gocron live name spec s)
    unfolding register_if_changed
    register_if_changed-Changed none name spec s h = register-Changed name spec s h
    register_if_changed-Changed (some old) name spec s h =
        elim (Bool-cases (spec_changed old spec)) [
          | inl e ↦ rw e (register-Changed name spec s h)
          | inr e ↦ rw e (unchanged name s h)
        ]
