-- ===== src/Scheduler/Live.antt =====
-- The jobs that gocron runs, against the maps of the scheduler (pkg/workers/scheduler/scheduler.go).
use lakta.Prelude.{
  ℕ, suc, ◌<◌, ◌≡◌, ◌≢◌, refl, sym, ap, ◌∙◌, Bool, true, false, none, some, List, [], ◌∷◌, get,
  erase, get-put, get-put_ne, get-erase, get-erase_ne, get-put-some, get-erase-some, get-put-none,
  none_ne, not_eq, ◌==◌, same-eq, bytes_keyed, nat_eqb, nat_keyed, if◌then◌else◌, inl, inr, ◌⊎◌,
  Bool-cases, arith,
}
use lakta.Scheduler.Spec.{JobSpec, JobDefinition, is_enabled, job_definition, job_options}
use lakta.Scheduler.{Gocron, Scheduler, Job, without_job, with_job, new_job, drop_job}

-- A job is registered with its spec.
abbrev pub HasSpecs : Scheduler → Type 0
HasSpecs s = (name : List ℕ) → get s.jobs name ≡ none → get s.specs name ≡ none

abbrev pub Runs : Job → List Job → Type 0
Runs j [] = ⊥
Runs j (k ∷ cron) = (j ≡ k) ⊎ Runs j cron

Runs-drop_job :
    (id : ℕ) (j : Job) (cron : List Job) → Runs j (drop_job id cron) → Runs j cron × (j.id ≢ id)
Runs-drop_job id j [] h = elim h [ ]
Runs-drop_job id j (k ∷ cron) h = by_id (nat_eqb k.id id) refl h (Runs-drop_job id j cron)
  where
    by_id :
        (b : Bool)
        → nat_eqb k.id id ≡ b
        → Runs j (if b then drop_job id cron else k ∷ drop_job id cron)
        → (Runs j (drop_job id cron) → Runs j cron × (j.id ≢ id))
        → Runs j (k ∷ cron) × (j.id ≢ id)
    by_id true e h ih = let (r, n) = ih h in (inr r, n)
    by_id false e (inl y) ih = (inl y, λ z. not_eq k.id id e (ap (λ (x : Job). x.id) (sym y) ∙ z))
    by_id false e (inr h) ih = let (r, n) = ih h in (inr r, n)

Runs-kept :
    (id : ℕ) (j : Job) (cron : List Job) → Runs j cron → j.id ≢ id → Runs j (drop_job id cron)
Runs-kept id j [] h n = elim h [ ]
Runs-kept id j (k ∷ cron) h n = by_id (nat_eqb k.id id) refl h (λ r. Runs-kept id j cron r n)
  where
    by_id :
        (b : Bool)
        → nat_eqb k.id id ≡ b
        → Runs j (k ∷ cron)
        → (Runs j cron → Runs j (drop_job id cron))
        → Runs j (if b then drop_job id cron else k ∷ drop_job id cron)
    by_id true e (inl y) ih = absurd (n (ap (λ (x : Job). x.id) y ∙ same-eq k.id id e))
    by_id true e (inr r) ih = ih r
    by_id false e (inl y) ih = inl y
    by_id false e (inr r) ih = inr (ih r)

module _ (gocron : Gocron) where
  -- The job is the one that the spec under `name` asks for.
  pub record Built (s : Scheduler) (j : Job) (name : List ℕ) (spec : JobSpec) : Type 0 where
    pub registered : get s.jobs name ≡ some j.id
    pub recorded : get s.specs name ≡ some spec
    pub defined : job_definition gocron.parse_duration s.def_tz spec ≡ some j.definition
    pub with_options : j.options ≡ job_options name spec
    pub spread : j.jitter ≡ spec.jitter
    pub handled : spec.handler ≡ some j.handler
    pub enabled : is_enabled spec ≡ true

  -- The scheduler and gocron agree.
  pub record IsLive (s : Scheduler) : Type 0 where
    pub built : (j : Job) → Runs j s.cron → (name : List ℕ) × (spec : JobSpec) × Built s j name spec
    pub running :
        (name : List ℕ) (id : ℕ)
        → get s.jobs name ≡ some id
        → (j : Job) × Runs j s.cron × (j.id ≡ id)
    pub distinct : (a b : List ℕ) (id : ℕ) → get s.jobs a ≡ some id → get s.jobs b ≡ some id → a ≡ b
    pub once : (j k : Job) → Runs j s.cron → Runs k s.cron → j.id ≡ k.id → j ≡ k
    pub below : (name : List ℕ) (id : ℕ) → get s.jobs name ≡ some id → id < s.created
    pub has_specs : HasSpecs s

  module _ (name : List ℕ) (s : Scheduler) (live : IsLive s) where
    pub removed-IsLive : (id : ℕ) → get s.jobs name ≡ some id → IsLive (without_job name id s)
    removed-IsLive id known = record {
      built = λ j r.
          let (r', n) = Runs-drop_job id j s.cron r in
          let (c, spec, b) = live.built j r' in
          (
            c,
            spec,
            record {
              registered =
                  get-erase_ne s.jobs name c (λ y. n (same_id j c y b.registered)) ∙ b.registered;
              recorded =
                  get-erase_ne s.specs name c (λ y. n (same_id j c y b.registered)) ∙ b.recorded;
              defined = b.defined;
              with_options = b.with_options;
              spread = b.spread;
              handled = b.handled;
              enabled = b.enabled;
            },
          );
      running = λ c i e.
          let (n, e') = get-erase-some s.jobs name c i e in
          let (j, r, q) = live.running c i e' in
          (
            j,
            Runs-kept id j s.cron r
                (λ y. n (live.distinct name c id known (e' ∙ ap some (sym q ∙ y)))),
            q,
          );
      distinct = λ a b i e f.
          live.distinct a b i (get-erase-some s.jobs name a i e).1
            (get-erase-some s.jobs name b i f).1;
      once =
          λ j k r q. live.once j k (Runs-drop_job id j s.cron r).0 (Runs-drop_job id k s.cron q).0;
      below = λ c i e. live.below c i (get-erase-some s.jobs name c i e).1;
      has_specs = λ c e. spec_gone c (Bool-cases (name == c)) e;
    }
      where
        same_id : (j : Job) (c : List ℕ) → name ≡ c → get s.jobs c ≡ some j.id → j.id ≡ id
        same_id j c y e = cc (sym e ∙ ap (get s.jobs) (sym y) ∙ known)

        spec_gone :
            (c : List ℕ)
            → (name == c ≡ true) ⊎ (name == c ≡ false)
            → get (erase s.jobs name) c ≡ none
            → get (erase s.specs name) c ≡ none
        spec_gone c (inl y) e =
            ap (get (erase s.specs name)) (sym (same-eq name c y)) ∙ get-erase s.specs name
        spec_gone c (inr n) e =
            get-erase_ne s.specs name c (not_eq name c n)
            ∙ live.has_specs c (sym (get-erase_ne s.jobs name c (not_eq name c n)) ∙ e)

    pub added-IsLive :
        (spec : JobSpec) (handler : ℕ) (def : JobDefinition)
        → get s.jobs name ≡ none
        → job_definition gocron.parse_duration s.def_tz spec ≡ some def
        → spec.handler ≡ some handler
        → is_enabled spec ≡ true
        → IsLive (with_job name spec handler def s)
    added-IsLive spec handler def free defined handled enabled = record {
      built = λ j r. built_at j r;
      running = λ c i e. running_at c i (get-put-some s.jobs name c s.created i e);
      distinct = λ a b i e f.
          distinct_at a b i (get-put-some s.jobs name a s.created i e)
            (get-put-some s.jobs name b s.created i f);
      once = λ j k r q e. once_at j k r q e;
      below = λ c i e. below_at c i (get-put-some s.jobs name c s.created i e);
      has_specs = λ c e.
          let (n, e') = get-put-none s.jobs name c s.created e in
          get-put_ne s.specs name c spec n ∙ live.has_specs c e';
    }
      where
        apart : (c : List ℕ) {i : ℕ} → get s.jobs c ≡ some i → name ≢ c
        apart c e y = none_ne (sym free ∙ ap (get s.jobs) y ∙ e)

        built_at :
            (j : Job)
            → (j ≡ new_job name spec handler def s.created) ⊎ Runs j s.cron
            → (c : List ℕ) × (z : JobSpec) × Built (with_job name spec handler def s) j c z
        built_at j (inl y) = (
          name,
          spec,
          record {
            registered = get-put s.jobs name s.created ∙ ap some (ap (λ (x : Job). x.id) (sym y));
            recorded = get-put s.specs name spec;
            defined = defined ∙ ap some (ap (λ (x : Job). x.definition) (sym y));
            with_options = ap (λ (x : Job). x.options) y;
            spread = ap (λ (x : Job). x.jitter) y;
            handled = handled ∙ ap some (ap (λ (x : Job). x.handler) (sym y));
            enabled = enabled;
          },
        )
        built_at j (inr r) =
            let (c, z, b) = live.built j r in
            (
              c,
              z,
              record {
                registered =
                    get-put_ne s.jobs name c s.created (apart c b.registered) ∙ b.registered;
                recorded = get-put_ne s.specs name c spec (apart c b.registered) ∙ b.recorded;
                defined = b.defined;
                with_options = b.with_options;
                spread = b.spread;
                handled = b.handled;
                enabled = b.enabled;
              },
            )

        running_at :
            (c : List ℕ) (i : ℕ)
            → ((name ≡ c) × (s.created ≡ i)) ⊎ ((name ≢ c) × (get s.jobs c ≡ some i))
            → (j : Job) × ((j ≡ new_job name spec handler def s.created) ⊎ Runs j s.cron)
              × (j.id ≡ i)
        running_at c i (inl (y, e)) = (new_job name spec handler def s.created, inl refl, e)
        running_at c i (inr (n, e)) = let (j, r, q) = live.running c i e in (j, inr r, q)

        distinct_at :
            (a b : List ℕ) (i : ℕ)
            → ((name ≡ a) × (s.created ≡ i)) ⊎ ((name ≢ a) × (get s.jobs a ≡ some i))
            → ((name ≡ b) × (s.created ≡ i)) ⊎ ((name ≢ b) × (get s.jobs b ≡ some i))
            → a ≡ b
        distinct_at a b i (inl (y, e)) (inl (z, f)) = sym y ∙ z
        distinct_at a b i (inl (y, e)) (inr (n, f)) = absurd (omega (arith, live.below b i f, e))
        distinct_at a b i (inr (n, e)) (inl (z, f)) = absurd (omega (arith, live.below a i e, f))
        distinct_at a b i (inr (n, e)) (inr (m, f)) = live.distinct a b i e f

        old_id : (j : Job) → Runs j s.cron → j.id < s.created
        old_id j r = let (c, z, b) = live.built j r in live.below c j.id b.registered

        once_at :
            (j k : Job)
            → (j ≡ new_job name spec handler def s.created) ⊎ Runs j s.cron
            → (k ≡ new_job name spec handler def s.created) ⊎ Runs k s.cron
            → j.id ≡ k.id
            → j ≡ k
        once_at j k (inl y) (inl z) e = y ∙ sym z
        once_at j k (inl y) (inr q) e =
            absurd (omega (arith, old_id k q, ap (λ (x : Job). x.id) y, e))
        once_at j k (inr r) (inl z) e =
            absurd (omega (arith, old_id j r, ap (λ (x : Job). x.id) z, e))
        once_at j k (inr r) (inr q) e = live.once j k r q e

        below_at :
            (c : List ℕ) (i : ℕ)
            → ((name ≡ c) × (s.created ≡ i)) ⊎ ((name ≢ c) × (get s.jobs c ≡ some i))
            → i < suc s.created
        below_at c i (inl (y, e)) = omega (arith, e)
        below_at c i (inr (n, e)) = omega (arith, live.below c i e)

  pub empty-IsLive :
      (tz : List ℕ) → IsLive (record { def_tz = tz; jobs = []; specs = []; cron = []; created = 0 })
  empty-IsLive tz = record {
    built = λ j r. absurd r;
    running = λ c i e. absurd (none_ne e);
    distinct = λ a b i e f. absurd (none_ne e);
    once = λ j k r q e. absurd r;
    below = λ c i e. absurd (none_ne e);
    has_specs = λ c e. refl;
  }
