-- ===== src/Scheduler/Reload/Settled.antt =====
-- What a reload leaves registered under each name, whatever the order in which maps are iterated.
use lakta.Prelude.{
  ℕ, ◌≡◌, ◌≢◌, refl, sym, ap, subst, ◌∙◌, true, false, Option, none, some, List, [], ◌∷◌, get, put,
  IsMap-put, then_at, else_at, IsMap, ◌==◌, same-eq, bytes_keyed, if◌then◌else◌, inl, inr, ◌⊎◌,
  Bool-cases,
}
use lakta.Scheduler.Spec.{JobSpec, overlaid_with, or_zero, overlay_jobs, merged_jobs}
use lakta.Scheduler.{Gocron, Scheduler, remove}
use lakta.Scheduler.Live.{HasSpecs}
use lakta.Scheduler.Reload.Changed.{
  Changed, settled, reloaded, IsReloaded, reloaded-IsReloaded, remove_job-Changed,
  register_if_changed-Changed,
}
use lakta.Scheduler.Reload.{
  remove_unless, remove_gone, register_changed, apply_jobs, on_reload, SchedulerModule,
}

module _ (gocron : Gocron) (removable : (id : ℕ) → gocron.remove_job id ≡ true) where
  -- What the loop over the old names leaves.
  record Swept (desired : List (List ℕ × JobSpec)) (live : List (List ℕ × JobSpec))
      (s s' : Scheduler) : Type 0 where
    kept :
        (c : List ℕ) (spec : JobSpec) → get desired c ≡ some spec → get s'.specs c ≡ get s.specs c
    gone :
        (c : List ℕ)
        → get desired c ≡ none
        → (get live c ≡ none → get s.specs c ≡ none)
        → get s'.specs c ≡ none
    has_specs : HasSpecs s'
    same_tz : s'.def_tz ≡ s.def_tz

  some_ne : {spec : JobSpec} → some spec ≢ none
  some_ne h = cc h

  sweep :
      (desired live : List (List ℕ × JobSpec)) (name : List ℕ) (old : JobSpec) (s : Scheduler)
      → HasSpecs s
      → (wanted : Option JobSpec) → get desired name ≡ wanted
      → ((m : Scheduler) → HasSpecs m → Swept desired live m (remove_gone gocron live desired m))
      → Swept desired
          ((name, old) ∷ live)
          s
          (remove_gone gocron live desired (remove_unless gocron wanted name s))
  unfolding remove_unless remove
  sweep desired live name old s h (some spec) e rest = record {
    kept = (rest s h).kept;
    gone = λ d d_free l.
        (rest s h).gone d d_free (λ free. l (not_here d (Bool-cases (name == d)) free d_free));
    has_specs = (rest s h).has_specs;
    same_tz = (rest s h).same_tz;
  }
    where
      not_here :
          (d : List ℕ)
          → (name == d ≡ true) ⊎ (name == d ≡ false)
          → get live d ≡ none
          → get desired d ≡ none
          → get ((name, old) ∷ live) d ≡ none
      not_here d (inl y) free d_free =
          absurd (some_ne (sym e ∙ ap (get desired) (same-eq name d y) ∙ d_free))
      not_here d (inr n) free d_free = rw n free
  sweep desired live name old s h none e rest =
      let c = remove_job-Changed gocron removable name (get s.jobs name) s h refl in
      let r = rest _ c.0.has_specs in
      record {
        kept = λ d spec wanted.
            r.kept d spec wanted ∙ c.0.specs d ∙ away d (Bool-cases (name == d)) wanted;
        gone =
            λ d free l. r.gone d free (λ m. c.0.specs d ∙ cleared d (Bool-cases (name == d)) m l);
        has_specs = r.has_specs;
        same_tz = r.same_tz ∙ c.0.same_tz;
      }
    where
      away :
          (d : List ℕ)
          → (name == d ≡ true) ⊎ (name == d ≡ false)
          → {spec : JobSpec} → get desired d ≡ some spec
          → (if name == d then none else get s.specs d) ≡ get s.specs d
      away d (inl y) wanted =
          absurd (some_ne (sym wanted ∙ ap (get desired) (sym (same-eq name d y)) ∙ e))
      away d (inr n) wanted = rw n refl

      cleared :
          (d : List ℕ)
          → (name == d ≡ true) ⊎ (name == d ≡ false)
          → get live d ≡ none
          → (get ((name, old) ∷ live) d ≡ none → get s.specs d ≡ none)
          → (if name == d then none else get s.specs d) ≡ none
      cleared d (inl y) free l = rw y refl
      cleared d (inr n) free l = rw n (l (rw n free))

  remove_gone-Swept :
      (live desired : List (List ℕ × JobSpec)) (s : Scheduler)
      → HasSpecs s
      → Swept desired live s (remove_gone gocron live desired s)
  unfolding remove_gone
  remove_gone-Swept [] desired s h = record {
    kept = λ c spec d. refl;
    gone = λ c d l. l refl;
    has_specs = h;
    same_tz = refl;
  }
  remove_gone-Swept ((name, old) ∷ live) desired s h =
      sweep desired live name old s h (get desired name) refl
        (λ m hm. remove_gone-Swept live desired m hm)

  -- What the loop over the desired jobs leaves.
  record Merged (live desired : List (List ℕ × JobSpec)) (s s' : Scheduler) : Type 0 where
    wanted :
        (c : List ℕ) (spec : JobSpec)
        → get desired c ≡ some spec
        → get s'.specs c ≡ settled gocron s.def_tz c (get live c) (get s.specs c) spec
    other : (c : List ℕ) → get desired c ≡ none → get s'.specs c ≡ get s.specs c

  joined :
      (live desired : List (List ℕ × JobSpec)) (name : List ℕ) (spec : JobSpec) (s m : Scheduler)
      {s' : Scheduler}
      → get desired name ≡ none
      → Changed gocron name
          (settled gocron s.def_tz name (get live name) (get s.specs name) spec)
          s
          m
      → Merged live desired m s'
      → Merged live ((name, spec) ∷ desired) s s'
  joined live desired name spec s m {s'} fresh c r = record {
    wanted = λ d w e. wanted_at d w (Bool-cases (name == d)) e;
    other = λ d e. other_at d (Bool-cases (name == d)) e;
  }
    where
      same :
          (d : List ℕ) (w : JobSpec)
          → m.def_tz ≡ s.def_tz
          → get m.specs d ≡ get s.specs d
          → settled gocron m.def_tz d (get live d) (get m.specs d) w
            ≡ settled gocron s.def_tz d (get live d) (get s.specs d) w
      same d w t u =
          ap (λ (z : List ℕ). settled gocron z d (get live d) (get m.specs d) w) t
          ∙ ap (λ (z : Option JobSpec). settled gocron s.def_tz d (get live d) z w) u

      moved :
          (d : List ℕ) (w : JobSpec)
          → name ≡ d
          → some spec ≡ some w
          → settled gocron s.def_tz name (get live name) (get s.specs name) spec
            ≡ settled gocron s.def_tz d (get live d) (get s.specs d) w
      moved d w y e =
          ap (λ (z : List ℕ). settled gocron s.def_tz z (get live z) (get s.specs z) spec) y
          ∙ ap (settled gocron s.def_tz d (get live d) (get s.specs d)) (cc e)

      wanted_at :
          (d : List ℕ) (w : JobSpec)
          → (name == d ≡ true) ⊎ (name == d ≡ false)
          → get ((name, spec) ∷ desired) d ≡ some w
          → get s'.specs d ≡ settled gocron s.def_tz d (get live d) (get s.specs d) w
      wanted_at d w (inl y) e =
          r.other d (ap (get desired) (sym (same-eq name d y)) ∙ fresh)
          ∙ c.specs d
          ∙ rw y (moved d w (same-eq name d y) (then_at (name == d) _ _ y e))
      wanted_at d w (inr n) e =
          r.wanted d w (else_at (name == d) _ _ n e) ∙ same d w c.same_tz (c.specs d ∙ rw n refl)

      other_at :
          (d : List ℕ)
          → (name == d ≡ true) ⊎ (name == d ≡ false)
          → get ((name, spec) ∷ desired) d ≡ none
          → get s'.specs d ≡ get s.specs d
      other_at d (inl y) e = absurd (some_ne (then_at (name == d) _ _ y e))
      other_at d (inr n) e = r.other d (else_at (name == d) _ _ n e) ∙ c.specs d ∙ rw n refl

  register_changed-Merged :
      (live desired : List (List ℕ × JobSpec)) (s : Scheduler)
      → HasSpecs s
      → IsMap desired
      → Merged live desired s (register_changed gocron live desired s)
  unfolding register_changed
  register_changed-Merged live [] s h d = record { wanted = λ c spec e. cc; other = λ c e. refl }
  register_changed-Merged live ((name, spec) ∷ desired) s h (fresh, d) =
      joined live desired name spec s _ fresh
        (register_if_changed-Changed gocron removable (get live name) name spec s h)
        (register_changed-Merged live desired _
          (register_if_changed-Changed gocron removable (get live name) name spec s h).has_specs d)

  overlay_jobs-IsMap :
      (merged jobs : List (List ℕ × JobSpec)) → IsMap merged → IsMap (overlay_jobs merged jobs)
  unfolding overlay_jobs
  overlay_jobs-IsMap merged [] h = h
  overlay_jobs-IsMap merged ((name, override) ∷ jobs) h =
      overlay_jobs-IsMap (put merged name (overlaid_with (or_zero (get merged name)) override)) jobs
        (IsMap-put merged name _ h)

  apply_jobs_lem :
      (desired : List (List ℕ × JobSpec)) (s : Scheduler)
      → HasSpecs s
      → IsMap desired
      → (name : List ℕ)
      → get (apply_jobs gocron desired s).specs name
        ≡ reloaded gocron s.def_tz name (get s.specs name) (get desired name)
  unfolding apply_jobs
  apply_jobs_lem desired s h d name =
      by_wanted _ _ (get desired name) refl (remove_gone-Swept s.specs desired s h) (
        register_changed-Merged s.specs desired _ (remove_gone-Swept s.specs desired s h).has_specs
          d)
    where
      by_wanted :
          (m s' : Scheduler) (wanted : Option JobSpec)
          → get desired name ≡ wanted
          → Swept desired s.specs s m
          → Merged s.specs desired m s'
          → get s'.specs name ≡ reloaded gocron s.def_tz name (get s.specs name) wanted
      by_wanted m s' none e swept merged = merged.other name e ∙ swept.gone name e (λ z. z)
      by_wanted m s' (some spec) e swept merged =
          merged.wanted name spec e
          ∙ ap (λ (z : List ℕ). settled gocron z name (get s.specs name) (get m.specs name) spec)
              swept.same_tz
          ∙ ap (λ (z : Option JobSpec). settled gocron s.def_tz name (get s.specs name) z spec)
              (swept.kept name spec e)

  on_reload_lem :
      (jobs : List (List ℕ × JobSpec)) (m : SchedulerModule)
      → HasSpecs m.sched
      → IsMap m.code_jobs
      → (name : List ℕ)
      → get (on_reload gocron (some jobs) m).sched.specs name
        ≡ reloaded gocron m.sched.def_tz name
            (get m.sched.specs name)
            (get (merged_jobs m.code_jobs jobs) name)
  unfolding on_reload merged_jobs
  on_reload_lem jobs m h d name =
      apply_jobs_lem (merged_jobs m.code_jobs jobs) m.sched h
        (overlay_jobs-IsMap m.code_jobs jobs d) name

  -- If `RemoveJob` never fails, a reload leaves under each name what that name asks for, whatever the
  -- order of the entries: nothing if the merged jobs do not have it; the spec of before if it agrees
  -- with the new one in schedule, time zone, jitter, overlap policy and whether it is enabled. Else
  -- it is the new one, where that is enabled, has a handler, and gocron takes it; it is the one of
  -- before if the interval of the new one has no meaning; and it is none otherwise.
  pub on_reload-jobs :
      (jobs : List (List ℕ × JobSpec)) (m : SchedulerModule)
      → HasSpecs m.sched
      → IsMap m.code_jobs
      → (name : List ℕ)
      → IsReloaded gocron m.sched.def_tz name
          (get m.sched.specs name)
          (get (merged_jobs m.code_jobs jobs) name)
          (get (on_reload gocron (some jobs) m).sched.specs name)
  on_reload-jobs jobs m h d name =
      let before = get m.sched.specs name in
      let wanted = get (merged_jobs m.code_jobs jobs) name in
      subst (IsReloaded gocron m.sched.def_tz name before wanted)
        (sym (on_reload_lem jobs m h d name))
        (reloaded-IsReloaded gocron m.sched.def_tz name before wanted)
