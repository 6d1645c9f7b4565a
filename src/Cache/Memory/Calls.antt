-- ===== src/Cache/Memory/Calls.antt =====
-- The module from `Init` to `Shutdown` (pkg/cache/memory/module.go).
use lakta.Prelude.{
  ◌&&◌, Bool, ℕ, ◌≡◌, ◌≢◌, refl, sym, ap, subst, ◌∙◌, ℤ, true, false, Option, none, some, List, [],
  ◌∷◌, get, get-erase-some, none_ne, ◌==◌, nat_keyed, bytes_keyed, inl, inr, ◌⊎◌, Bool-cases,
  Option-cases, then_at, else_at, IsMap,
}
use lakta.Cache.Memory.{Spec, Options, OtterBox, Running, Memory, Otter, stop}
use lakta.Cache.Memory.Reload.{
  CacheModule, init, register_all, merged_caches, add_new, on_reload, named_of, shutdown,
}
use lakta.Cache.Memory.Serving.{IsServing, IsServing-same, some_eq}
use lakta.Cache.Memory.Settled.{adding}
use lakta.Cache.Memory.Builds.{named_of-IsServing, named_of-specs}
use lakta.Cache.Memory.Reloads.{
  IsSettled, keeps_limits, and_parts, add_new-IsServing, merged_caches-IsMap, on_reload-IsSettled,
}

pub data Call : Type 0 where
  names : List ℕ → (kt vt : ℕ) → Call
  reloads : Option (List (List ℕ × Spec)) → Call

module _ (otter : Otter) where
  unfoldable pub call : Call → CacheModule → CacheModule
  unfolding named_of on_reload
  call (names name kt vt) c = named_of otter name kt vt c
  call (reloads caches) c = on_reload otter caches c

  unfoldable pub calls : List Call → CacheModule → CacheModule
  unfolding call
  calls [] c = c
  calls (x ∷ xs) c = calls xs (call x c)

  -- No reload gives a maximum to a name that has none. The others may come and go, and change.
  abbrev pub steady : List Call → CacheModule → Bool
  steady [] c = true
  steady (names name kt vt ∷ xs) c = steady xs (call (names name kt vt) c)
  steady (reloads caches ∷ xs) c = keeps_limits caches c && steady xs (call (reloads caches) c)

abbrev blank : Memory → CacheModule
blank m = record {
  registry = [];
  mem = record m { live = []; boxes = []; running = []; created = 0 };
}

blank-IsServing : (m : Memory) → IsServing (λ n. none) (blank m)
blank-IsServing m = record {
  registered = λ n e f. absurd (none_ne f);
  declared = λ n z w. absurd (none_ne w);
  bound_live = λ n e b f g. absurd (none_ne f);
  live_bound = λ n p l. absurd (none_ne l);
  boxed = λ n p l. absurd (none_ne l);
  owned = λ o r f. absurd (none_ne f);
  apart = λ a a' p p' b b' l l' k k' e. absurd (none_ne l);
  boxes_below = λ p b k. absurd (none_ne k);
  below = λ o r f. absurd (none_ne f);
}

register_all-add_new :
    (specs : List (List ℕ × Spec)) (c : CacheModule)
    → add_new [] specs c ≡ record c { registry = register_all specs c.registry }
unfolding add_new
register_all-add_new [] c = refl
register_all-add_new ((name, spec) ∷ specs) c = register_all-add_new specs _

init-IsSettled : (code caches : List (List ℕ × Spec)) → IsSettled (init code caches)
unfolding init
init-IsSettled code caches =
    let specs = merged_caches code caches in
    let m : Memory = record {
      code_caches = code;
      specs = specs;
      live = [];
      boxes = [];
      running = [];
      created = 0;
    } in
    let (s, e) =
      add_new-IsServing specs [] specs (blank m) (merged_caches-IsMap code caches) (λ n z f. f)
        (IsServing-same (λ n. none) _ (blank m) (λ n. start (get specs n)) (blank-IsServing m)) in
    record {
      serving =
          subst (IsServing (get specs)) (register_all-add_new specs (blank m))
            (IsServing-same _ (get specs) _ (λ n. end (get specs n)) s);
      is_map = merged_caches-IsMap code caches;
    }
  where
    start : (d : Option Spec) → none ≡ adding d none d
    start none = refl
    start (some d) = refl

    end : (d : Option Spec) → adding d none none ≡ d
    end none = refl
    end (some d) = refl

stop-boxes : (b : Option OtterBox) (m : Memory) → (stop b m).boxes ≡ m.boxes
unfolding stop
stop-boxes none m = refl
stop-boxes (some b) m = refl

shutdown-stopped :
    (live : List (List ℕ × ℕ)) (m : Memory) (oc : ℕ) (r : Running)
    → get (shutdown live m).running oc ≡ some r
    → (get m.running oc ≡ some r)
      × ((name : List ℕ) (p : ℕ) (b : OtterBox)
          → get live name ≡ some p
          → get m.boxes p ≡ some b
          → b.oc ≢ oc)
unfolding shutdown stop
shutdown-stopped [] m oc r f = (f, λ n p b l. absurd (none_ne l))
shutdown-stopped ((name, q) ∷ live) m oc r f =
    let (g, others) = shutdown-stopped live (stop (get m.boxes q) m) oc r f in
    stopped (get m.boxes q) refl g (λ n p b l k.
      others n p b l (ap (λ (z : List (ℕ × OtterBox)). get z p) (stop-boxes (get m.boxes q) m) ∙ k))
  where
    stopped :
        (o : Option OtterBox)
        → get m.boxes q ≡ o
        → get (stop o m).running oc ≡ some r
        → ((n : List ℕ) (p : ℕ) (b : OtterBox)
            → get live n ≡ some p
            → get m.boxes p ≡ some b
            → b.oc ≢ oc)
        → (get m.running oc ≡ some r)
          × ((n : List ℕ) (p : ℕ) (b : OtterBox)
              → get ((name, q) ∷ live) n ≡ some p
              → get m.boxes p ≡ some b
              → b.oc ≢ oc)
    stopped none e g others = (g, λ n p b l k. gone_at n p b (Bool-cases (name == n)) l k)
      where
        gone_at :
            (n : List ℕ) (p : ℕ) (b : OtterBox)
            → (name == n ≡ true) ⊎ (name == n ≡ false)
            → get ((name, q) ∷ live) n ≡ some p
            → get m.boxes p ≡ some b
            → b.oc ≢ oc
        gone_at n p b (inl y) l k =
            absurd (none_ne (sym e ∙ ap (get m.boxes) (some_eq (then_at (name == n) _ _ y l)) ∙ k))
        gone_at n p b (inr ne) l k = others n p b (else_at (name == n) _ _ ne l) k
    stopped (some b0) e g others =
        let (ne0, f0) = get-erase-some m.running b0.oc oc r g in
        (f0, λ n p b l k. gone_at ne0 n p b (Bool-cases (name == n)) l k)
      where
        gone_at :
            b0.oc ≢ oc
            → (n : List ℕ) (p : ℕ) (b : OtterBox) → (name == n ≡ true) ⊎ (name == n ≡ false)
            → get ((name, q) ∷ live) n ≡ some p
            → get m.boxes p ≡ some b
            → b.oc ≢ oc
        gone_at ne0 n p b (inl y) l k z = ne0 (
            ap (λ (v : OtterBox). v.oc)
              (some_eq (sym e ∙ ap (get m.boxes) (some_eq (then_at (name == n) _ _ y l)) ∙ k))
            ∙ z)
        gone_at ne0 n p b (inr ne) l k z = others n p b (else_at (name == n) _ _ ne l) k z

module _ (otter : Otter) (takes : (o : Options) → otter.accepts o ≡ true)
    (observed : (name : List ℕ) → otter.observes name ≡ true)
    (resizes : (o : Options) (n k : ℤ)
      → o.maximum_size ≡ some k
      → otter.set_maximum o n ≡ record o { maximum_size = some n }) where
  calls-IsSettled :
      (xs : List Call) (c : CacheModule)
      → steady otter xs c ≡ true
      → IsSettled c
      → IsSettled (calls otter xs c)
  unfolding calls call
  calls-IsSettled [] c h s = s
  calls-IsSettled (names name kt vt ∷ xs) c h s =
      calls-IsSettled xs (named_of otter name kt vt c) h (record {
        serving = named_of-IsServing otter takes observed resizes c name kt vt s.serving;
        is_map =
            subst IsMap (sym (named_of-specs otter takes observed resizes c name kt vt s.serving))
              s.is_map;
      })
  calls-IsSettled (reloads caches ∷ xs) c h s =
      let (limits, rest) = and_parts (keeps_limits caches c) _ h in
      calls-IsSettled xs (on_reload otter caches c) rest
        (on_reload-IsSettled otter takes observed resizes caches c limits s)

  -- If otter takes all options, the gauge can be registered, SetMaximum sets the maximum of a cache
  -- that was built with one, and no reload gives a maximum to a name without one, then after Init and any calls of Named and any reloads, also of configurations that do not
  -- load: exactly the names of the module's specs are registered, each with its own builder; a name is
  -- bound to a box exactly if the module has that box as live; the cache of a live box runs with the
  -- options of the spec under its name, and with a gauge exactly if that spec records stats; every
  -- cache that runs is that of one live name; and Shutdown stops them all.
  pub calls-IsServing :
      (code caches : List (List ℕ × Spec)) (xs : List Call)
      → steady otter xs (init code caches) ≡ true
      → let c = calls otter xs (init code caches) in
        IsServing (get c.mem.specs) c
        × ((oc : ℕ) → get (shutdown c.mem.live c.mem).running oc ≡ none)
  calls-IsServing code caches xs h =
      let s = calls-IsSettled xs (init code caches) h (init-IsSettled code caches) in
      (s.serving, λ oc. all_stopped s oc (Option-cases (get (shutdown _ _).running oc)))
    where
      all_stopped :
          {c : CacheModule}
          → IsSettled c
          → (oc : ℕ)
          → (get (shutdown c.mem.live c.mem).running oc ≡ none)
            ⊎ ((r : Running) × (get (shutdown c.mem.live c.mem).running oc ≡ some r))
          → get (shutdown c.mem.live c.mem).running oc ≡ none
      all_stopped s oc (inl f) = f
      all_stopped s oc (inr (r, f)) =
          let (g, others) = shutdown-stopped _ _ oc r f in
          let (n, p, b, l, k, y) = s.serving.owned oc r g in absurd (others n p b l k y)
