-- ===== src/Cache/Memory/Reloads.antt =====
-- A whole reload, and sequences of calls with reloads (`OnReload` of pkg/cache/memory/module.go).
use lakta.Prelude.{
  ◌&&◌, Bool, then_at, else_at, none_ne, ℕ, ◌≡◌, refl, sym, ap, subst, ◌∙◌, ℤ, true, false, Option,
  none, some, List, [], ◌∷◌, get, put, IsMap, IsMap-put, none_ne, same-eq, ==-refl, ◌==◌, nat_keyed,
  bytes_keyed, inl, inr, ◌⊎◌, Bool-cases,
}
use lakta.Cache.Memory.{Spec, Options, Memory, Otter}
use lakta.Cache.Memory.Reload.{
  CacheModule, copy, merged_caches, drop_gone, add_unless, add_new, change_spec, change_specs,
  apply_caches, on_reload,
}
use lakta.Cache.Memory.Serving.{some_eq, IsServing, IsServing-same, with_spec, add_unless-IsServing}
use lakta.Cache.Memory.Boxes.{keeps_limit, change_spec-IsServing}
use lakta.Cache.Memory.Settled.{
  adding, changing, dropping, Same, change_spec-Same, drop_gone-Dropped,
}

tail_at :
    (name n : List ℕ) (spec z : Spec) (rest : List (List ℕ × Spec))
    → get rest name ≡ none
    → (name == n ≡ true) ⊎ (name == n ≡ false)
    → get rest n ≡ some z
    → get ((name, spec) ∷ rest) n ≡ some z
tail_at name n spec z rest fresh (inl y) f =
    absurd (none_ne (sym fresh ∙ ap (get rest) (same-eq name n y) ∙ f))
tail_at name n spec z rest fresh (inr ne) f = rw ne f

add_unless-mem :
    (old : Option Spec) (name : List ℕ) (c : CacheModule) → (add_unless old name c).mem ≡ c.mem
unfolding add_unless
add_unless-mem none name c = refl
add_unless-mem (some o) name c = refl

pub add_new-IsServing :
    (rest old desired : List (List ℕ × Spec)) (c : CacheModule)
    → IsMap rest
    → ((n : List ℕ) (s : Spec) → get rest n ≡ some s → get desired n ≡ some s)
    → IsServing (λ n. adding (get desired n) (get old n) (get rest n)) c
    → IsServing (λ n. adding (get desired n) (get old n) none) (add_new old rest c)
      × ((add_new old rest c).mem ≡ c.mem)
unfolding add_new
add_new-IsServing [] old desired c m sub s = (s, refl)
add_new-IsServing ((name, spec) ∷ rest) old desired c (fresh, m) sub s =
    let (r, e) =
      add_new-IsServing rest old desired (add_unless (get old name) name c) m
        (λ n z f. sub n z (tail_at name n spec z rest fresh (Bool-cases (name == n)) f))
        (one (get old name) refl) in
    (r, e ∙ add_unless-mem (get old name) name c)
  where
    want : List ℕ → Option Spec
    want n = adding (get desired n) (get old n) (get rest n)

    before : List ℕ → Option Spec
    before n = adding (get desired n) (get old n) (get ((name, spec) ∷ rest) n)

    here : get desired name ≡ some spec
    here = sub name spec (rw (==-refl name) refl)

    kept_want :
        (o : Spec)
        → get old name ≡ some o
        → (n : List ℕ) → (name == n ≡ true) ⊎ (name == n ≡ false)
        → before n ≡ want n
    kept_want o e n (inl y) =
        rw (ap (get desired) (sym (same-eq name n y)) ∙ here)
          (rw (ap (get old) (sym (same-eq name n y)) ∙ e) refl)
    kept_want o e n (inr ne) = rw ne refl

    new_want :
        get old name ≡ none
        → (n : List ℕ) → (name == n ≡ true) ⊎ (name == n ≡ false)
        → with_spec name (some spec) before n ≡ want n
    new_want e n (inl y) = rw (ap (get desired) (sym (same-eq name n y)) ∙ here) (
        rw (ap (get old) (sym (same-eq name n y)) ∙ e)
          (rw (ap (get rest) (sym (same-eq name n y)) ∙ fresh) (rw y refl)))
    new_want e n (inr ne) = rw ne refl

    one : (o : Option Spec) → get old name ≡ o → IsServing want (add_unless o name c)
    one (some o) e = IsServing-same before want c (λ n. kept_want o e n (Bool-cases (name == n))) s
    one none e =
        IsServing-same (with_spec name (some spec) before) want _
          (λ n. new_want e n (Bool-cases (name == n)))
          (add_unless-IsServing before c name spec (rw here (rw e (rw (==-refl name) refl))) s)

copy-IsMap : (merged caches : List (List ℕ × Spec)) → IsMap merged → IsMap (copy merged caches)
unfolding copy
copy-IsMap merged [] m = m
copy-IsMap merged ((name, spec) ∷ caches) m =
    copy-IsMap (put merged name spec) caches (IsMap-put merged name spec m)

pub merged_caches-IsMap : (code caches : List (List ℕ × Spec)) → IsMap (merged_caches code caches)
unfolding merged_caches
merged_caches-IsMap code caches = copy-IsMap (copy [] code) caches (copy-IsMap [] code tt)

-- A module that serves its own specs, each once.
pub record IsSettled (c : CacheModule) : Type 0 where
  pub serving : IsServing (get c.mem.specs) c
  pub is_map : IsMap c.mem.specs

abbrev keeps_limit_of : Option Spec → Spec → Bool
keeps_limit_of none spec = true
keeps_limit_of (some old) spec = keeps_limit old spec

-- No name goes from no maximum to a maximum.
abbrev pub keep_limits : (old desired : List (List ℕ × Spec)) → Bool
keep_limits old [] = true
keep_limits old ((name, spec) ∷ desired) =
    keeps_limit_of (get old name) spec && keep_limits old desired

abbrev pub keeps_limits : Option (List (List ℕ × Spec)) → CacheModule → Bool
keeps_limits none c = true
keeps_limits (some caches) c = keep_limits c.mem.specs (merged_caches c.mem.code_caches caches)

pub and_parts : (a b : Bool) → (a && b) ≡ true → (a ≡ true) × (b ≡ true)
and_parts true b e = (refl, e)
and_parts false b e = absurd (cc e)

keep_limits-get :
    (old desired : List (List ℕ × Spec)) (n : List ℕ) (d o : Spec)
    → keep_limits old desired ≡ true
    → get desired n ≡ some d
    → get old n ≡ some o
    → keeps_limit o d ≡ true
keep_limits-get old [] n d o h f g = absurd (none_ne f)
keep_limits-get old ((name, spec) ∷ desired) n d o h f g =
    let (first, rest) = and_parts (keeps_limit_of (get old name) spec) _ h in
    elim (Bool-cases (name == n)) [
      | inl y ↦
          ap (λ z. keeps_limit_of z d) (sym (ap (get old) (same-eq name n y) ∙ g))
          ∙ ap (keeps_limit_of (get old name)) (sym (some_eq (then_at (name == n) _ _ y f)))
          ∙ first
      | inr e ↦ keep_limits-get old desired n d o rest (else_at (name == n) _ _ e f) g
    ]

module _ (otter : Otter) (takes : (o : Options) → otter.accepts o ≡ true)
    (observed : (name : List ℕ) → otter.observes name ≡ true)
    (resizes : (o : Options) (n k : ℤ)
      → o.maximum_size ≡ some k
      → otter.set_maximum o n ≡ record o { maximum_size = some n }) where
  change_specs-IsServing :
      (rest old desired : List (List ℕ × Spec)) (live : List (List ℕ × ℕ)) (c : CacheModule)
      → IsMap rest
      → ((n : List ℕ) (s : Spec) → get rest n ≡ some s → get desired n ≡ some s)
      → ((n : List ℕ) (d o : Spec)
          → get desired n ≡ some d
          → get old n ≡ some o
          → get live n ≡ get c.mem.live n)
      → keep_limits old desired ≡ true
      → IsServing (λ n. changing (get desired n) (get old n) (get rest n)) c
      → IsServing (get desired) (record c { mem = change_specs otter old rest live c.mem })
        × Same c.mem (change_specs otter old rest live c.mem)
  unfolding change_specs
  change_specs-IsServing [] old desired live c m sub a limits s = (
    IsServing-same _ (get desired) c (λ n. all_done (get desired n) (get old n)) s,
    (refl, refl, refl),
  )
    where
      all_done : (d o : Option Spec) → changing d o none ≡ d
      all_done none o = refl
      all_done (some d) none = refl
      all_done (some d) (some o) = refl
  change_specs-IsServing ((name, spec) ∷ rest) old desired live c (fresh, m) sub a limits s =
      let c' : CacheModule = record c {
        mem = change_spec otter (get old name) spec (get live name) c.mem;
      } in
      let e = change_spec-Same otter (get old name) spec (get live name) c.mem in
      let (r, e') =
        change_specs-IsServing rest old desired live c' m
          (λ n z f. sub n z (tail_at name n spec z rest fresh (Bool-cases (name == n)) f))
          (λ n d o f g. a n d o f g ∙ ap (λ (l : List (List ℕ × ℕ)). get l n) (sym e.0)) limits
          (one (get old name) refl) in
      (r, (e'.0 ∙ e.0, e'.1 ∙ e.1, e'.2 ∙ e.2))
    where
      want : List ℕ → Option Spec
      want n = changing (get desired n) (get old n) (get rest n)

      before : List ℕ → Option Spec
      before n = changing (get desired n) (get old n) (get ((name, spec) ∷ rest) n)

      here : get desired name ≡ some spec
      here = sub name spec (rw (==-refl name) refl)

      kept_want :
          get old name ≡ none
          → (n : List ℕ) → (name == n ≡ true) ⊎ (name == n ≡ false)
          → before n ≡ want n
      kept_want e n (inl y) = rw (ap (get desired) (sym (same-eq name n y)) ∙ here) (
          rw (ap (get old) (sym (same-eq name n y)) ∙ e)
            (rw (ap (get rest) (sym (same-eq name n y)) ∙ fresh) (rw y refl)))
      kept_want e n (inr ne) = rw ne refl

      new_want :
          (o : Spec)
          → get old name ≡ some o
          → (n : List ℕ) → (name == n ≡ true) ⊎ (name == n ≡ false)
          → with_spec name (some spec) before n ≡ want n
      new_want o e n (inl y) = rw (ap (get desired) (sym (same-eq name n y)) ∙ here) (
          rw (ap (get old) (sym (same-eq name n y)) ∙ e)
            (rw (ap (get rest) (sym (same-eq name n y)) ∙ fresh) (rw y refl)))
      new_want o e n (inr ne) = rw ne refl

      one :
          (o : Option Spec)
          → get old name ≡ o
          → IsServing want (record c { mem = change_spec otter o spec (get live name) c.mem })
      one none e = IsServing-same before want c (λ n. kept_want e n (Bool-cases (name == n))) s
      one (some o) e =
          IsServing-same (with_spec name (some spec) before) want _
            (λ n. new_want o e n (Bool-cases (name == n)))
            (change_spec-IsServing otter takes observed resizes before c s name o spec
              (get live name) (rw here (rw e (rw (==-refl name) refl))) (sym (a name spec o here e))
              (keep_limits-get old desired name spec o limits here e))

  apply_caches-IsServing :
      (old desired : List (List ℕ × Spec)) (c : CacheModule)
      → IsMap old
      → IsMap desired
      → keep_limits old desired ≡ true
      → IsServing (get old) c
      → IsServing (get desired) (apply_caches otter old desired c.mem.live c)
        × ((apply_caches otter old desired c.mem.live c).mem.specs ≡ c.mem.specs)
  unfolding apply_caches
  apply_caches-IsServing old desired c m m' limits s =
      let d =
        drop_gone-Dropped old old desired c.mem.live c m (λ n z f. f)
          (IsServing-same (get old) _ c (λ n. start_drop (get desired n) (get old n)) s)
          (λ n z f. refl) in
      let c1 : CacheModule = drop_gone old desired c.mem.live c in
      let (t, e) =
        add_new-IsServing desired old desired c1 m' (λ n z f. f)
          (IsServing-same _ _ c1 (λ n. start_add (get desired n) (get old n)) d.serving) in
      let c2 : CacheModule = add_new old desired c1 in
      let (u, same) =
        change_specs-IsServing desired old desired c.mem.live c2 m' (λ n z f. f)
          (λ n x o f g.
            d.agrees n o (both (get desired n) (get old n) f g)
            ∙ ap (λ (z : Memory). get z.live n) (sym e))
          limits (IsServing-same _ _ c2 (λ n. start_change (get desired n) (get old n)) t) in
      (u, same.1 ∙ ap (λ (z : Memory). z.specs) e ∙ d.specs)
    where
      start_drop : (d o : Option Spec) → o ≡ dropping d o o
      start_drop none o = refl
      start_drop (some d) o = refl

      start_add : (d o : Option Spec) → dropping d none o ≡ adding d o d
      start_add none o = refl
      start_add (some d) none = refl
      start_add (some d) (some o) = refl

      start_change : (d o : Option Spec) → adding d o none ≡ changing d o d
      start_change none o = refl
      start_change (some d) none = refl
      start_change (some d) (some o) = refl

      both : (d o : Option Spec) {x y : Spec} → d ≡ some x → o ≡ some y → dropping d none o ≡ some y
      both none o f g = absurd (none_ne f)
      both (some d) o f g = g

  respecified :
      (want : List ℕ → Option Spec) (c : CacheModule) (desired : List (List ℕ × Spec))
      → IsServing want c
      → IsServing want (record c { mem = record c.mem { specs = desired } })
  respecified want c desired s = record {
    registered = s.registered;
    declared = s.declared;
    bound_live = s.bound_live;
    live_bound = s.live_bound;
    boxed = λ n q l.
        let (b, k) = s.boxed n q l in
        (b, record { kept = k.kept; named = k.named; wanted = k.wanted; runs = k.runs });
    owned = s.owned;
    apart = s.apart;
    boxes_below = s.boxes_below;
    below = s.below;
  }

  pub on_reload-IsSettled :
      (caches : Option (List (List ℕ × Spec))) (c : CacheModule)
      → keeps_limits caches c ≡ true
      → IsSettled c
      → IsSettled (on_reload otter caches c)
  unfolding on_reload
  on_reload-IsSettled none c limits s = s
  on_reload-IsSettled (some caches) c limits s =
      let desired = merged_caches c.mem.code_caches caches in
      let (u, e) =
        apply_caches-IsServing c.mem.specs desired
          (record c { mem = record c.mem { specs = desired } }) s.is_map
          (merged_caches-IsMap c.mem.code_caches caches) limits
          (respecified _ c desired s.serving) in
      record {
        serving = IsServing-same _ _ _ (λ n. ap (λ (z : List (List ℕ × Spec)). get z n) (sym e)) u;
        is_map = subst IsMap (sym e) (merged_caches-IsMap c.mem.code_caches caches);
      }
