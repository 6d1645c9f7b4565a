-- ===== src/Cache/Memory/Settled.antt =====
-- What a reload leaves of the caches (`OnReload` of pkg/cache/memory/module.go).
use lakta.Prelude.{
  is_positive, ℕ, ◌≡◌, ◌≢◌, refl, sym, ap, ◌∙◌, true, false, ◌&&◌, Option, none, some, List, [],
  ◌∷◌, get, get-erase_ne, IsMap, none_ne, same-eq, ==-refl, ◌==◌, nat_keyed, bytes_keyed, inl, inr,
  ◌⊎◌, Bool-cases, arith,
}
use lakta.Cache.Memory.{
  Spec, OtterBox, Memory, Otter, build_otter, swap, set_maximum, rebuild, only_max_size_changed,
  spec_eqb, stop,
}
use lakta.Cache.Memory.Reload.{CacheModule, drop_unless, drop_gone, change_box, change_spec}
use lakta.Cache.Memory.Serving.{
  IsServing, IsServing-same, with_spec, with_spec-none, drop_unless-IsServing,
}

-- What stands under a name while the first loop has `rest` of the old names before it, then while the
-- others have `rest` of the desired caches before them.
abbrev pub dropping : (desired rest old : Option Spec) → Option Spec
dropping none rest old = rest
dropping (some d) rest old = old

abbrev pub adding : (desired old rest : Option Spec) → Option Spec
adding none old rest = none
adding (some d) (some o) rest = some o
adding (some d) none none = some d
adding (some d) none (some r) = none

abbrev pub changing : (desired old rest : Option Spec) → Option Spec
changing none old rest = none
changing (some d) old none = some d
changing (some d) none (some r) = some d
changing (some d) (some o) (some r) = some o

-- The part of a module that resizing leaves alone.
abbrev pub Same : Memory → Memory → Type 0
Same m m' = (m'.live ≡ m.live) × (m'.specs ≡ m.specs) × (m'.code_caches ≡ m.code_caches)

module _ (otter : Otter) where
  swap-Same :
      (spec : Spec) (p : ℕ) (b : OtterBox) (m : Memory) (o : Memory × Option ℕ)
      → Same m o.0
      → Same m (swap spec p b o)
  unfolding swap
  swap-Same spec p b m (m', none) h = h
  swap-Same spec p b m (m', some oc) h = h

  build_otter-Same :
      (name : List ℕ) (spec : Spec) (m : Memory) → Same m (build_otter otter name spec m).0
  unfolding build_otter
  build_otter-Same name spec m = ground arith

  change_box-Same :
      (old spec : Spec) (p : ℕ) (b : Option OtterBox) (m : Memory)
      → Same m (change_box otter old spec p b m)
  unfolding change_box set_maximum rebuild
  change_box-Same old spec p none m = (refl, refl, refl)
  change_box-Same old spec p (some b) m =
      elim (Bool-cases (only_max_size_changed old spec && is_positive spec.max_size)) [
        | inl h ↦ rw h (refl, refl, refl)
        | inr h ↦ rw h (swap-Same spec p b m _ (build_otter-Same b.name spec m))
      ]

  pub change_spec-Same :
      (old : Option Spec) (spec : Spec) (built : Option ℕ) (m : Memory)
      → Same m (change_spec otter old spec built m)
  unfolding change_spec
  change_spec-Same none spec built m = (refl, refl, refl)
  change_spec-Same (some old) spec none m = (refl, refl, refl)
  change_spec-Same (some old) spec (some p) m = elim (Bool-cases (spec_eqb old spec)) [
    | inl h ↦ rw h (refl, refl, refl)
    | inr h ↦ rw h (change_box-Same old spec p (get m.boxes p) m)
  ]

stop-Same : (b : Option OtterBox) (m : Memory) → Same m (stop b m)
unfolding stop
stop-Same none m = (refl, refl, refl)
stop-Same (some b) m = (refl, refl, refl)

drop_unless-specs :
    (wanted : Option Spec) (name : List ℕ) (built : Option ℕ) (c : CacheModule)
    → ((drop_unless wanted name built c).mem.specs ≡ c.mem.specs)
      × ((drop_unless wanted name built c).mem.code_caches ≡ c.mem.code_caches)
unfolding drop_unless
drop_unless-specs (some s) name built c = (refl, refl)
drop_unless-specs none name none c = (refl, refl)
drop_unless-specs none name (some p) c =
    let (a, b, c') = stop-Same (get c.mem.boxes p) c.mem in (b, c')

drop_unless-live :
    (name n : List ℕ) (built : Option ℕ) (c : CacheModule)
    → name ≢ n
    → get (drop_unless none name built c).mem.live n ≡ get c.mem.live n
unfolding drop_unless
drop_unless-live name n none c h = refl
drop_unless-live name n (some p) c h =
    get-erase_ne _ name n h
    ∙ ap (λ (l : List (List ℕ × ℕ)). get l n) (stop-Same (get c.mem.boxes p) c.mem).0

-- The clone of the live boxes agrees with them at the names that are wanted.
abbrev pub Agrees : (live : List (List ℕ × ℕ)) (want : List ℕ → Option Spec) → CacheModule → Type 0
Agrees live want c = (n : List ℕ) (s : Spec) → want n ≡ some s → get live n ≡ get c.mem.live n

pub record Dropped (old desired : List (List ℕ × Spec)) (live : List (List ℕ × ℕ))
    (c c' : CacheModule) : Type 0 where
  pub serving : IsServing (λ n. dropping (get desired n) none (get old n)) c'
  pub agrees : Agrees live (λ n. dropping (get desired n) none (get old n)) c'
  pub specs : c'.mem.specs ≡ c.mem.specs
  pub code : c'.mem.code_caches ≡ c.mem.code_caches

pub drop_gone-Dropped :
    (rest old desired : List (List ℕ × Spec)) (live : List (List ℕ × ℕ)) (c : CacheModule)
    → IsMap rest
    → ((n : List ℕ) (s : Spec) → get rest n ≡ some s → get old n ≡ some s)
    → IsServing (λ n. dropping (get desired n) (get rest n) (get old n)) c
    → Agrees live (λ n. dropping (get desired n) (get rest n) (get old n)) c
    → Dropped old desired live c (drop_gone rest desired live c)
unfolding drop_gone drop_unless
drop_gone-Dropped [] old desired live c m sub s a = record {
  serving = s;
  agrees = a;
  specs = refl;
  code = refl;
}
drop_gone-Dropped ((name, spec) ∷ rest) old desired live c (fresh, m) sub s a =
    let t = dropped_one (get desired name) refl in
    let u = drop_unless-specs (get desired name) name (get live name) c in
    let r =
      drop_gone-Dropped rest old desired live
        (drop_unless (get desired name) name (get live name) c) m
        (λ n z f. sub n z (tail_at n z (Bool-cases (name == n)) f)) t.0 t.1 in
    record { serving = r.serving; agrees = r.agrees; specs = r.specs ∙ u.0; code = r.code ∙ u.1 }
  where
    tail_at :
        (n : List ℕ) (z : Spec)
        → (name == n ≡ true) ⊎ (name == n ≡ false)
        → get rest n ≡ some z
        → get ((name, spec) ∷ rest) n ≡ some z
    tail_at n z (inl y) f = absurd (none_ne (sym fresh ∙ ap (get rest) (same-eq name n y) ∙ f))
    tail_at n z (inr ne) f = rw ne f

    want : List ℕ → Option Spec
    want n = dropping (get desired n) (get rest n) (get old n)

    before : List ℕ → Option Spec
    before n = dropping (get desired n) (get ((name, spec) ∷ rest) n) (get old n)

    kept_want :
        (d : Spec)
        → get desired name ≡ some d
        → (n : List ℕ) → (name == n ≡ true) ⊎ (name == n ≡ false)
        → before n ≡ want n
    kept_want d e n (inl y) = rw (ap (get desired) (sym (same-eq name n y)) ∙ e) refl
    kept_want d e n (inr ne) = rw ne refl

    lost_want :
        get desired name ≡ none
        → (n : List ℕ) → (name == n ≡ true) ⊎ (name == n ≡ false)
        → with_spec name none before n ≡ want n
    lost_want e n (inl y) =
        rw (ap (get desired) (sym (same-eq name n y)) ∙ e)
          (rw (ap (get rest) (sym (same-eq name n y)) ∙ fresh) (rw y refl))
    lost_want e n (inr ne) = rw ne refl

    dropped_one :
        (wanted : Option Spec)
        → get desired name ≡ wanted
        → IsServing want (drop_unless wanted name (get live name) c)
          × Agrees live want (drop_unless wanted name (get live name) c)
    dropped_one (some d) e = (
      IsServing-same before want c (λ n. kept_want d e n (Bool-cases (name == n))) s,
      λ n t w. a n t (kept_want d e n (Bool-cases (name == n)) ∙ w),
    )
    dropped_one none e = (
      IsServing-same (with_spec name none before) want _
          (λ n. lost_want e n (Bool-cases (name == n)))
          (drop_unless-IsServing before c name (get live name)
            (sym (a name spec (rw e (rw (==-refl name) refl)))) s),
      λ n t w.
          let (ne, v) =
            with_spec-none name n before t (lost_want e n (Bool-cases (name == n)) ∙ w) in
          a n t v ∙ sym (drop_unless-live name n (get live name) c ne),
    )
