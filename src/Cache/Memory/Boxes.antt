-- ===== src/Cache/Memory/Boxes.antt =====
-- `setMaximum` and `rebuild` of a box (pkg/cache/memory/module.go).
use lakta.Prelude.{
  not, ◌||◌, is_positive, ℕ, suc, ◌≡◌, ◌≢◌, refl, sym, ap, ◌∙◌, ℤ, Bool, true, false, ◌&&◌, Option,
  none, some, List, get, put, erase, get-put, get-put_ne, get-put-some, get-erase_ne,
  get-erase-some, same-eq, ◌==◌, nat_keyed, bytes_keyed, int_eqb-eq, bool_eqb-eq, if◌then◌else◌,
  inl, inr, ◌⊎◌, Bool-cases, arith,
}
use lakta.Cache.Memory.{
  Spec, Options, OtterBox, Running, Memory, Otter, options, expiry_of, build_otter, set_maximum,
  rebuild, only_max_size_changed, spec_eqb,
}
use lakta.Cache.Memory.Reload.{CacheModule, change_box, change_spec}
use lakta.Cache.Memory.Serving.{IsServing, IsServing-same, Boxed, serving, with_spec, some_eq}
use lakta.Cache.Memory.Moved.{Moved, moved-IsServing, respec-IsServing}

spec_eqb-eq : (a b : Spec) → spec_eqb a b ≡ true → a ≡ b
unfolding spec_eqb
spec_eqb-eq a b h = λ i. record {
  max_size = int_eqb-eq a.max_size b.max_size (ground arith) i;
  ttl = int_eqb-eq a.ttl b.ttl (ground arith) i;
  ttl_access = int_eqb-eq a.ttl_access b.ttl_access (ground arith) i;
  record_stats = bool_eqb-eq a.record_stats b.record_stats (ground arith) i;
}

-- A spec in which only the size is another one.
resized_options :
    (old spec : Spec)
    → (only_max_size_changed old spec && is_positive spec.max_size) ≡ true
    → record {
      options = record (options old) { maximum_size = some spec.max_size };
      gauge = old.record_stats;
    }
      ≡ serving spec
unfolding only_max_size_changed options
resized_options old spec h = λ i. record {
  options = record {
    maximum_size = bounded (is_positive spec.max_size) (positive) i;
    expiry = expiry_of (same_access i) (same_ttl i);
    stats_recorder = same_stats i;
  };
  gauge = same_stats i;
}
  where
    positive : is_positive spec.max_size ≡ true
    positive = ground arith

    same_access : old.ttl_access ≡ spec.ttl_access
    same_access = int_eqb-eq old.ttl_access spec.ttl_access (ground arith)

    same_ttl : old.ttl ≡ spec.ttl
    same_ttl = int_eqb-eq old.ttl spec.ttl (ground arith)

    same_stats : old.record_stats ≡ spec.record_stats
    same_stats = bool_eqb-eq old.record_stats spec.record_stats (ground arith)

    bounded : (b : Bool) → b ≡ true → some spec.max_size ≡ (if b then some spec.max_size else none)
    bounded true h = refl
    bounded false h = cc

-- A cache that is to have a maximum has one already.
abbrev pub keeps_limit : (old spec : Spec) → Bool
keeps_limit old spec = not (is_positive spec.max_size) || is_positive old.max_size

options-limited :
    (s : Spec) → is_positive s.max_size ≡ true → (options s).maximum_size ≡ some s.max_size
unfolding options
options-limited s h = rw h refl

and_false : (b : Bool) → (b && false) ≡ false
and_false true = refl
and_false false = refl

module _ (otter : Otter) (takes : (o : Options) → otter.accepts o ≡ true)
    (observed : (name : List ℕ) → otter.observes name ≡ true)
    (resizes : (o : Options) (n k : ℤ)
      → o.maximum_size ≡ some k
      → otter.set_maximum o n ≡ record o { maximum_size = some n }) where
  pub build_otter_lem :
      (name : List ℕ) (spec : Spec) (m : Memory)
      → build_otter otter name spec m ≡ (
        record m { running = put m.running m.created (serving spec); created = suc m.created },
        some m.created,
      )
  unfolding build_otter
  build_otter_lem name spec m =
      rw (takes (options spec)) (rw (observed name) (rw (and_false spec.record_stats) refl))

  resized-Moved :
      (want : List ℕ → Option Spec) (c : CacheModule) (b : OtterBox) (spec : Spec)
      → IsServing want c
      → get c.mem.running b.oc ≡ some (serving b.spec)
      → (only_max_size_changed b.spec spec && is_positive spec.max_size) ≡ true
      → keeps_limit b.spec spec ≡ true
      → Moved c.mem b b.oc spec
          (put c.mem.running b.oc (record {
            options = otter.set_maximum (options b.spec) spec.max_size;
            gauge = b.spec.record_stats;
          }))
          c.mem.created
  resized-Moved want c b spec s runs h limit = record {
    runs =
        get-put c.mem.running b.oc _
        ∙ ap some (
            ap (λ (o : Options). record { options = o; gauge = b.spec.record_stats })
              (resizes (options b.spec) spec.max_size b.spec.max_size
                (options-limited b.spec (ground (arith, h, limit))))
            ∙ resized_options b.spec spec h);
    others = λ o r ne f. get-put_ne c.mem.running b.oc o _ (λ y. ne (sym y)) ∙ f;
    back = λ o r f. back_at o r (get-put-some c.mem.running b.oc o _ r f);
    own = inl refl;
    grows = omega arith;
    below = s.below b.oc (serving b.spec) runs;
  }
    where
      back_at :
          (o : ℕ) (r : Running) {q : Running}
          → ((b.oc ≡ o) × (q ≡ r)) ⊎ ((b.oc ≢ o) × (get c.mem.running o ≡ some r))
          → (o ≡ b.oc) ⊎ ((o ≢ b.oc) × (get c.mem.running o ≡ some r))
      back_at o r (inl (y, z)) = inl (sym y)
      back_at o r (inr (ne, f)) = inr (λ y. ne (sym y), f)

  rebuilt-Moved :
      (want : List ℕ → Option Spec) (c : CacheModule) (b : OtterBox) (spec : Spec)
      → IsServing want c
      → get c.mem.running b.oc ≡ some (serving b.spec)
      → Moved c.mem b c.mem.created spec
          (erase (put c.mem.running c.mem.created (serving spec)) b.oc)
          (suc c.mem.created)
  rebuilt-Moved want c b spec s runs = record {
    runs =
        get-erase_ne _ b.oc c.mem.created
          (λ y. omega (arith, s.below b.oc (serving b.spec) runs, y))
        ∙ get-put c.mem.running c.mem.created (serving spec);
    others = λ o r ne f.
        get-erase_ne _ b.oc o (λ y. ne (sym y))
        ∙ get-put_ne c.mem.running c.mem.created o _ (λ y. omega (arith, s.below o r f, y))
        ∙ f;
    back = λ o r f.
        let (ne, f') = get-erase-some _ b.oc o r f in
        back_at o r ne (get-put-some c.mem.running c.mem.created o _ r f');
    own = inr refl;
    grows = omega arith;
    below = omega arith;
  }
    where
      back_at :
          (o : ℕ) (r : Running) {q : Running}
          → b.oc ≢ o
          → ((c.mem.created ≡ o) × (q ≡ r)) ⊎ ((c.mem.created ≢ o) × (get c.mem.running o ≡ some r))
          → (o ≡ c.mem.created) ⊎ ((o ≢ b.oc) × (get c.mem.running o ≡ some r))
      back_at o r ne (inl (y, z)) = inl (sym y)
      back_at o r ne (inr (n, f)) = inr (λ y. ne (sym y), f)

  module _ (want : List ℕ → Option Spec) (c : CacheModule) (s : IsServing want c) where
    change_box-IsServing :
        (name : List ℕ) (p : ℕ) (b : OtterBox) (old spec : Spec)
        → get c.mem.live name ≡ some p
        → Boxed want c.mem name p b
        → b.spec ≡ old
        → keeps_limit old spec ≡ true
        → IsServing
            (with_spec name (some spec) want)
            (record c { mem = change_box otter old spec p (some b) c.mem })
    unfolding change_box set_maximum rebuild
    change_box-IsServing name p b old spec l k same limit =
        elim (Bool-cases (only_max_size_changed old spec && is_positive spec.max_size)) [
          | inl h ↦ rw h (
              rw k.runs (
                moved-IsServing want c s name p b l k.kept b.oc spec _ _ (
                  resized-Moved want c b spec s k.runs
                    (ap (λ (z : Spec). only_max_size_changed z spec && is_positive spec.max_size)
                        same
                      ∙ h)
                    (ap (λ (z : Spec). keeps_limit z spec) same ∙ limit))))
          | inr h ↦ rw h (
              rw (build_otter_lem b.name spec c.mem) (
                moved-IsServing want c s name p b l k.kept c.mem.created spec _ _
                  (rebuilt-Moved want c b spec s k.runs)))
        ]

    pub change_spec-IsServing :
        (name : List ℕ) (old spec : Spec) (live : Option ℕ)
        → want name ≡ some old
        → get c.mem.live name ≡ live
        → keeps_limit old spec ≡ true
        → IsServing
            (with_spec name (some spec) want)
            (record c { mem = change_spec otter (some old) spec live c.mem })
    unfolding change_spec
    change_spec-IsServing name old spec none w l limit = respec-IsServing want c s name old spec w l
    change_spec-IsServing name old spec (some p) w l limit = elim (Bool-cases (spec_eqb old spec)) [
      | inl h ↦ rw h (
          IsServing-same want _ c
            (λ n. same_want n (spec_eqb-eq old spec h) (Bool-cases (name == n))) s)
      | inr h ↦ rw h (
          let (b, k) = s.boxed name p l in
          rw k.kept (change_box-IsServing name p b old spec l k (some_eq (sym k.wanted ∙ w)) limit))
    ]
      where
        same_want :
            (n : List ℕ)
            → old ≡ spec
            → (name == n ≡ true) ⊎ (name == n ≡ false)
            → want n ≡ with_spec name (some spec) want n
        same_want n e (inl y) = rw y (ap want (sym (same-eq name n y)) ∙ w ∙ ap some e)
        same_want n e (inr ne) = rw ne refl
