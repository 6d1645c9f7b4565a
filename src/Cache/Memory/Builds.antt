-- ===== src/Cache/Memory/Builds.antt =====
-- The first `Named` of a cache builds it (pkg/cache/memory/module.go, pkg/cache/registry.go).
use lakta.Prelude.{
  ℕ, suc, ◌≡◌, refl, sym, ap, subst, ◌∙◌, ℤ, true, Option, none, some, List, get, put, none_ne,
  nat_keyed, bytes_keyed,
}
use lakta.Cache.{Entry, Bound, built, ask, ask_entry, bind}
use lakta.Cache.Memory.{Spec, Options, Memory, Otter, build_box}
use lakta.Cache.Memory.Reload.{CacheModule, named_of}
use lakta.Cache.Memory.Serving.{IsServing, IsServing-same, serving, some_eq}
use lakta.Cache.Memory.Boxes.{build_otter_lem}
use lakta.Cache.Memory.NewBox.{with_box-IsServing}

module _ (otter : Otter) (takes : (o : Options) → otter.accepts o ≡ true)
    (observed : (name : List ℕ) → otter.observes name ≡ true)
    (resizes : (o : Options) (n k : ℤ)
      → o.maximum_size ≡ some k
      → otter.set_maximum o n ≡ record o { maximum_size = some n }) where
  abbrev AfterAsk : CacheModule → (List (List ℕ × Entry (List ℕ)) × Memory) → Type 0
  AfterAsk c after =
      IsServing (get c.mem.specs) (record { registry = after.0; mem = after.1 })
      × (after.1.specs ≡ c.mem.specs)
      × (after.1.code_caches ≡ c.mem.code_caches)

  build_box_lem :
      (name : List ℕ) (kt vt : ℕ) (m : Memory) (spec : Spec)
      → get m.specs name ≡ some spec
      → build_box otter name kt vt m ≡ (
        record m {
          live = put m.live name m.created;
          boxes = put m.boxes m.created (record { oc = m.created; spec = spec; name = name });
          running = put m.running m.created (serving spec);
          created = suc m.created;
        },
        built m.created,
      )
  unfolding build_box
  build_box_lem name kt vt m spec w =
      rw w (rw (build_otter_lem otter takes observed resizes name spec m) refl)

  bind-AfterAsk :
      (c : CacheModule) (name : List ℕ) (kt vt : ℕ) (builder : List ℕ) (spec : Spec)
      → IsServing (get c.mem.specs) c
      → name ≡ builder
      → get c.mem.specs name ≡ some spec
      → get c.mem.live name ≡ none
      → AfterAsk c
          (bind
            (build_box otter)
            name
            kt
            vt
            builder
            c.registry
            (build_box otter builder kt vt c.mem)).0
  unfolding bind
  bind-AfterAsk c name kt vt builder spec s y w idle =
      subst
        (λ (z : List ℕ).
          AfterAsk c
            (bind (build_box otter) name kt vt z c.registry (build_box otter z kt vt c.mem)).0)
        y
        (rw (build_box_lem name kt vt c.mem spec w)
          (with_box-IsServing (get c.mem.specs) c name spec kt vt s w idle, refl, refl))

  ask_entry-AfterAsk :
      (c : CacheModule) (name : List ℕ) (kt vt : ℕ) (e : Entry (List ℕ)) (bound : Option Bound)
      → IsServing (get c.mem.specs) c
      → get c.registry name ≡ some e
      → e.bound ≡ bound
      → AfterAsk c (ask_entry (build_box otter) name kt vt e.builder bound c.registry c.mem).0
  unfolding ask_entry bind build_box
  ask_entry-AfterAsk c name kt vt e (some b) s found bound = (s, refl, refl)
  ask_entry-AfterAsk c name kt vt e none s found bound =
      let d = s.registered name e found in
      bind-AfterAsk c name kt vt e.builder d.spec s (sym d.builds) d.wanted
        (by_live (get c.mem.live name) refl)
    where
      by_live : (live : Option ℕ) → get c.mem.live name ≡ live → get c.mem.live name ≡ none
      by_live none l = l
      by_live (some p) l =
          let (f, b, has, is) = s.live_bound name p l in
          absurd (
            none_ne
              (sym bound ∙ ap (λ (x : Entry (List ℕ)). x.bound) (some_eq (sym found ∙ has)) ∙ is))

  ask-AfterAsk :
      (c : CacheModule) (name : List ℕ) (kt vt : ℕ) (e : Option (Entry (List ℕ)))
      → IsServing (get c.mem.specs) c
      → get c.registry name ≡ e
      → AfterAsk c (ask (build_box otter) name kt vt e c.registry c.mem).0
  unfolding ask
  ask-AfterAsk c name kt vt none s found = (s, refl, refl)
  ask-AfterAsk c name kt vt (some e) s found =
      ask_entry-AfterAsk c name kt vt e e.bound s found refl

  pub named_of-IsServing :
      (c : CacheModule) (name : List ℕ) (kt vt : ℕ)
      → IsServing (get c.mem.specs) c
      → IsServing (get (named_of otter name kt vt c).mem.specs) (named_of otter name kt vt c)
  unfolding named_of
  named_of-IsServing c name kt vt s =
      let (t, same, code) = ask-AfterAsk c name kt vt (get c.registry name) s refl in
      IsServing-same _ _ _ (λ n. ap (λ (z : List (List ℕ × Spec)). get z n) (sym same)) t

  pub named_of-specs :
      (c : CacheModule) (name : List ℕ) (kt vt : ℕ)
      → IsServing (get c.mem.specs) c
      → (named_of otter name kt vt c).mem.specs ≡ c.mem.specs
  unfolding named_of
  named_of-specs c name kt vt s = (ask-AfterAsk c name kt vt (get c.registry name) s refl).1
