-- ===== src/Cache/Memory/Serving.antt =====
-- What the memory backend serves: the registry, the boxes and the caches that run, against the specs
-- that should stand under the names (pkg/cache/memory/module.go).
use lakta.Prelude.{
  ℕ, ◌<◌, ◌≡◌, ◌≢◌, refl, sym, ap, subst, ◌∙◌, Option, none, some, List, get, put, erase, get-put,
  get-put_ne, get-put-some, get-erase_ne, get-erase-some, none_ne, not_eq, not_same, then_at,
  else_at, same-eq, ==-refl, ◌==◌, nat_keyed, bytes_keyed, if◌then◌else◌, inl, inr, ◌⊎◌, Bool-cases,
}
use lakta.Cache.{Entry, Bound, unregister}
use lakta.Cache.Memory.{Spec, OtterBox, Running, Memory, options}
use lakta.Cache.Memory.Reload.{CacheModule, drop_unless, add_unless}

-- The cache that a spec asks for.
abbrev pub serving : Spec → Running
serving spec = record { options = options spec; gauge = spec.record_stats }

abbrev pub with_spec : List ℕ → Option Spec → (List ℕ → Option Spec) → List ℕ → Option Spec
with_spec name to want n = if name == n then to else want n

pub record Declared (want : List ℕ → Option Spec) (name : List ℕ) (e : Entry (List ℕ))
    : Type 0 where
  pub builds : e.builder ≡ name
  pub spec : Spec
  pub wanted : want name ≡ some spec

-- The box at `p` is the one of `name`, and its cache runs as the spec of that name says.
pub record Boxed (want : List ℕ → Option Spec) (m : Memory) (name : List ℕ) (p : ℕ) (b : OtterBox)
    : Type 0 where
  pub kept : get m.boxes p ≡ some b
  pub named : b.name ≡ name
  pub wanted : want name ≡ some b.spec
  pub runs : get m.running b.oc ≡ some (serving b.spec)

pub record IsServing (want : List ℕ → Option Spec) (c : CacheModule) : Type 0 where
  pub registered :
      (name : List ℕ) (e : Entry (List ℕ)) → get c.registry name ≡ some e → Declared want name e
  pub declared :
      (name : List ℕ) (s : Spec)
      → want name ≡ some s
      → (e : Entry (List ℕ)) × (get c.registry name ≡ some e)
  pub bound_live :
      (name : List ℕ) (e : Entry (List ℕ)) (b : Bound)
      → get c.registry name ≡ some e
      → e.bound ≡ some b
      → get c.mem.live name ≡ some b.box
  pub live_bound :
      (name : List ℕ) (p : ℕ)
      → get c.mem.live name ≡ some p
      → (e : Entry (List ℕ)) × (b : Bound) × (get c.registry name ≡ some e) × (e.bound ≡ some b)
  pub boxed :
      (name : List ℕ) (p : ℕ)
      → get c.mem.live name ≡ some p
      → (b : OtterBox) × Boxed want c.mem name p b
  pub owned :
      (oc : ℕ) (r : Running)
      → get c.mem.running oc ≡ some r
      → (name : List ℕ) × (p : ℕ) × (b : OtterBox) × (get c.mem.live name ≡ some p)
        × (get c.mem.boxes p ≡ some b)
        × (b.oc ≡ oc)
  pub apart :
      (a a' : List ℕ) (p p' : ℕ) (b b' : OtterBox)
      → get c.mem.live a ≡ some p
      → get c.mem.live a' ≡ some p'
      → get c.mem.boxes p ≡ some b
      → get c.mem.boxes p' ≡ some b'
      → b.oc ≡ b'.oc
      → a ≡ a'
  pub boxes_below : (p : ℕ) (b : OtterBox) → get c.mem.boxes p ≡ some b → p < c.mem.created
  pub below : (oc : ℕ) (r : Running) → get c.mem.running oc ≡ some r → oc < c.mem.created

pub some_eq {ℓ} : {A : Type ℓ} {a b : A} → some a ≡ some b → a ≡ b
some_eq h = cc h

pub IsServing-same :
    (want want' : List ℕ → Option Spec) (c : CacheModule)
    → ((name : List ℕ) → want name ≡ want' name)
    → IsServing want c
    → IsServing want' c
IsServing-same want want' c h s = subst (λ w. IsServing w c) (λ i n. h n i) s

pub with_spec_at :
    (name : List ℕ) (to : Option Spec) (want : List ℕ → Option Spec)
    → with_spec name to want name ≡ to
with_spec_at name to want = rw (==-refl name) refl

pub with_spec_ne :
    (name n : List ℕ) (to : Option Spec) (want : List ℕ → Option Spec)
    → name ≢ n
    → with_spec name to want n ≡ want n
with_spec_ne name n to want h = rw (not_same name n h) refl

pub with_spec-none :
    (name n : List ℕ) (want : List ℕ → Option Spec) (t : Spec)
    → with_spec name none want n ≡ some t
    → (name ≢ n) × (want n ≡ some t)
with_spec-none name n want t w = elim (Bool-cases (name == n)) [
  | inl y ↦ absurd (none_ne (then_at (name == n) _ _ y w))
  | inr e ↦ (not_eq name n e, else_at (name == n) _ _ e w)
]

pub with_spec-some :
    (name n : List ℕ) (to : Spec) (want : List ℕ → Option Spec) (t : Spec)
    → with_spec name (some to) want n ≡ some t
    → (name ≡ n) ⊎ ((name ≢ n) × (want n ≡ some t))
with_spec-some name n to want t w = elim (Bool-cases (name == n)) [
  | inl y ↦ inl (same-eq name n y)
  | inr e ↦ inr (not_eq name n e, else_at (name == n) _ _ e w)
]

-- A name that has no live box loses its entry.
unregister-IsServing :
    (want : List ℕ → Option Spec) (c : CacheModule) (name : List ℕ)
    → get c.mem.live name ≡ none
    → IsServing want c
    → IsServing (with_spec name none want) (record c { registry = unregister name c.registry })
unfolding unregister
unregister-IsServing want c name idle s = record {
  registered = λ n e found.
      let (ne, f) = get-erase-some c.registry name n e found in
      let d = s.registered n e f in
      record {
        builds = d.builds;
        spec = d.spec;
        wanted = with_spec_ne name n none want ne ∙ d.wanted;
      };
  declared = λ n t w.
      let (ne, f) = with_spec-none name n want t w in
      let (e, found) = s.declared n t f in (e, get-erase_ne c.registry name n ne ∙ found);
  bound_live =
      λ n e b found bound. s.bound_live n e b (get-erase-some c.registry name n e found).1 bound;
  live_bound = λ n p l.
      let (e, b, found, bound) = s.live_bound n p l in
      (e, b, get-erase_ne c.registry name n (live_ne n p l) ∙ found, bound);
  boxed = λ n p l.
      let (b, x) = s.boxed n p l in
      (
        b,
        record {
          kept = x.kept;
          named = x.named;
          wanted = with_spec_ne name n none want (live_ne n p l) ∙ x.wanted;
          runs = x.runs;
        },
      );
  owned = s.owned;
  apart = s.apart;
  boxes_below = s.boxes_below;
  below = s.below;
}
  where
    live_ne : (n : List ℕ) (p : ℕ) → get c.mem.live n ≡ some p → name ≢ n
    live_ne n p l y = none_ne (sym idle ∙ ap (get c.mem.live) y ∙ l)

-- A name with a live box loses its entry, and its cache is stopped.
dropped-IsServing :
    (want : List ℕ → Option Spec) (c : CacheModule) (name : List ℕ) (p : ℕ) (b : OtterBox)
    → get c.mem.live name ≡ some p
    → get c.mem.boxes p ≡ some b
    → IsServing want c
    → IsServing (with_spec name none want) (record {
      registry = unregister name c.registry;
      mem = record c.mem { running = erase c.mem.running b.oc; live = erase c.mem.live name };
    })
unfolding unregister
dropped-IsServing want c name p b is_live kept s = record {
  registered = λ n e found.
      let (ne, f) = get-erase-some c.registry name n e found in
      let d = s.registered n e f in
      record {
        builds = d.builds;
        spec = d.spec;
        wanted = with_spec_ne name n none want ne ∙ d.wanted;
      };
  declared = λ n t w.
      let (ne, f) = with_spec-none name n want t w in
      let (e, found) = s.declared n t f in (e, get-erase_ne c.registry name n ne ∙ found);
  bound_live = λ n e x found bound.
      let (ne, f) = get-erase-some c.registry name n e found in
      get-erase_ne c.mem.live name n ne ∙ s.bound_live n e x f bound;
  live_bound = λ n q l.
      let (ne, l') = get-erase-some c.mem.live name n q l in
      let (e, x, found, bound) = s.live_bound n q l' in
      (e, x, get-erase_ne c.registry name n ne ∙ found, bound);
  boxed = λ n q l.
      let (ne, l') = get-erase-some c.mem.live name n q l in
      let (x, k) = s.boxed n q l' in
      (
        x,
        record {
          kept = k.kept;
          named = k.named;
          wanted = with_spec_ne name n none want ne ∙ k.wanted;
          runs =
              get-erase_ne c.mem.running b.oc x.oc
                (λ y. ne (s.apart name n p q b x is_live l' kept k.kept y))
              ∙ k.runs;
        },
      );
  owned = λ oc r f.
      let (ne, f') = get-erase-some c.mem.running b.oc oc r f in
      let (n, q, x, l, k, y) = s.owned oc r f' in
      (n, q, x, get-erase_ne c.mem.live name n (λ z. ne (same_box n q x z l k ∙ y)) ∙ l, k, y);
  apart = λ a a' q q' x x' l l' k k' y.
      s.apart a a' q q' x x' (get-erase-some c.mem.live name a q l).1
        (get-erase-some c.mem.live name a' q' l').1 k k' y;
  boxes_below = s.boxes_below;
  below = λ oc r f. s.below oc r (get-erase-some c.mem.running b.oc oc r f).1;
}
  where
    same_box :
        (n : List ℕ) (q : ℕ) (x : OtterBox)
        → name ≡ n
        → get c.mem.live n ≡ some q
        → get c.mem.boxes q ≡ some x
        → b.oc ≡ x.oc
    same_box n q x z l k =
        ap (λ (y : OtterBox). y.oc)
          (some_eq (
            sym kept
            ∙ ap (get c.mem.boxes) (some_eq (sym is_live ∙ ap (get c.mem.live) z ∙ l))
            ∙ k))

pub drop_unless-IsServing :
    (want : List ℕ → Option Spec) (c : CacheModule) (name : List ℕ) (built : Option ℕ)
    → get c.mem.live name ≡ built
    → IsServing want c
    → IsServing (with_spec name none want) (drop_unless none name built c)
unfolding drop_unless
drop_unless-IsServing want c name none l s = unregister-IsServing want c name l s
drop_unless-IsServing want c name (some p) l s =
    let (b, k) = s.boxed name p l in rw k.kept (dropped-IsServing want c name p b l k.kept s)

-- A new name gets an entry that is not built.
pub add_unless-IsServing :
    (want : List ℕ → Option Spec) (c : CacheModule) (name : List ℕ) (spec : Spec)
    → want name ≡ none
    → IsServing want c
    → IsServing (with_spec name (some spec) want) (add_unless none name c)
unfolding add_unless
add_unless-IsServing want c name spec fresh s = record {
  registered = λ n e found. registered_at n e (get-put-some c.registry name n _ e found);
  declared = λ n t w. declared_at n t (with_spec-some name n spec want t w);
  bound_live = λ n e x found bound. bound_at n e x (get-put-some c.registry name n _ e found) bound;
  live_bound = λ n q l.
      let (e, x, found, bound) = s.live_bound n q l in
      (e, x, get-put_ne c.registry name n _ (live_ne n q l) ∙ found, bound);
  boxed = λ n q l.
      let (x, k) = s.boxed n q l in
      (
        x,
        record {
          kept = k.kept;
          named = k.named;
          wanted = with_spec_ne name n (some spec) want (live_ne n q l) ∙ k.wanted;
          runs = k.runs;
        },
      );
  owned = s.owned;
  apart = s.apart;
  boxes_below = s.boxes_below;
  below = s.below;
}
  where
    live_ne : (n : List ℕ) (q : ℕ) → get c.mem.live n ≡ some q → name ≢ n
    live_ne n q l y = let (x, k) = s.boxed n q l in none_ne (sym fresh ∙ ap want y ∙ k.wanted)

    registered_at :
        (n : List ℕ) (e : Entry (List ℕ))
        → ((name ≡ n) × (record { builder = name; bound = none } ≡ e))
          ⊎ ((name ≢ n) × (get c.registry n ≡ some e))
        → Declared (with_spec name (some spec) want) n e
    registered_at n e (inl (y, same)) = record {
      builds = ap (λ (x : Entry (List ℕ)). x.builder) (sym same) ∙ y;
      spec = spec;
      wanted = ap (with_spec name (some spec) want) (sym y) ∙ with_spec_at name (some spec) want;
    }
    registered_at n e (inr (ne, f)) =
        let d = s.registered n e f in
        record {
          builds = d.builds;
          spec = d.spec;
          wanted = with_spec_ne name n (some spec) want ne ∙ d.wanted;
        }

    declared_at :
        (n : List ℕ) (t : Spec)
        → (name ≡ n) ⊎ ((name ≢ n) × (want n ≡ some t))
        → (e : Entry (List ℕ)) × (get
              (put c.registry name (record { builder = name; bound = none }))
              n
            ≡ some e)
    declared_at n t (inl y) =
        (_, ap (get (put c.registry name _)) (sym y) ∙ get-put c.registry name _)
    declared_at n t (inr (ne, w)) =
        let (e, found) = s.declared n t w in (e, get-put_ne c.registry name n _ ne ∙ found)

    bound_at :
        (n : List ℕ) (e : Entry (List ℕ)) (x : Bound)
        → ((name ≡ n) × (record { builder = name; bound = none } ≡ e))
          ⊎ ((name ≢ n) × (get c.registry n ≡ some e))
        → e.bound ≡ some x
        → get c.mem.live n ≡ some x.box
    bound_at n e x (inl (y, same)) bound =
        absurd (none_ne (ap (λ (z : Entry (List ℕ)). z.bound) same ∙ bound))
    bound_at n e x (inr (ne, f)) bound = s.bound_live n e x f bound
