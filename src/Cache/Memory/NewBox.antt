-- ===== src/Cache/Memory/NewBox.antt =====
-- What is served once the box of a name is built (pkg/cache/memory/module.go).
use lakta.Prelude.{
  ℕ, suc, ◌<◌, ◌≡◌, ◌≢◌, refl, sym, ap, subst, ◌∙◌, true, false, Option, none, some, List, get, put,
  get-put, get-put_ne, get-put-some, none_ne, not_eq, same-eq, ◌==◌, nat_keyed, bytes_keyed, inl,
  inr, ◌⊎◌, Bool-cases, arith,
}
use lakta.Cache.{Entry, Bound}
use lakta.Cache.Memory.{Spec, OtterBox, Running}
use lakta.Cache.Memory.Reload.{CacheModule}
use lakta.Cache.Memory.Serving.{IsServing, Declared, Boxed, serving, some_eq}

abbrev pub new_entry : CacheModule → List ℕ → (kt vt : ℕ) → Entry (List ℕ)
new_entry c name kt vt = record {
  builder = name;
  bound = some (record { box = c.mem.created; key_type = kt; val_type = vt });
}

abbrev pub new_box : CacheModule → List ℕ → Spec → OtterBox
new_box c name spec = record { oc = c.mem.created; spec = spec; name = name }

-- The module once the cache of a name is built.
abbrev pub with_box : List ℕ → Spec → (kt vt : ℕ) → CacheModule → CacheModule
with_box name spec kt vt c = record {
  registry = put c.registry name (new_entry c name kt vt);
  mem = record c.mem {
    live = put c.mem.live name c.mem.created;
    boxes = put c.mem.boxes c.mem.created (new_box c name spec);
    running = put c.mem.running c.mem.created (serving spec);
    created = suc c.mem.created;
  };
}

pub with_box-IsServing :
    (want : List ℕ → Option Spec) (c : CacheModule) (name : List ℕ) (spec : Spec) (kt vt : ℕ)
    → IsServing want c
    → want name ≡ some spec
    → get c.mem.live name ≡ none
    → IsServing want (with_box name spec kt vt c)
with_box-IsServing want c name spec kt vt s w idle = record {
  registered = λ n e f. registered_at n e (get-put-some c.registry name n _ e f);
  declared = λ n z v. declared_at n z v (Bool-cases (name == n));
  bound_live = λ n e b f bound. bound_at n e b (get-put-some c.registry name n _ e f) bound;
  live_bound = λ n q l. live_at n q (get-put-some c.mem.live name n _ q l);
  boxed = λ n q l. boxed_at n q (get-put-some c.mem.live name n _ q l);
  owned = λ o r f. owned_at o r (get-put-some c.mem.running c.mem.created o _ r f);
  apart = λ a a' q q' x x' l l' k k' e.
      apart_at a a' q q' x x' (get-put-some c.mem.live name a _ q l)
        (get-put-some c.mem.live name a' _ q' l') (get-put-some c.mem.boxes c.mem.created q _ x k)
        (get-put-some c.mem.boxes c.mem.created q' _ x' k') e;
  boxes_below = λ q x k. box_below q x (get-put-some c.mem.boxes c.mem.created q _ x k);
  below = λ o r f. running_below o r (get-put-some c.mem.running c.mem.created o _ r f);
}
  where
    registered_at :
        (n : List ℕ) (e : Entry (List ℕ))
        → ((name ≡ n) × (new_entry c name kt vt ≡ e)) ⊎ ((name ≢ n) × (get c.registry n ≡ some e))
        → Declared want n e
    registered_at n e (inl (y, same)) = record {
      builds = ap (λ (x : Entry (List ℕ)). x.builder) (sym same) ∙ y;
      spec = spec;
      wanted = ap want (sym y) ∙ w;
    }
    registered_at n e (inr (ne, f)) = s.registered n e f

    declared_at :
        (n : List ℕ) (z : Spec)
        → want n ≡ some z
        → (name == n ≡ true) ⊎ (name == n ≡ false)
        → (e : Entry (List ℕ)) × (get (put c.registry name (new_entry c name kt vt)) n ≡ some e)
    declared_at n z v (inl y) = (
      new_entry c name kt vt,
      ap (get (put c.registry name (new_entry c name kt vt))) (sym (same-eq name n y))
          ∙ get-put c.registry name (new_entry c name kt vt),
    )
    declared_at n z v (inr ne) =
        let (e, f) = s.declared n z v in
        (e, get-put_ne c.registry name n (new_entry c name kt vt) (not_eq name n ne) ∙ f)

    bound_at :
        (n : List ℕ) (e : Entry (List ℕ)) (b : Bound)
        → ((name ≡ n) × (new_entry c name kt vt ≡ e)) ⊎ ((name ≢ n) × (get c.registry n ≡ some e))
        → e.bound ≡ some b
        → get (put c.mem.live name c.mem.created) n ≡ some b.box
    bound_at n e b (inl (y, same)) bound =
        ap (get (put c.mem.live name c.mem.created)) (sym y)
        ∙ get-put c.mem.live name c.mem.created
        ∙ ap some (
            ap (λ (x : Bound). x.box) (some_eq (ap (λ (x : Entry (List ℕ)). x.bound) same ∙ bound)))
    bound_at n e b (inr (ne, f)) bound =
        get-put_ne c.mem.live name n c.mem.created ne ∙ s.bound_live n e b f bound

    live_at :
        (n : List ℕ) (q : ℕ)
        → ((name ≡ n) × (c.mem.created ≡ q)) ⊎ ((name ≢ n) × (get c.mem.live n ≡ some q))
        → (e : Entry (List ℕ)) × (b : Bound) × (get (put c.registry name (new_entry c name kt vt)) n
            ≡ some e)
          × (e.bound ≡ some b)
    live_at n q (inl (y, z)) = (
      new_entry c name kt vt,
      record { box = c.mem.created; key_type = kt; val_type = vt },
      ap (get (put c.registry name (new_entry c name kt vt))) (sym y)
          ∙ get-put c.registry name (new_entry c name kt vt),
      refl,
    )
    live_at n q (inr (ne, l)) =
        let (e, b, f, bound) = s.live_bound n q l in
        (e, b, get-put_ne c.registry name n (new_entry c name kt vt) ne ∙ f, bound)

    boxed_at :
        (n : List ℕ) (q : ℕ)
        → ((name ≡ n) × (c.mem.created ≡ q)) ⊎ ((name ≢ n) × (get c.mem.live n ≡ some q))
        → (x : OtterBox) × Boxed want (with_box name spec kt vt c).mem n q x
    boxed_at n q (inl (y, z)) = (
      new_box c name spec,
      record {
        kept =
            ap (get (put c.mem.boxes c.mem.created (new_box c name spec))) (sym z)
            ∙ get-put c.mem.boxes c.mem.created (new_box c name spec);
        named = y;
        wanted = ap want (sym y) ∙ w;
        runs = get-put c.mem.running c.mem.created (serving spec);
      },
    )
    boxed_at n q (inr (ne, l)) =
        let (x, k) = s.boxed n q l in
        (
          x,
          record {
            kept =
                get-put_ne c.mem.boxes c.mem.created q _
                  (λ y. omega (arith, s.boxes_below q x k.kept, y))
                ∙ k.kept;
            named = k.named;
            wanted = k.wanted;
            runs =
                get-put_ne c.mem.running c.mem.created x.oc _
                  (λ y. omega (arith, s.below x.oc (serving x.spec) k.runs, y))
                ∙ k.runs;
          },
        )

    owned_at :
        (o : ℕ) (r : Running)
        → ((c.mem.created ≡ o) × (serving spec ≡ r))
          ⊎ ((c.mem.created ≢ o) × (get c.mem.running o ≡ some r))
        → (n : List ℕ) × (q : ℕ) × (x : OtterBox) × (get (put c.mem.live name c.mem.created) n
            ≡ some q)
          × (get (put c.mem.boxes c.mem.created (new_box c name spec)) q ≡ some x)
          × (x.oc ≡ o)
    owned_at o r (inl (y, z)) = (
      name,
      c.mem.created,
      new_box c name spec,
      get-put c.mem.live name c.mem.created,
      get-put c.mem.boxes c.mem.created (new_box c name spec),
      y,
    )
    owned_at o r (inr (ne, f)) =
        let (n, q, x, l, k, y) = s.owned o r f in
        (
          n,
          q,
          x,
          get-put_ne c.mem.live name n _ (λ z. none_ne (sym idle ∙ ap (get c.mem.live) z ∙ l)) ∙ l,
          get-put_ne c.mem.boxes c.mem.created q _ (λ z. omega (arith, s.boxes_below q x k, z)) ∙ k,
          y,
        )

    old_below :
        (a : List ℕ) (q : ℕ) (x : OtterBox)
        → get c.mem.live a ≡ some q
        → ((c.mem.created ≡ q) × (new_box c name spec ≡ x))
          ⊎ ((c.mem.created ≢ q) × (get c.mem.boxes q ≡ some x))
        → (get c.mem.boxes q ≡ some x) × (x.oc < c.mem.created)
    old_below a q x l (inl (y, z)) =
        let (v, k) = s.boxed a q l in absurd (omega (arith, s.boxes_below q v k.kept, y))
    old_below a q x l (inr (ne, f)) =
        let (v, k) = s.boxed a q l in
        (
          f,
          subst (λ (z : OtterBox). z.oc < c.mem.created) (some_eq (sym k.kept ∙ f))
              (s.below v.oc (serving v.spec) k.runs),
        )

    new_oc :
        (q : ℕ) (x : OtterBox)
        → c.mem.created ≡ q
        → ((c.mem.created ≡ q) × (new_box c name spec ≡ x))
          ⊎ ((c.mem.created ≢ q) × (get c.mem.boxes q ≡ some x))
        → x.oc ≡ c.mem.created
    new_oc q x y (inl (z, same)) = ap (λ (v : OtterBox). v.oc) (sym same)
    new_oc q x y (inr (ne, f)) = absurd (ne y)

    apart_at :
        (a a' : List ℕ) (q q' : ℕ) (x x' : OtterBox)
        → ((name ≡ a) × (c.mem.created ≡ q)) ⊎ ((name ≢ a) × (get c.mem.live a ≡ some q))
        → ((name ≡ a') × (c.mem.created ≡ q')) ⊎ ((name ≢ a') × (get c.mem.live a' ≡ some q'))
        → ((c.mem.created ≡ q) × (new_box c name spec ≡ x))
          ⊎ ((c.mem.created ≢ q) × (get c.mem.boxes q ≡ some x))
        → ((c.mem.created ≡ q') × (new_box c name spec ≡ x'))
          ⊎ ((c.mem.created ≢ q') × (get c.mem.boxes q' ≡ some x'))
        → x.oc ≡ x'.oc
        → a ≡ a'
    apart_at a a' q q' x x' (inl (y, z)) (inl (y', z')) k k' e = sym y ∙ y'
    apart_at a a' q q' x x' (inl (y, z)) (inr (ne, l')) k k' e =
        absurd (omega (arith, new_oc q x z k, (old_below a' q' x' l' k').1, e))
    apart_at a a' q q' x x' (inr (ne, l)) (inl (y', z')) k k' e =
        absurd (omega (arith, new_oc q' x' z' k', (old_below a q x l k).1, e))
    apart_at a a' q q' x x' (inr (ne, l)) (inr (ne', l')) k k' e =
        s.apart a a' q q' x x' l l' (old_below a q x l k).0 (old_below a' q' x' l' k').0 e

    box_below :
        (q : ℕ) (x : OtterBox)
        → ((c.mem.created ≡ q) × (new_box c name spec ≡ x))
          ⊎ ((c.mem.created ≢ q) × (get c.mem.boxes q ≡ some x))
        → q < suc c.mem.created
    box_below q x (inl (y, z)) = omega (arith, y)
    box_below q x (inr (ne, f)) = omega (arith, s.boxes_below q x f)

    running_below :
        (o : ℕ) (r : Running)
        → ((c.mem.created ≡ o) × (serving spec ≡ r))
          ⊎ ((c.mem.created ≢ o) × (get c.mem.running o ≡ some r))
        → o < suc c.mem.created
    running_below o r (inl (y, z)) = omega (arith, y)
    running_below o r (inr (ne, f)) = omega (arith, s.below o r f)
