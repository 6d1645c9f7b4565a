-- ===== src/Cache/Memory/Moved.antt =====
-- What is served once a box has another cache, or another spec (pkg/cache/memory/module.go).
use lakta.Prelude.{
  ℕ, ◌<◌, ◌≤◌, ◌≡◌, ◌≢◌, refl, sym, ap, subst, ◌∙◌, true, false, Option, none, some, List, get, put,
  get-put, get-put_ne, get-put-some, none_ne, not_eq, same-eq, ◌==◌, nat_keyed, bytes_keyed, inl,
  inr, ◌⊎◌, Bool-cases, arith,
}
use lakta.Cache.{Entry}
use lakta.Cache.Memory.{Spec, OtterBox, Running, Memory}
use lakta.Cache.Memory.Reload.{CacheModule}
use lakta.Cache.Memory.Serving.{
  IsServing, Declared, Boxed, serving, with_spec, with_spec_ne, with_spec-some, some_eq,
}

-- The caches that run once box `b`, which had its own, has `oc`.
pub record Moved (m : Memory) (b : OtterBox) (oc : ℕ) (spec : Spec) (running : List (ℕ × Running))
    (created : ℕ) : Type 0 where
  pub runs : get running oc ≡ some (serving spec)
  pub others :
      (other : ℕ) (r : Running)
      → other ≢ b.oc
      → get m.running other ≡ some r
      → get running other ≡ some r
  pub back :
      (other : ℕ) (r : Running)
      → get running other ≡ some r
      → (other ≡ oc) ⊎ ((other ≢ b.oc) × (get m.running other ≡ some r))
  pub own : (oc ≡ b.oc) ⊎ (oc ≡ m.created)
  pub grows : m.created ≤ created
  pub below : oc < created

module _ (want : List ℕ → Option Spec) (c : CacheModule) (s : IsServing want c) where
  same_name :
      (a a' : List ℕ) (p : ℕ) → get c.mem.live a ≡ some p → get c.mem.live a' ≡ some p → a ≡ a'
  same_name a a' p l l' =
      let (b, k) = s.boxed a p l in
      let (b', k') = s.boxed a' p l' in
      sym k.named ∙ ap (λ (x : OtterBox). x.name) (some_eq (sym k.kept ∙ k'.kept)) ∙ k'.named

  module _ (name : List ℕ) (p : ℕ) (b : OtterBox) (l : get c.mem.live name ≡ some p)
      (kept : get c.mem.boxes p ≡ some b) where
    pub moved-IsServing :
        (oc : ℕ) (spec : Spec) (running : List (ℕ × Running)) (created : ℕ)
        → Moved c.mem b oc spec running created
        → IsServing (with_spec name (some spec) want) (record c {
          mem = record c.mem {
            boxes = put c.mem.boxes p (record b { oc = oc; spec = spec });
            running = running;
            created = created;
          };
        })
    moved-IsServing oc spec running created t = record {
      registered = λ n e f. registered_at n e f (Bool-cases (name == n)) (s.registered n e f);
      declared = λ n z w. declared_at n z (with_spec-some name n spec want z w);
      bound_live = s.bound_live;
      live_bound = s.live_bound;
      boxed = λ n q l'. boxed_at n q l' (Bool-cases (name == n));
      owned = λ o r f. owned_at o r (t.back o r f);
      apart = λ a a' q q' x x' m m' k k' y.
          apart_at a a' q q' x x' m m' (get-put-some c.mem.boxes p q new_box x k)
            (get-put-some c.mem.boxes p q' new_box x' k') y;
      boxes_below = λ q x k. below_at q x (get-put-some c.mem.boxes p q new_box x k);
      below = λ o r f. running_at o r (t.back o r f);
    }
      where
        new_box : OtterBox
        new_box = record b { oc = oc; spec = spec }

        registered_at :
            (n : List ℕ) (e : Entry (List ℕ))
            → get c.registry n ≡ some e
            → (name == n ≡ true) ⊎ (name == n ≡ false)
            → Declared want n e
            → Declared (with_spec name (some spec) want) n e
        registered_at n e f (inl y) d = record {
          builds = d.builds;
          spec = spec;
          wanted = rw y refl;
        }
        registered_at n e f (inr ne) d = record {
          builds = d.builds;
          spec = d.spec;
          wanted = rw ne d.wanted;
        }

        declared_at :
            (n : List ℕ) (z : Spec)
            → (name ≡ n) ⊎ ((name ≢ n) × (want n ≡ some z))
            → (e : Entry (List ℕ)) × (get c.registry n ≡ some e)
        declared_at n z (inl y) =
            let (x, k) = s.boxed name p l in
            let (e, f) = s.declared name x.spec k.wanted in (e, ap (get c.registry) (sym y) ∙ f)
        declared_at n z (inr (ne, w)) = s.declared n z w

        box_name : b.name ≡ name
        box_name =
            let (x, k) = s.boxed name p l in
            ap (λ (v : OtterBox). v.name) (some_eq (sym kept ∙ k.kept)) ∙ k.named

        boxed_at :
            (n : List ℕ) (q : ℕ)
            → get c.mem.live n ≡ some q
            → (name == n ≡ true) ⊎ (name == n ≡ false)
            → (x : OtterBox) × Boxed
                (with_spec name (some spec) want)
                (record c.mem {
                  boxes = put c.mem.boxes p new_box;
                  running = running;
                  created = created;
                })
                n
                q
                x
        boxed_at n q l' (inl y) = (
          new_box,
          record {
            kept =
                ap (get (put c.mem.boxes p new_box))
                  (some_eq (sym l' ∙ ap (get c.mem.live) (sym (same-eq name n y)) ∙ l))
                ∙ get-put c.mem.boxes p new_box;
            named = box_name ∙ same-eq name n y;
            wanted = rw y refl;
            runs = t.runs;
          },
        )
        boxed_at n q l' (inr ne) =
            let (x, k) = s.boxed n q l' in
            (
              x,
              record {
                kept =
                    get-put_ne c.mem.boxes p q new_box
                      (λ z. not_eq name n ne (same_name name n q (l ∙ ap some z) l'))
                    ∙ k.kept;
                named = k.named;
                wanted = rw ne k.wanted;
                runs =
                    t.others x.oc (serving x.spec)
                      (λ z. not_eq name n ne (s.apart name n p q b x l l' kept k.kept (sym z)))
                      k.runs;
              },
            )

        owned_at :
            (o : ℕ) (r : Running)
            → (o ≡ oc) ⊎ ((o ≢ b.oc) × (get c.mem.running o ≡ some r))
            → (n : List ℕ) × (q : ℕ) × (x : OtterBox) × (get c.mem.live n ≡ some q)
              × (get (put c.mem.boxes p new_box) q ≡ some x)
              × (x.oc ≡ o)
        owned_at o r (inl y) = (name, p, new_box, l, get-put c.mem.boxes p new_box, sym y)
        owned_at o r (inr (ne, f)) =
            let (n, q, x, l', k, y) = s.owned o r f in
            (
              n,
              q,
              x,
              l',
              get-put_ne c.mem.boxes p q new_box (λ z. ne (
                    sym y
                    ∙ ap (λ (v : OtterBox). v.oc)
                        (some_eq (sym k ∙ ap (get c.mem.boxes) (sym z) ∙ kept))))
                  ∙ k,
              y,
            )

        oc_below :
            (a : List ℕ) (q : ℕ) (x : OtterBox)
            → get c.mem.live a ≡ some q
            → get c.mem.boxes q ≡ some x
            → x.oc < c.mem.created
        oc_below a q x m k =
            let (v, kv) = s.boxed a q m in
            subst (λ (z : OtterBox). z.oc < c.mem.created) (some_eq (sym kv.kept ∙ k))
              (s.below v.oc (serving v.spec) kv.runs)

        clash :
            (a : List ℕ) (q : ℕ) (x : OtterBox)
            → get c.mem.live a ≡ some q
            → get c.mem.boxes q ≡ some x
            → x.oc ≡ oc
            → (oc ≡ b.oc) ⊎ (oc ≡ c.mem.created)
            → a ≡ name
        clash a q x m k y (inl z) = s.apart a name q p x b m l k kept (y ∙ z)
        clash a q x m k y (inr z) = absurd (omega (arith, oc_below a q x m k, y, z))

        apart_at :
            (a a' : List ℕ) (q q' : ℕ) (x x' : OtterBox)
            → get c.mem.live a ≡ some q
            → get c.mem.live a' ≡ some q'
            → ((p ≡ q) × (new_box ≡ x)) ⊎ ((p ≢ q) × (get c.mem.boxes q ≡ some x))
            → ((p ≡ q') × (new_box ≡ x')) ⊎ ((p ≢ q') × (get c.mem.boxes q' ≡ some x'))
            → x.oc ≡ x'.oc
            → a ≡ a'
        apart_at a a' q q' x x' m m' (inl (y, z)) (inl (y', z')) e =
            same_name a a' p (m ∙ ap some (sym y)) (m' ∙ ap some (sym y'))
        apart_at a a' q q' x x' m m' (inl (y, z)) (inr (ne, k)) e =
            same_name a name p (m ∙ ap some (sym y)) l
            ∙ sym (clash a' q' x' m' k (sym e ∙ ap (λ (v : OtterBox). v.oc) (sym z)) t.own)
        apart_at a a' q q' x x' m m' (inr (ne, k)) (inl (y', z')) e =
            clash a q x m k (e ∙ ap (λ (v : OtterBox). v.oc) (sym z')) t.own
            ∙ same_name name a' p l (m' ∙ ap some (sym y'))
        apart_at a a' q q' x x' m m' (inr (ne, k)) (inr (ne', k')) e =
            s.apart a a' q q' x x' m m' k k' e

        below_at :
            (q : ℕ) (x : OtterBox)
            → ((p ≡ q) × (new_box ≡ x)) ⊎ ((p ≢ q) × (get c.mem.boxes q ≡ some x))
            → q < created
        below_at q x (inl (y, z)) = omega (arith, s.boxes_below p b kept, t.grows, y)
        below_at q x (inr (ne, k)) = omega (arith, s.boxes_below q x k, t.grows)

        running_at :
            (o : ℕ) (r : Running)
            → (o ≡ oc) ⊎ ((o ≢ b.oc) × (get c.mem.running o ≡ some r))
            → o < created
        running_at o r (inl y) = omega (arith, t.below, y)
        running_at o r (inr (ne, f)) = omega (arith, s.below o r f, t.grows)

  -- A name that is declared and has no box.
  pub respec-IsServing :
      (name : List ℕ) (old spec : Spec)
      → want name ≡ some old
      → get c.mem.live name ≡ none
      → IsServing (with_spec name (some spec) want) c
  respec-IsServing name old spec w idle = record {
    registered = λ n e f. registered_at n e (Bool-cases (name == n)) (s.registered n e f);
    declared = λ n z v. declared_at n z (with_spec-some name n spec want z v);
    bound_live = s.bound_live;
    live_bound = s.live_bound;
    boxed = λ n q l.
        let (x, k) = s.boxed n q l in
        (
          x,
          record {
            kept = k.kept;
            named = k.named;
            wanted =
                with_spec_ne name n (some spec) want
                  (λ y. none_ne (sym idle ∙ ap (get c.mem.live) y ∙ l))
                ∙ k.wanted;
            runs = k.runs;
          },
        );
    owned = s.owned;
    apart = s.apart;
    boxes_below = s.boxes_below;
    below = s.below;
  }
    where
      registered_at :
          (n : List ℕ) (e : Entry (List ℕ))
          → (name == n ≡ true) ⊎ (name == n ≡ false)
          → Declared want n e
          → Declared (with_spec name (some spec) want) n e
      registered_at n e (inl y) d = record { builds = d.builds; spec = spec; wanted = rw y refl }
      registered_at n e (inr ne) d = record {
        builds = d.builds;
        spec = d.spec;
        wanted = rw ne d.wanted;
      }

      declared_at :
          (n : List ℕ) (z : Spec)
          → (name ≡ n) ⊎ ((name ≢ n) × (want n ≡ some z))
          → (e : Entry (List ℕ)) × (get c.registry n ≡ some e)
      declared_at n z (inl y) = s.declared n old (ap want (sym y) ∙ w)
      declared_at n z (inr (ne, v)) = s.declared n z v
