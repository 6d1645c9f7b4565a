-- ===== src/Cache/Guard.antt =====
-- The type guard of `Named`, and its memoized handles (pkg/cache/registry.go), for any backend.
use lakta.Prelude.{
  ℕ, ◌≡◌, ◌≢◌, refl, sym, ap, subst, ◌∙◌, true, false, ◌&&◌, Option, none, some, List, [], ◌∷◌,
  Result, ok, err, ok-injective, get, get-put, get-put_ne, none_ne, bytes_keyed, nat_eqb, nat_keyed,
  same-eq, if◌then◌else◌, inl, inr, ◌⊎◌, Bool-cases, arith,
}
use lakta.Cache.{
  Entry, Bound, Built, failed, not_backend, built, NamedError, already_bound, TypedCache, guarded,
  bind, ask_entry, ask, named, Asked,
}

module _ {Builder S : Type 0} (build : Builder → (kt vt : ℕ) → S → S × Built) where
  -- The name is bound to this handle.
  abbrev pub IsBound : List ℕ → TypedCache → List (List ℕ × Entry Builder) → Type 0
  IsBound name h entries =
      (e : Entry Builder) × (get entries name ≡ some e)
      × (e.bound ≡ some (record { box = h.box; key_type = h.key_type; val_type = h.val_type }))

  -- A sequence of calls of `Named`.
  unfoldable pub asks :
      List (List ℕ × ℕ × ℕ) → List (List ℕ × Entry Builder) → S → List (List ℕ × Entry Builder) × S
  unfolding named
  asks [] entries s = (entries, s)
  asks ((name, kt, vt) ∷ calls) entries s =
      let after = named build name kt vt entries s in asks calls after.0.0 after.0.1

  guarded_lem :
      (h : TypedCache) (kt vt : ℕ)
      → guarded (record { box = h.box; key_type = h.key_type; val_type = h.val_type }) kt vt ≡ (
          if nat_eqb h.key_type kt && nat_eqb h.val_type vt
          then ok h
          else err (already_bound h.key_type h.val_type))
  unfolding guarded
  guarded_lem h kt vt = ground arith

  bound_ask :
      (name : List ℕ) (kt vt : ℕ) (h : TypedCache) (entries : List (List ℕ × Entry Builder)) (s : S)
      → IsBound name h entries
      → named build name kt vt entries s ≡ (
        (entries, s),
        if nat_eqb h.key_type kt && nat_eqb h.val_type vt
            then ok h
            else err (already_bound h.key_type h.val_type),
      )
  unfolding named
  bound_ask name kt vt h entries s (e, found, bound) =
      rw found (rw bound (ap (λ r. ((entries, s), r)) (guarded_lem h kt vt)))

  bind-IsBound :
      (name other : List ℕ) (kt vt : ℕ) (b : Builder) (entries : List (List ℕ × Entry Builder))
      (s : S × Built) (h : TypedCache)
      → other ≢ name
      → IsBound name h entries
      → IsBound name h (bind build other kt vt b entries s).0.0
  unfolding bind
  bind-IsBound name other kt vt b entries (s, failed) h n k = k
  bind-IsBound name other kt vt b entries (s, not_backend) h n k = k
  bind-IsBound name other kt vt b entries (s, built box) h n (e, found, bound) =
      (e, get-put_ne entries other name _ n ∙ found, bound)

  ask_entry-IsBound :
      (name other : List ℕ) (kt vt : ℕ) (e : Entry Builder) (bound : Option Bound)
      (entries : List (List ℕ × Entry Builder)) (s : S) (h : TypedCache)
      → get entries other ≡ some e
      → e.bound ≡ bound
      → IsBound name h entries
      → IsBound name h (ask_entry build other kt vt e.builder bound entries s).0.0
  unfolding ask_entry
  ask_entry-IsBound name other kt vt e (some b) entries s h found is_bound k = k
  ask_entry-IsBound name other kt vt e none entries s h found is_bound (f, known, has) =
      bind-IsBound name other kt vt e.builder entries (build e.builder kt vt s) h
        (λ y. none_ne (sym is_bound ∙ ap (λ (x : Entry Builder). x.bound) (same_entry y) ∙ has))
        (f, known, has)
    where
      same_entry : other ≡ name → e ≡ f
      same_entry y = cc (sym found ∙ ap (get entries) y ∙ known)

  ask-IsBound :
      (name other : List ℕ) (kt vt : ℕ) (e : Option (Entry Builder))
      (entries : List (List ℕ × Entry Builder)) (s : S) (h : TypedCache)
      → get entries other ≡ e
      → IsBound name h entries
      → IsBound name h (ask build other kt vt e entries s).0.0
  unfolding ask
  ask-IsBound name other kt vt none entries s h found k = k
  ask-IsBound name other kt vt (some e) entries s h found k =
      ask_entry-IsBound name other kt vt e e.bound entries s h found refl k

  asks-IsBound :
      (name : List ℕ) (calls : List (List ℕ × ℕ × ℕ)) (entries : List (List ℕ × Entry Builder))
      (s : S) (h : TypedCache)
      → IsBound name h entries
      → IsBound name h (asks calls entries s).0
  unfolding asks named
  asks-IsBound name [] entries s h k = k
  asks-IsBound name ((other, kt, vt) ∷ calls) entries s h k =
      asks-IsBound name calls _ _ h
        (ask-IsBound name other kt vt (get entries other) entries s h refl k)

  -- A successful call leaves the name bound to the handle, of the types that were asked for.
  abbrev Sealed : List ℕ → (kt vt : ℕ) → Asked build → Type 0
  Sealed name kt vt (after, ok h) = IsBound name h after.0 × (h.key_type ≡ kt) × (h.val_type ≡ vt)
  Sealed name kt vt (after, err e) = Unit

  bind-Sealed :
      (name : List ℕ) (kt vt : ℕ) (b : Builder) (entries : List (List ℕ × Entry Builder))
      (s : S × Built)
      → Sealed name kt vt (bind build name kt vt b entries s)
  unfolding bind
  bind-Sealed name kt vt b entries (s, failed) = tt
  bind-Sealed name kt vt b entries (s, not_backend) = tt
  bind-Sealed name kt vt b entries (s, built box) = ((_, get-put entries name _, refl), refl, refl)

  guarded-Sealed :
      (name : List ℕ) (kt vt : ℕ) (e : Entry Builder) (b : Bound)
      (entries : List (List ℕ × Entry Builder)) (s : S)
      → get entries name ≡ some e
      → e.bound ≡ some b
      → Sealed name kt vt ((entries, s), guarded b kt vt)
  unfolding guarded
  guarded-Sealed name kt vt e b entries s found bound =
      by_test (Bool-cases (nat_eqb b.key_type kt)) (Bool-cases (nat_eqb b.val_type vt))
    where
      by_test :
          (nat_eqb b.key_type kt ≡ true) ⊎ (nat_eqb b.key_type kt ≡ false)
          → (nat_eqb b.val_type vt ≡ true) ⊎ (nat_eqb b.val_type vt ≡ false)
          → Sealed name kt vt ((entries, s), guarded b kt vt)
      by_test (inl x) (inl y) = rw x (rw y ((e, found, bound), same-eq _ _ x, same-eq _ _ y))
      by_test (inl x) (inr y) = rw x (rw y tt)
      by_test (inr x) y = rw x tt

  ask-Sealed :
      (name : List ℕ) (kt vt : ℕ) (e : Option (Entry Builder))
      (entries : List (List ℕ × Entry Builder)) (s : S)
      → get entries name ≡ e
      → Sealed name kt vt (ask build name kt vt e entries s)
  unfolding ask
  ask-Sealed name kt vt none entries s found = tt
  ask-Sealed name kt vt (some e) entries s found = by_bound e.bound refl
    where
      by_bound :
          (bound : Option Bound)
          → e.bound ≡ bound
          → Sealed name kt vt (ask_entry build name kt vt e.builder bound entries s)
      by_bound none is = bind-Sealed name kt vt e.builder entries (build e.builder kt vt s)
      by_bound (some b) is = guarded-Sealed name kt vt e b entries s found is

  named-Sealed :
      (name : List ℕ) (kt vt : ℕ) (entries : List (List ℕ × Entry Builder)) (s : S)
      → Sealed name kt vt (named build name kt vt entries s)
  unfolding named
  named-Sealed name kt vt entries s = ask-Sealed name kt vt (get entries name) entries s refl

  Sealed-handle :
      (name : List ℕ) (kt vt : ℕ) (h : TypedCache) (first : Asked build)
      → Sealed name kt vt first
      → first.1 ≡ ok h
      → IsBound name h first.0.0 × (h.key_type ≡ kt) × (h.val_type ≡ vt)
  Sealed-handle name kt vt h (after, ok g) k same =
      subst (λ x. IsBound name x after.0 × (x.key_type ≡ kt) × (x.val_type ≡ vt))
        (ok-injective same) k
  Sealed-handle name kt vt h (after, err e) k same = cc

  answer :
      (h : TypedCache) (kt vt kt' vt' : ℕ)
      → h.key_type ≡ kt
      → h.val_type ≡ vt
      → (if nat_eqb h.key_type kt' && nat_eqb h.val_type vt'
          then ok h
          else err (already_bound h.key_type h.val_type))
        ≡ (if nat_eqb kt kt' && nat_eqb vt vt' then ok h else err (already_bound kt vt))
  answer h kt vt kt' vt' x y =
      ap
        (λ (t : ℕ × ℕ).
          if nat_eqb t.0 kt' && nat_eqb t.1 vt' then ok h else err (already_bound t.0 t.1))
        (λ i. (x i, y i))

  -- Once Named has returned a handle, it is of the types that were asked for; and whatever other
  -- calls of Named follow, a later call for that name with these types returns the same handle, one
  -- with other types is refused with the types of the handle, and neither builds anything.
  pub named-same_handle :
      (name : List ℕ) (kt vt : ℕ) (entries : List (List ℕ × Entry Builder)) (s : S) (h : TypedCache)
      → (named build name kt vt entries s).1 ≡ ok h
      → (calls : List (List ℕ × ℕ × ℕ)) (kt' vt' : ℕ)
      → let first = named build name kt vt entries s in
        let later = asks calls first.0.0 first.0.1 in
        (h.key_type ≡ kt)
        × (h.val_type ≡ vt)
        × (named build name kt' vt' later.0 later.1
            ≡ (later, if nat_eqb kt kt' && nat_eqb vt vt' then ok h else err (already_bound kt vt)))
  named-same_handle name kt vt entries s h done calls kt' vt' =
      let first = named build name kt vt entries s in
      let (k, same_key, same_val) =
        Sealed-handle name kt vt h first (named-Sealed name kt vt entries s) done in
      (
        same_key,
        same_val,
        bound_ask name kt' vt' h _ _ (asks-IsBound name calls first.0.0 first.0.1 h k)
            ∙ ap (λ (r : Result NamedError TypedCache). (asks calls first.0.0 first.0.1, r))
                (answer h kt vt kt' vt' same_key same_val),
      )
