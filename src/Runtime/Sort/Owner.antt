-- ===== src/Runtime/Sort/Owner.antt =====
-- The map `typeOwner` of `sortModules`: a type belongs to the last module that provides it.
use lakta.Prelude.{
  ℕ, zero, suc, ◌+◌, ◌<◌, ◌≡◌, refl, ◌⊎◌, inl, inr, Bool-cases, Bool, true, false, Option, none,
  some, List, [], ◌∷◌, arith, nat_keyed, if◌then◌else◌, get_elem?, update, contains,
}
use lakta.Runtime.Module.{Module, list_or_nil}
use lakta.Runtime.Sort.{Owners, own, type_owner}

abbrev pub provides_type : Module → ℕ → Bool
provides_type m t = contains (list_or_nil m.provides) t

own_lem :
    (i : ℕ) (ts : List ℕ) (owner : Owners) (t : ℕ)
    → own i ts owner t ≡ (if contains ts t then some i else owner t)
unfolding own
own_lem i [] owner t = refl
own_lem i (s ∷ ts) owner t = ground (arith, own_lem i ts (update owner s (some i)) t)

abbrev pub NoProvider : List Module → ℕ → Type 0
NoProvider ms t = (d : ℕ) (m : Module) → get_elem? ms d ≡ some m → provides_type m t ≡ false

-- Module `o`, counted from `k`, provides `t`, and no later module does.
pub record IsOwner (k : ℕ) (ms : List Module) (t o : ℕ) : Type 0 where
  pub place : ℕ
  pub counted : o ≡ k + place
  pub module_at : Module
  pub at : get_elem? ms place ≡ some module_at
  pub provides : provides_type module_at t ≡ true
  pub last : (d : ℕ) (m : Module) → place < d → get_elem? ms d ≡ some m → provides_type m t ≡ false

NoProvider-cons :
    (m : Module) (ms : List Module) (t : ℕ)
    → provides_type m t ≡ false
    → NoProvider ms t
    → NoProvider (m ∷ ms) t
NoProvider-cons m ms t here later zero m' e = ground (arith)
NoProvider-cons m ms t here later (suc d) m' e = later d m' e

IsOwner-cons :
    (k : ℕ) (m : Module) (ms : List Module) (t o : ℕ)
    → IsOwner (suc k) ms t o
    → IsOwner k (m ∷ ms) t o
IsOwner-cons k m ms t o h = record {
  place = suc h.place;
  counted = omega (arith, h.counted);
  module_at = h.module_at;
  at = h.at;
  provides = h.provides;
  last = later;
}
  where
    later :
        (d : ℕ) (m' : Module)
        → suc h.place < d
        → get_elem? (m ∷ ms) d ≡ some m'
        → provides_type m' t ≡ false
    later zero m' l e = absurd (omega arith)
    later (suc d) m' l e = h.last d m' (omega arith) e

IsOwner-head :
    (k : ℕ) (m : Module) (ms : List Module) (t o : ℕ)
    → o ≡ k
    → provides_type m t ≡ true
    → NoProvider ms t
    → IsOwner k (m ∷ ms) t o
IsOwner-head k m ms t o e p later = record {
  place = 0;
  counted = omega arith;
  module_at = m;
  at = refl;
  provides = p;
  last = after;
}
  where
    after :
        (d : ℕ) (m' : Module) → 0 < d → get_elem? (m ∷ ms) d ≡ some m' → provides_type m' t ≡ false
    after zero m' l e = absurd (omega arith)
    after (suc d) m' l e = later d m' e

type_owner-some :
    (k : ℕ) (ms : List Module) (owner : Owners) (t o : ℕ)
    → type_owner k ms owner t ≡ some o
    → IsOwner k ms t o ⊎ (owner t ≡ some o) × NoProvider ms t
unfolding type_owner
type_owner-some k [] owner t o e = inr (e, λ d m at. cc)
type_owner-some k (m ∷ ms) owner t o e =
    elim (type_owner-some (suc k) ms (own k (list_or_nil m.provides) owner) t o e) [
      | inl h ↦ inl (IsOwner-cons k m ms t o h)
      | inr (kept, later) ↦ elim (Bool-cases (provides_type m t)) [
        | inl p ↦ inl (
            IsOwner-head k m ms t o (ground (arith, own_lem k (list_or_nil m.provides) owner t)) p
              later)
        | inr p ↦ inr (
          ground (arith, own_lem k (list_or_nil m.provides) owner t),
          NoProvider-cons m ms t p later,
        )
      ]
    ]

type_owner-none :
    (k : ℕ) (ms : List Module) (owner : Owners) (t : ℕ)
    → type_owner k ms owner t ≡ none
    → (owner t ≡ none) × NoProvider ms t
unfolding type_owner
type_owner-none k [] owner t e = (e, λ d m at. cc)
type_owner-none k (m ∷ ms) owner t e =
    let (kept, later) = type_owner-none (suc k) ms (own k (list_or_nil m.provides) owner) t e in
    (
      ground (arith, own_lem k (list_or_nil m.provides) owner t),
      NoProvider-cons m ms t (ground (arith, own_lem k (list_or_nil m.provides) owner t)) later,
    )

-- The map of the whole list of modules.
abbrev pub owners : List Module → Owners
owners ms = type_owner 0 ms (λ t. none)

abbrev pub OwnedBy : List Module → ℕ → Option ℕ → Type 0
OwnedBy ms t none = NoProvider ms t
OwnedBy ms t (some o) = IsOwner 0 ms t o

-- A type is owned by the last module that provides it, and has no owner exactly if no module
-- provides it.
pub owners-OwnedBy : (ms : List Module) (t : ℕ) → OwnedBy ms t (owners ms t)
owners-OwnedBy ms t = go (owners ms t) refl
  where
    go : (r : Option ℕ) → owners ms t ≡ r → OwnedBy ms t r
    go none e = (type_owner-none 0 ms (λ s. none) t e).1
    go (some o) e = elim (type_owner-some 0 ms (λ s. none) t o e) [
      | inl h ↦ h
      | inr (never, _) ↦ absurd (cc)
    ]
