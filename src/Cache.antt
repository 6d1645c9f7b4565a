-- ===== src/Cache.antt =====
-- pkg/cache/registry.go: caches that are declared by name and built when they are first asked for.
-- A `reflect.Type` is a number, and a backend's box is the number of its pointer. What a `Builder`
-- does is the backend's: `build` runs it on the backend's state.
pub mod Guard
pub mod Typed
pub mod Memory
mod Tests
use lakta.Prelude.{
  sort_texts, ℕ, Bool, true, false, not, ◌||◌, Option, none, some, List, [], ◌∷◌, Result, ok, err,
  get, put, erase, map, bytes_keyed, nat_eqb, if◌then◌else◌,
}

-- The box once it is built, and the types that it was built for.
pub record Bound : Type 0 where
  pub box : ℕ
  pub key_type : ℕ
  pub val_type : ℕ

pub record Entry (Builder : Type 0) : Type 0 where
  pub builder : Builder
  pub bound : Option Bound

-- What a builder returns: an error, something that is no backend, or a box.
pub data Built : Type 0 where
  failed not_backend : Built
  built : ℕ → Built

pub data NamedError : Type 0 where
  -- the known names, which the message lists
  not_registered : List (List ℕ) → NamedError
  already_bound : (key_type val_type : ℕ) → NamedError
  build_failed not_a_backend : NamedError

-- A typed handle on a box.
pub record TypedCache : Type 0 where
  pub box : ℕ
  pub key_type : ℕ
  pub val_type : ℕ

abbrev pub handle_of : Bound → TypedCache
handle_of b = record { box = b.box; key_type = b.key_type; val_type = b.val_type }

unfoldable pub guarded : Bound → (kt vt : ℕ) → Result NamedError TypedCache
guarded b kt vt =
    if not (nat_eqb b.key_type kt) || not (nat_eqb b.val_type vt)
    then err (already_bound b.key_type b.val_type)
    else ok (handle_of b)

module _ {Builder : Type 0} where
  unfoldable pub register :
      List ℕ → Builder → List (List ℕ × Entry Builder) → List (List ℕ × Entry Builder)
  register name b entries = put entries name (record { builder = b; bound = none })

  unfoldable pub unregister : List ℕ → List (List ℕ × Entry Builder) → List (List ℕ × Entry Builder)
  unregister name entries = erase entries name

  abbrev pub keys : List (List ℕ × Entry Builder) → List (List ℕ)
  keys [] = []
  keys ((name, e) ∷ entries) = name ∷ keys entries

  module _ {S : Type 0} (build : Builder → (kt vt : ℕ) → S → S × Built) where
    abbrev pub Asked : Type 0
    Asked = (List (List ℕ × Entry Builder) × S) × Result NamedError TypedCache

    unfoldable pub bind :
        List ℕ → (kt vt : ℕ) → Builder → List (List ℕ × Entry Builder) → S × Built → Asked
    bind name kt vt b entries (s, failed) = ((entries, s), err build_failed)
    bind name kt vt b entries (s, not_backend) = ((entries, s), err not_a_backend)
    bind name kt vt b entries (s, built box) =
        let bound : Bound = record { box = box; key_type = kt; val_type = vt } in
        ((put entries name (record { builder = b; bound = some bound }), s), ok (handle_of bound))

    unfoldable pub ask_entry :
        List ℕ → (kt vt : ℕ) → Builder → Option Bound → List (List ℕ × Entry Builder) → S → Asked
    unfolding bind guarded
    ask_entry name kt vt b (some bound) entries s = ((entries, s), guarded bound kt vt)
    ask_entry name kt vt b none entries s = bind name kt vt b entries (build b kt vt s)

    unfoldable pub ask :
        List ℕ → (kt vt : ℕ) → Option (Entry Builder) → List (List ℕ × Entry Builder) → S → Asked
    unfolding ask_entry
    ask name kt vt none entries s = ((entries, s), err (not_registered (sort_texts (keys entries))))
    ask name kt vt (some e) entries s = ask_entry name kt vt e.builder e.bound entries s

    -- `Named[K, V]`
    unfoldable pub named : List ℕ → (kt vt : ℕ) → List (List ℕ × Entry Builder) → S → Asked
    unfolding ask
    named name kt vt entries s = ask name kt vt (get entries name) entries s
