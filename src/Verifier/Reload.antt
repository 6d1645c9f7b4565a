-- ===== src/Verifier/Reload.antt =====
-- `Init`, `OnReload` and `Shutdown` of pkg/auth/verifier/module.go. A cache of key sets is numbered by
-- its creation; it refreshes in the background until its cancel function is called. A reload decodes
-- into a shallow copy of the module's configuration, with which that shares the elements of `Issuers`
-- and the `StaticKey`; what the decoder writes there is a parameter.
pub mod Kept
use lakta.Prelude.{
  ℕ, suc, ◌+◌, Bool, true, false, not, ◌||◌, Option, none, some, List, [], ◌∷◌, Result, ok, err,
  ◌==◌, bytes_keyed, if◌then◌else◌,
}
use lakta.Verifier.{RegistryState}
use lakta.Verifier.Build.{IssuerConfig, StaticKey, Config, BuildError, build_state}

pub record VerifierModule (KeySet : Type 0) : Type 0 where
  pub config : Config
  -- what the registry points to
  pub state : Option (RegistryState KeySet)
  pub cache_cancel : Option ℕ
  -- how many caches were created, and which of them are cancelled
  pub created : ℕ
  pub cancelled : List ℕ

-- What `LoadFromKoanf` makes of `newCfg`, whether it fails, and what then stands in the issuers and
-- the static key that the module's configuration had.
pub record Decoded : Type 0 where
  pub new_config : Config
  pub failed : Bool
  pub shared_issuers : List IssuerConfig
  pub shared_static_key : Option StaticKey

abbrev pub shared_config : Decoded → Config → Config
shared_config d c = record c { issuers = d.shared_issuers; static_key = d.shared_static_key }

-- `cancel`, if it is set.
unfoldable pub cancel : Option ℕ → List ℕ → List ℕ
cancel none cancelled = cancelled
cancel (some cache) cancelled = cache ∷ cancelled

module _ {KeySet : Type 0} where
  unfoldable pub after_build :
      Result BuildError (RegistryState KeySet)
      → VerifierModule KeySet
      → VerifierModule KeySet × Option BuildError
  after_build (err e) m =
      (record m { created = suc m.created; cancelled = m.created ∷ m.cancelled }, some e)
  after_build (ok st) m =
      (record m { state = some st; cache_cancel = some m.created; created = suc m.created }, none)

  unfoldable pub shutdown : VerifierModule KeySet → VerifierModule KeySet
  unfolding cancel
  shutdown m = record m { cancelled = cancel m.cache_cancel m.cancelled }

  unfoldable pub swap :
      Config
      → Result BuildError (RegistryState KeySet)
      → VerifierModule KeySet
      → VerifierModule KeySet
  unfolding cancel
  swap cfg (err e) m = record m { created = suc m.created; cancelled = m.created ∷ m.cancelled }
  swap cfg (ok st) m = record m {
    config = cfg;
    state = some st;
    cache_cancel = some m.created;
    created = suc m.created;
    cancelled = cancel m.cache_cancel m.cancelled;
  }

-- `reflect.DeepEqual` on the issuers and on the development key.
module _ (same_issuers : List IssuerConfig → List IssuerConfig → Bool)
    (same_static : Option StaticKey → Option StaticKey → Bool) where
  unfoldable pub relevant_config_changed : Config → Config → Bool
  relevant_config_changed old new =
      not (same_issuers old.issuers new.issuers)
      || not (same_static old.static_key new.static_key)
      || not (old.scope_claim == new.scope_claim)
      || not (old.roles_claim == new.roles_claim)

  module _ {KeySet : Type 0} (build : Config → Result BuildError (RegistryState KeySet)) where
    unfoldable pub init : VerifierModule KeySet → VerifierModule KeySet × Option BuildError
    unfolding after_build
    init m = after_build (build m.config) m

    unfoldable pub reload_decoded : Decoded → VerifierModule KeySet → VerifierModule KeySet
    unfolding relevant_config_changed swap
    reload_decoded d m =
        if d.failed
        then m
        else if relevant_config_changed m.config d.new_config
        then swap d.new_config (build d.new_config) m
        else m

    -- `decode` is the new configuration, decoded on top of the one of before.
    unfoldable pub on_reload :
        (decode : Config → Decoded) → VerifierModule KeySet → VerifierModule KeySet
    unfolding reload_decoded
    on_reload decode m =
        let d = decode m.config in reload_decoded d (record m { config = shared_config d m.config })

    -- The configurations of successive reloads.
    unfoldable pub reload_all :
        List (Config → Decoded) → VerifierModule KeySet → VerifierModule KeySet
    unfolding on_reload
    reload_all [] m = m
    reload_all (decode ∷ later) m = reload_all later (on_reload decode m)
