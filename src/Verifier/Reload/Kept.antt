-- ===== src/Verifier/Reload/Kept.antt =====
-- Reloads keep the verifiers consistent, and no cache keeps running that is not in use.
use lakta.Prelude.{
  not, ◌||◌, ◌==◌, ==-refl, bytes_keyed, subst, ℕ, ◌≡◌, ◌<◌, ◌≤◌, ◌⊎◌, inl, inr, refl, Bool, true,
  false, Option, some, List, [], ◌∷◌, Result, ok, contains, arith, nat_keyed, Bool-cases,
}
use lakta.Verifier.{RegistryState}
use lakta.Verifier.Build.{IssuerConfig, StaticKey, Config, BuildError}
use lakta.Verifier.Reload.{
  VerifierModule, Decoded, shared_config, reload_decoded, cancel, shutdown, on_reload,
  relevant_config_changed,
}

-- What each decoder makes is an offered configuration.
abbrev pub Offers : (Config → Type 0) → List (Config → Decoded) → Type 0
Offers Offered [] = Unit {0}
Offers Offered (decode ∷ later) =
    ((c : Config) → Offered (decode c).new_config) × Offers Offered later

module _ {KeySet : Type 0} where
  -- The live state was built from one configuration, of which the module still has the claim paths;
  -- its cache runs, and no other does.
  pub record IsConsistent (Offered : Config → Type 0)
      (build : Config → Result BuildError (RegistryState KeySet)) (m : VerifierModule KeySet)
      : Type 0 where
    pub cache : ℕ
    pub st : RegistryState KeySet
    pub live : m.state ≡ some st
    pub source : Config
    pub offered : Offered source
    pub from_config : build source ≡ ok st
    pub scope : m.config.scope_claim ≡ source.scope_claim
    pub roles : m.config.roles_claim ≡ source.roles_claim
    pub held : m.cache_cancel ≡ some cache
    pub known : cache < m.created
    pub running : contains m.cancelled cache ≡ false
    pub rest_cancelled : (i : ℕ) → i < m.created → (i ≡ cache) ⊎ (contains m.cancelled i ≡ true)
    -- only caches that exist are cancelled
    pub none_ahead : (i : ℕ) → m.created ≤ i → contains m.cancelled i ≡ false

  module _ (Offered : Config → Type 0) (same_issuers : List IssuerConfig → List IssuerConfig → Bool)
      (same_static : Option StaticKey → Option StaticKey → Bool)
      (build : Config → Result BuildError (RegistryState KeySet)) where
    none_differs :
        (p q s t : Bool)
        → p ≡ true
        → q ≡ true
        → s ≡ true
        → t ≡ true
        → (not p || not q || not s || not t) ≡ false
    none_differs p q s t hp hq hs ht = rw (hp, hq, hs, ht) refl

    relevant_config_changed-same :
        (a b : Config)
        → ((issuers : List IssuerConfig) → same_issuers issuers issuers ≡ true)
        → ((key : Option StaticKey) → same_static key key ≡ true)
        → a.issuers ≡ b.issuers
        → a.static_key ≡ b.static_key
        → a.scope_claim ≡ b.scope_claim
        → a.roles_claim ≡ b.roles_claim
        → relevant_config_changed same_issuers same_static a b ≡ false
    unfolding relevant_config_changed
    relevant_config_changed-same a b refl_i refl_k issuers key scope roles =
        none_differs _ _ _ _
          (subst (λ x. same_issuers a.issuers x ≡ true) issuers (refl_i a.issuers))
          (subst (λ x. same_static a.static_key x ≡ true) key (refl_k a.static_key))
          (subst (λ x. a.scope_claim == x ≡ true) scope (==-refl a.scope_claim))
          (subst (λ x. a.roles_claim == x ≡ true) roles (==-refl a.roles_claim))

    reload_decoded-same :
        (d : Decoded) (m : VerifierModule KeySet)
        → relevant_config_changed same_issuers same_static m.config d.new_config ≡ false
        → reload_decoded same_issuers same_static build d m ≡ m
    unfolding reload_decoded
    reload_decoded-same d m h = elim (Bool-cases d.failed) [
      | inl f ↦ rw f refl
      | inr f ↦ rw (f, h) refl
    ]

    -- A reload whose decoder writes the new issuers and key into the parts that the configurations
    -- share, and that changes no claim path, builds nothing: the verifiers stay those of before.
    pub on_reload-shared :
        (decode : Config → Decoded) (m : VerifierModule KeySet)
        → ((issuers : List IssuerConfig) → same_issuers issuers issuers ≡ true)
        → ((key : Option StaticKey) → same_static key key ≡ true)
        → (decode m.config).shared_issuers ≡ (decode m.config).new_config.issuers
        → (decode m.config).shared_static_key ≡ (decode m.config).new_config.static_key
        → m.config.scope_claim ≡ (decode m.config).new_config.scope_claim
        → m.config.roles_claim ≡ (decode m.config).new_config.roles_claim
        → on_reload same_issuers same_static build decode m
          ≡ record m { config = shared_config (decode m.config) m.config }
    unfolding on_reload
    on_reload-shared decode m refl_i refl_k issuers key scope roles =
        reload_decoded-same (decode m.config) _ (
          relevant_config_changed-same (shared_config (decode m.config) m.config)
            (decode m.config).new_config refl_i refl_k issuers key scope roles)

    -- The same module then keeps no cache running once it is shut down.
    pub shutdown-IsQuiet :
        (m : VerifierModule KeySet)
        → IsConsistent Offered build m
        → (i : ℕ) → i < m.created
        → contains (shutdown m).cancelled i ≡ true
    unfolding shutdown cancel
    shutdown-IsQuiet m c i l = rw (c.held) (ground (arith, c.rest_cancelled i l))
