-- ===== src/Verifier/Build.antt =====
-- `buildState`, `Init`, `OnReload` and `Shutdown` of pkg/auth/verifier/module.go, with the constants
-- of config.go. Discovery and key sets come from the network; times are in nanoseconds. A cache of
-- key sets is numbered by its creation, and runs until its cancel function is called.
pub mod Sound
use lakta.Prelude.{
  ℕ, suc, ◌+◌, ℤ, pos, negsuc, Bool, true, false, not, ◌||◌, ◌&&◌, Option, none, some, List, [],
  ◌∷◌, Result, ok, err, ◌>>=◌, contains, leb, ltb, nat_eqb, ◌==◌, bytes_keyed, if◌then◌else◌,
}
use lakta.Verifier.{IssuerVerifier, StaticVerifier, RegistryState, static_algorithm}

pub record IssuerConfig : Type 0 where
  pub issuer : List ℕ
  pub audience : List (List ℕ)
  pub jwks_url : List ℕ
  pub algorithms : List (List ℕ)
  pub clock_skew : ℤ

pub record StaticKey : Type 0 where
  pub algorithm : List ℕ
  pub secret : List ℕ
  pub profiles : List (List ℕ)

pub record Config : Type 0 where
  pub issuers : List IssuerConfig
  pub static_key : Option StaticKey
  pub scope_claim : List ℕ
  pub roles_claim : List ℕ

pub data BuildError : Type 0 where
  cache_failed empty_issuer : BuildError
  empty_audience empty_algorithms discovery_failed no_jwks_uri : List ℕ → BuildError
  keyset_failed : List ℕ → BuildError
  profile_unset empty_secret : BuildError
  profile_denied wrong_algorithm : List ℕ → BuildError

abbrev pub max_clock_skew : ℕ
max_clock_skew = 300000000000

abbrev pub default_clock_skew : ℕ
default_clock_skew = 60000000000

abbrev pub default_static_profiles : List (List ℕ)
default_static_profiles =
    (b'd' ∷ b'e' ∷ b'v' ∷ [])
    ∷ (b'l' ∷ b'o' ∷ b'c' ∷ b'a' ∷ b'l' ∷ [])
    ∷ (b't' ∷ b'e' ∷ b's' ∷ b't' ∷ [])
    ∷ []

abbrev pub is_empty : List (List ℕ) → Bool
is_empty [] = true
is_empty (x ∷ xs) = false

unfoldable pub clamp_skew : ℤ → ℕ
clamp_skew (negsuc n) = default_clock_skew
clamp_skew (pos n) =
    let skew = if nat_eqb n 0 then default_clock_skew else n in
    if ltb max_clock_skew skew then max_clock_skew else skew

unfoldable pub profiles_of : StaticKey → List (List ℕ)
profiles_of sk = elim sk.profiles [ [] ↦ default_static_profiles | p ∷ ps ↦ p ∷ ps ]

-- `active` is the environment's `LAKTA_PROFILE`, empty if it is unset.
unfoldable pub build_static : List ℕ → Option StaticKey → Result BuildError (Option StaticVerifier)
unfolding profiles_of
build_static active none = ok none
build_static active (some sk) =
    if active == []
    then err profile_unset
    else if not (contains (profiles_of sk) active)
    then err (profile_denied active)
    else if not (sk.algorithm == []) && not (sk.algorithm == static_algorithm)
    then err (wrong_algorithm sk.algorithm)
    else if sk.secret == []
    then err empty_secret
    else ok (some (record { secret = sk.secret; audience = []; clock_skew = default_clock_skew }))

module _ {KeySet : Type 0} (new_cache : Bool) (oidc_jwks_uri : List ℕ → Option (List ℕ))
    (cached_set : List ℕ → Option KeySet) where
  unfoldable pub discover_jwks : List ℕ → Result BuildError (List ℕ)
  discover_jwks issuer = elim (oidc_jwks_uri issuer) [
    | none ↦ err (discovery_failed issuer)
    | some [] ↦ err (no_jwks_uri issuer)
    | some (c ∷ url) ↦ ok (c ∷ url)
  ]

  unfoldable pub jwks_url_of : IssuerConfig → Result BuildError (List ℕ)
  unfolding discover_jwks
  jwks_url_of ic = if ic.jwks_url == [] then discover_jwks ic.issuer else ok ic.jwks_url

  unfoldable pub bind_issuer : IssuerConfig → List ℕ → Result BuildError (IssuerVerifier KeySet)
  unfolding clamp_skew
  bind_issuer ic url = elim (cached_set url) [
    | none ↦ err (keyset_failed url)
    | some keyset ↦ ok (record {
      issuer = ic.issuer;
      audience = ic.audience;
      algs = ic.algorithms;
      keyset = keyset;
      clock_skew = clamp_skew ic.clock_skew;
    })
  ]

  unfoldable pub build_issuer : IssuerConfig → Result BuildError (IssuerVerifier KeySet)
  unfolding jwks_url_of bind_issuer
  build_issuer ic =
      let bound = jwks_url_of ic >>= bind_issuer ic in
      if ic.issuer == []
      then err empty_issuer
      else if is_empty ic.audience
      then err (empty_audience ic.issuer)
      else if is_empty ic.algorithms
      then err (empty_algorithms ic.issuer)
      else bound

  -- The map is a list, the newest entry first, so that an issuer's last entry is the one found.
  unfoldable pub build_issuers_into :
      List (List ℕ × IssuerVerifier KeySet)
      → List IssuerConfig
      → Result BuildError (List (List ℕ × IssuerVerifier KeySet))
  unfolding build_issuer
  build_issuers_into issuers [] = ok issuers
  build_issuers_into issuers (ic ∷ rest) =
      build_issuer ic >>= λ iv. build_issuers_into ((ic.issuer, iv) ∷ issuers) rest

  unfoldable pub build_issuers :
      List IssuerConfig → Result BuildError (List (List ℕ × IssuerVerifier KeySet))
  unfolding build_issuers_into
  build_issuers [] = ok []
  build_issuers (ic ∷ rest) =
      if new_cache then build_issuers_into [] (ic ∷ rest) else err cache_failed

  unfoldable pub build_state : List ℕ → Config → Result BuildError (RegistryState KeySet)
  unfolding build_issuers build_static
  build_state active cfg = do
    issuers ← build_issuers cfg.issuers
    static ← build_static active cfg.static_key
    ok (record {
      issuers = issuers;
      static_key = static;
      scope_claim = cfg.scope_claim;
      roles_claim = cfg.roles_claim;
    })
