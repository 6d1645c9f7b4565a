-- ===== src/Verifier.antt =====
-- pkg/auth/verifier: how a bearer token becomes a principal (registry.go, principal.go). The library
-- that parses and verifies tokens is the record `Jwx`; a text is its ASCII bytes.
pub mod Claims
mod Audience
pub mod Accepted
pub mod Build
pub mod Reload
mod Tests
use lakta.Prelude.{
  ℕ, Bool, true, false, not, ◌&&◌, ◌||◌, Option, none, some, List, [], ◌∷◌, Result, ok, err,
  contains, ◌==◌, bytes_keyed, if◌then◌else◌,
}
use lakta.Verifier.Claims.{Members, claim_by_path, scope_values, role_values}

-- What the getters of a `jwt.Token` answer; a missing claim is `none`. `claims` is by `Keys`.
pub record Token : Type 0 where
  pub subject : Option (List ℕ)
  pub issuer : Option (List ℕ)
  pub audience : Option (List (List ℕ))
  pub claims : Members

-- `KeySet` is a fetched JWKS, and `none` stands for an error.
pub record Jwx (KeySet : Type 0) : Type 0 where
  -- `jws.Parse`: the algorithm in the protected header of each signature
  pub signatures : List ℕ → Option (List (Option (List ℕ)))
  -- `jwt.Parse` without verification
  pub parse_unverified : List ℕ → Option Token
  -- `jwt.Parse` against a key set, with the issuer and the skew
  pub parse_key_set : KeySet → (issuer : List ℕ) → (skew : ℕ) → List ℕ → Option Token
  -- `jwt.Parse` against an HS256 secret, with the skew
  pub parse_secret : (secret : List ℕ) → (skew : ℕ) → List ℕ → Option Token

pub record IssuerVerifier (KeySet : Type 0) : Type 0 where
  pub issuer : List ℕ
  pub audience : List (List ℕ)
  pub algs : List (List ℕ)
  pub keyset : KeySet
  pub clock_skew : ℕ

pub record StaticVerifier : Type 0 where
  pub secret : List ℕ
  pub audience : List (List ℕ)
  pub clock_skew : ℕ

pub record RegistryState (KeySet : Type 0) : Type 0 where
  pub issuers : List (List ℕ × IssuerVerifier KeySet)
  pub static_key : Option StaticVerifier
  pub scope_claim : List ℕ
  pub roles_claim : List ℕ

pub record Principal : Type 0 where
  pub subject : List ℕ
  pub issuer : List ℕ
  pub audience : List (List ℕ)
  pub scopes : List (List ℕ)
  pub roles : List (List ℕ)
  pub claims : Members
  pub token : Token

-- Every failure is this one.
pub data AuthError : Type 0 where
  unauthenticated : AuthError

abbrev pub static_algorithm : List ℕ
static_algorithm = b'H' ∷ b'S' ∷ b'2' ∷ b'5' ∷ b'6' ∷ []

abbrev pub no_signature : List ℕ
no_signature = b'n' ∷ b'o' ∷ b'n' ∷ b'e' ∷ []

-- A getter's value, the zero value if the claim is missing.
abbrev pub or_empty : {A : Type 0} → Option (List A) → List A
or_empty none = []
or_empty (some xs) = xs

abbrev pub find_issuer :
    {KeySet : Type 0}
    → List (List ℕ × IssuerVerifier KeySet)
    → List ℕ
    → Option (IssuerVerifier KeySet)
find_issuer [] iss = none
find_issuer ((k, iv) ∷ rest) iss = if k == iss then some iv else find_issuer rest iss

unfoldable pub intersects : List (List ℕ) → List (List ℕ) → Bool
intersects have [] = false
intersects have (w ∷ want) = contains have w || intersects have want

unfoldable pub build_principal : Token → List ℕ → List ℕ → Principal
build_principal tok scope_claim roles_claim = record {
  subject = or_empty tok.subject;
  issuer = or_empty tok.issuer;
  audience = or_empty tok.audience;
  scopes = scope_values (claim_by_path tok.claims scope_claim);
  roles = role_values (claim_by_path tok.claims roles_claim);
  claims = tok.claims;
  token = tok;
}

unfoldable pub has_scope : Principal → List ℕ → Bool
has_scope p s = contains p.scopes s

unfoldable pub has_role : Principal → List ℕ → Bool
has_role p r = contains p.roles r

module _ {KeySet : Type 0} (jwx : Jwx KeySet) where
  unfoldable pub header_algorithm : List ℕ → Option (List ℕ)
  header_algorithm raw = elim (jwx.signatures raw) [
    | none ↦ none
    | some [] ↦ none
    | some (none ∷ rest) ↦ none
    | some (some alg ∷ rest) ↦ some alg
  ]

  unfoldable pub verify_issuer : IssuerVerifier KeySet → List ℕ → Option Token
  unfolding intersects
  verify_issuer iv raw = elim (jwx.parse_key_set iv.keyset iv.issuer iv.clock_skew raw) [
    | none ↦ none
    | some tok ↦ if intersects (or_empty tok.audience) iv.audience then some tok else none
  ]

  unfoldable pub check_audience : List (List ℕ) → Token → Option Token
  unfolding intersects
  check_audience [] tok = some tok
  check_audience (a ∷ want) tok =
      if intersects (or_empty tok.audience) (a ∷ want) then some tok else none

  unfoldable pub verify_static : StaticVerifier → List ℕ → Option Token
  unfolding check_audience
  verify_static sv raw = elim (jwx.parse_secret sv.secret sv.clock_skew raw) [
    | none ↦ none
    | some tok ↦ check_audience sv.audience tok
  ]

  unfoldable pub principal_of : RegistryState KeySet → Option Token → Result AuthError Principal
  unfolding build_principal
  principal_of st none = err unauthenticated
  principal_of st (some tok) = ok (build_principal tok st.scope_claim st.roles_claim)

  unfoldable pub verify_static_path :
      RegistryState KeySet → List ℕ → List ℕ → Result AuthError Principal
  unfolding verify_static principal_of
  verify_static_path st alg raw = elim st.static_key [
    | none ↦ err unauthenticated
    | some sv ↦
        if alg == static_algorithm
        then principal_of st (verify_static sv raw)
        else err unauthenticated
  ]

  unfoldable pub verify_routed :
      RegistryState KeySet → List ℕ → List ℕ → List ℕ → Result AuthError Principal
  unfolding verify_issuer verify_static_path principal_of
  verify_routed st alg iss raw = elim (find_issuer st.issuers iss) [
    | none ↦ verify_static_path st alg raw
    | some iv ↦
        if contains iv.algs alg then principal_of st (verify_issuer iv raw) else err unauthenticated
  ]

  unfoldable pub verify_alg : RegistryState KeySet → List ℕ → List ℕ → Result AuthError Principal
  unfolding verify_routed
  verify_alg st alg raw =
      if (alg == []) || (alg == no_signature)
      then err unauthenticated
      else elim (jwx.parse_unverified raw) [
        | none ↦ err unauthenticated
        | some unverified ↦ verify_routed st alg (or_empty unverified.issuer) raw
      ]

  -- `none` where no state has been stored.
  unfoldable pub verify : Option (RegistryState KeySet) → List ℕ → Result AuthError Principal
  unfolding header_algorithm verify_alg
  verify none raw = err unauthenticated
  verify (some st) raw = elim (header_algorithm raw) [
    | none ↦ err unauthenticated
    | some alg ↦ verify_alg st alg raw
  ]
