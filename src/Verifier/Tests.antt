-- ===== src/Verifier/Tests.antt =====
-- The verifier on small inputs: one issuer, and a development key.
use lakta.Prelude.{
  ℕ, ◌≡◌, ◌↔◌, refl, pos, true, false, Option, none, some, List, [], ◌∷◌, Result, ok, err, ◌==◌,
  bytes_keyed, if◌then◌else◌,
}
use lakta.Verifier.Claims.{
  text, array, nil, cons, object, Members, end, member, split, walk_path, as_string_map,
  claim_by_path, any_slice_to_strings, fields, scope_values, role_values,
}
use lakta.Verifier.{
  Token, Jwx, IssuerVerifier, RegistryState, Principal, unauthenticated, find_issuer,
  build_principal, intersects, header_algorithm, verify_issuer, check_audience, verify_static,
  principal_of, verify_static_path, verify_routed, verify_alg, verify, static_algorithm,
  no_signature,
}
use lakta.Verifier.Accepted.{IsAccepted, verify_iff}
use lakta.Verifier.Build.{
  Config, BuildError, clamp_skew, profiles_of, build_static, discover_jwks, jwks_url_of,
  bind_issuer, build_issuer, build_issuers_into, build_issuers, build_state,
}
use lakta.Verifier.Build.Sound.{IsTrusted, IsAllowed, build_state-IsAllowed}
use lakta.Verifier.Reload.{Decoded, VerifierModule, after_build, init}

verify_program : Unit {0}
unfolding verify verify_alg verify_routed verify_static_path verify_issuer verify_static
    principal_of check_audience intersects header_algorithm build_principal claim_by_path walk_path
    split as_string_map scope_values role_values fields any_slice_to_strings
verify_program = tt

build_program : Unit {0}
unfolding build_state build_issuers build_issuers_into build_issuer bind_issuer jwks_url_of
    discover_jwks build_static profiles_of clamp_skew init after_build
build_program = tt

abbrev rs256 : List ℕ
rs256 = b'R' ∷ b'S' ∷ []

abbrev acme : List ℕ
acme = b'a' ∷ b'c' ∷ []

abbrev api : List ℕ
api = b'a' ∷ b'p' ∷ b'i' ∷ []

-- Claims `{"a": {"b": ["x"]}, "scope": "r w"}`.
abbrev claims : Members
claims =
    member (b'a' ∷ []) (object (member (b'b' ∷ []) (array (cons (text (b'x' ∷ [])) nil)) end))
      (member (b's' ∷ []) (text (b'r' ∷ b' ' ∷ b'w' ∷ [])) end)

abbrev token : List ℕ → Token
token iss = record {
  subject = some (b'u' ∷ []);
  issuer = some iss;
  audience = some (api ∷ []);
  claims = claims;
}

-- The text of a token is its algorithm; only one issuer's key set signs.
abbrev jwx : Jwx (List ℕ)
jwx = record {
  signatures = λ raw. some (some raw ∷ []);
  parse_unverified = λ raw. some (token acme);
  parse_key_set = λ keys iss skew raw. if keys == iss then some (token iss) else none;
  parse_secret = λ secret skew raw. none;
}

abbrev sample_config : Config
sample_config = record {
  issuers =
      record {
        issuer = acme;
        audience = api ∷ [];
        jwks_url = acme;
        algorithms = rs256 ∷ [];
        clock_skew = pos 0;
      }
      ∷ [];
  static_key = none;
  scope_claim = b's' ∷ [];
  roles_claim = b'a' ∷ b'.' ∷ b'b' ∷ [];
}

abbrev sample_state : RegistryState (List ℕ)
sample_state = record {
  issuers =
      (
        acme,
        record {
          issuer = acme;
          audience = api ∷ [];
          algs = rs256 ∷ [];
          keyset = acme;
          clock_skew = 60000000000;
        },
      )
      ∷ [];
  static_key = none;
  scope_claim = b's' ∷ [];
  roles_claim = b'a' ∷ b'.' ∷ b'b' ∷ [];
}

abbrev discover : List ℕ → Option (List ℕ)
discover iss = none

abbrev build : Config → Result BuildError (RegistryState (List ℕ))
build = build_state true discover (λ url. some url) []

built : build sample_config ≡ ok sample_state
unfolding build_program
built = refl

abbrev principal : Principal
principal = record {
  subject = b'u' ∷ [];
  issuer = acme;
  audience = api ∷ [];
  scopes = (b'r' ∷ []) ∷ (b'w' ∷ []) ∷ [];
  roles = (b'x' ∷ []) ∷ [];
  claims = claims;
  token = token acme;
}

verify_accepts : verify jwx (some sample_state) rs256 ≡ ok principal
unfolding verify_program
verify_accepts = refl

verify_rejects_none : verify jwx (some sample_state) no_signature ≡ err unauthenticated
unfolding verify_program
verify_rejects_none = refl

verify_rejects_other : verify jwx (some sample_state) static_algorithm ≡ err unauthenticated
unfolding verify_program
verify_rejects_other = refl

verify_iff_example :
    (verify jwx (some sample_state) rs256 ≡ ok principal)
    ↔ IsAccepted jwx sample_state rs256 principal
verify_iff_example = verify_iff jwx sample_state rs256 principal

build_state-IsAllowed_example :
    ((iss : List ℕ) (iv : IssuerVerifier (List ℕ))
      → find_issuer sample_state.issuers iss ≡ some iv
      → IsTrusted iss iv)
    × IsAllowed [] sample_config.static_key sample_state.static_key
build_state-IsAllowed_example =
    build_state-IsAllowed true discover (λ url. some url) [] sample_config sample_state built

abbrev fresh : VerifierModule (List ℕ)
fresh = record {
  config = sample_config;
  state = none;
  cache_cancel = none;
  created = 0;
  cancelled = [];
}

-- The decoder writes the new configuration into the shared parts too.
abbrev in_place : Config → Decoded
in_place c = record {
  new_config = sample_config;
  failed = false;
  shared_issuers = sample_config.issuers;
  shared_static_key = sample_config.static_key;
}

abbrev failing : Config → Decoded
failing c = record (in_place c) { failed = true }
