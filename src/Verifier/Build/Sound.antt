-- ===== src/Verifier/Build/Sound.antt =====
-- What the configuration guarantees of the verifiers that are built from it.
use mathlib.Core.Option.{some-injective}
use lakta.Prelude.{
  ℕ, ◌≡◌, ◌≢◌, ◌≤◌, ◌<◌, sym, ap, subst, ◌∙◌, ℤ, pos, negsuc, Bool, true, false, not, Option, none,
  some, List, [], ◌∷◌, ok, >>=-eq-ok, ok-injective, ◌&&◌, contains, arith, ◌==◌, bytes_keyed,
  list_eqb_iff, inl, inr, Bool-cases, Option-cases,
}
use lakta.Verifier.{IssuerVerifier, StaticVerifier, RegistryState, find_issuer, static_algorithm}
use lakta.Verifier.Build.{
  IssuerConfig, StaticKey, Config, max_clock_skew, clamp_skew, is_empty, profiles_of, build_static,
  jwks_url_of, bind_issuer, build_issuer, build_issuers_into, build_issuers, build_state,
}

abbrev pub IsTrusted : {KeySet : Type 0} → List ℕ → IssuerVerifier KeySet → Type 0
IsTrusted iss iv =
    (iv.issuer ≡ iss)
    × (iss ≢ [])
    × (is_empty iv.audience ≡ false)
    × (is_empty iv.algs ≡ false)
    × (0 < iv.clock_skew)
    × (iv.clock_skew ≤ max_clock_skew)

abbrev pub IsPermitted : List ℕ → StaticKey → StaticVerifier → Type 0
IsPermitted active sk sv =
    (active ≢ [])
    × (contains (profiles_of sk) active ≡ true)
    × (sv.secret ≡ sk.secret)
    × (sv.secret ≢ [])

clamp_skew_bounds : (d : ℤ) → (0 < clamp_skew d) × (clamp_skew d ≤ max_clock_skew)
unfolding clamp_skew
clamp_skew_bounds (negsuc n) = omega arith
clamp_skew_bounds (pos n) = ground arith

not_empty : (s : List ℕ) → (s == []) ≡ false → s ≢ []
not_empty s h e = absurd (ground (arith, (list_eqb_iff s []).1 e))

abbrev secret_of : Option StaticVerifier → List ℕ
secret_of none = []
secret_of (some sv) = sv.secret

build_static-IsPermitted :
    (active : List ℕ) (sk : StaticKey) (sv : StaticVerifier)
    → build_static active (some sk) ≡ ok (some sv)
    → IsPermitted active sk sv
unfolding build_static
build_static-IsPermitted active sk sv h = elim (Bool-cases (active == [])) [
  | inl e ↦ absurd (cc (rw (e, build_static) at h))
  | inr e ↦ elim (Bool-cases (contains (profiles_of sk) active)) [
    | inr p ↦ absurd (cc (rw (e, p, build_static) at h))
    | inl p ↦
        elim (Bool-cases (not (sk.algorithm == []) && not (sk.algorithm == static_algorithm))) [
          | inl a ↦ absurd (cc (rw (e, p, a, build_static) at h))
          | inr a ↦ elim (Bool-cases (sk.secret == [])) [
            | inl b ↦ absurd (cc (rw (e, p, a, b, build_static) at h))
            | inr b ↦
                let same : sv.secret ≡ sk.secret =
                  ap secret_of (sym (ok-injective (rw (e, p, a, b, build_static) at h))) in
                (
                  not_empty active e,
                  p,
                  same,
                  λ none_left. not_empty sk.secret b (sym same ∙ none_left),
                )
          ]
        ]
  ]
]

abbrev pub IsAllowed : List ℕ → Option StaticKey → Option StaticVerifier → Type 0
IsAllowed active sk none = Unit {0}
IsAllowed active none (some sv) = ⊥
IsAllowed active (some sk) (some sv) = IsPermitted active sk sv

build_static-IsAllowed :
    (active : List ℕ) (sk : Option StaticKey) (sv : Option StaticVerifier)
    → build_static active sk ≡ ok sv
    → IsAllowed active sk sv
unfolding build_static
build_static-IsAllowed active sk none h = tt
build_static-IsAllowed active none (some sv) h = cc (ok-injective h)
build_static-IsAllowed active (some sk) (some sv) h = build_static-IsPermitted active sk sv h

module _ {KeySet : Type 0} (new_cache : Bool) (oidc_jwks_uri : List ℕ → Option (List ℕ))
    (cached_set : List ℕ → Option KeySet) where
  bind_issuer-ok :
      (ic : IssuerConfig) (url : List ℕ) (iv : IssuerVerifier KeySet)
      → bind_issuer new_cache oidc_jwks_uri cached_set ic url ≡ ok iv
      → (iv.issuer ≡ ic.issuer)
        × (iv.audience ≡ ic.audience)
        × (iv.algs ≡ ic.algorithms)
        × (iv.clock_skew ≡ clamp_skew ic.clock_skew)
  unfolding bind_issuer
  bind_issuer-ok ic url iv h = elim (Option-cases (cached_set url)) [
    | inl e ↦ absurd (cc (rw (e, bind_issuer) at h))
    | inr (ks, e) ↦
        let same = ok-injective (rw (e, bind_issuer) at h) in
        (
          ap (λ (v : IssuerVerifier KeySet). v.issuer) (sym same),
          ap (λ (v : IssuerVerifier KeySet). v.audience) (sym same),
          ap (λ (v : IssuerVerifier KeySet). v.algs) (sym same),
          ap (λ (v : IssuerVerifier KeySet). v.clock_skew) (sym same),
        )
  ]

  build_issuer-IsTrusted :
      (ic : IssuerConfig) (iv : IssuerVerifier KeySet)
      → build_issuer new_cache oidc_jwks_uri cached_set ic ≡ ok iv
      → IsTrusted ic.issuer iv
  unfolding build_issuer
  build_issuer-IsTrusted ic iv h = elim (Bool-cases (ic.issuer == [])) [
    | inl e ↦ absurd (cc (rw (e, build_issuer) at h))
    | inr e ↦ elim (Bool-cases (is_empty ic.audience)) [
      | inl a ↦ absurd (cc (rw (e, a, build_issuer) at h))
      | inr a ↦ elim (Bool-cases (is_empty ic.algorithms)) [
        | inl g ↦ absurd (cc (rw (e, a, g, build_issuer) at h))
        | inr g ↦
            let (url, found, bound) =
              >>=-eq-ok (jwks_url_of new_cache oidc_jwks_uri cached_set ic) _
                (rw (e, a, g, build_issuer) at h) in
            let (named, auds, algs, skew) = bind_issuer-ok ic url iv bound in
            (
              named,
              not_empty ic.issuer e,
              ap is_empty auds ∙ a,
              ap is_empty algs ∙ g,
              subst (λ n. 0 < n) (sym skew) (clamp_skew_bounds ic.clock_skew).0,
              subst (λ n. n ≤ max_clock_skew) (sym skew) (clamp_skew_bounds ic.clock_skew).1,
            )
      ]
    ]
  ]

  abbrev AllTrusted : List (List ℕ × IssuerVerifier KeySet) → Type 0
  AllTrusted issuers =
      (iss : List ℕ) (iv : IssuerVerifier KeySet)
      → find_issuer issuers iss ≡ some iv
      → IsTrusted iss iv

  add-AllTrusted :
      (issuers : List (List ℕ × IssuerVerifier KeySet)) (iss : List ℕ) (iv : IssuerVerifier KeySet)
      → IsTrusted iss iv
      → AllTrusted issuers
      → AllTrusted ((iss, iv) ∷ issuers)
  add-AllTrusted issuers iss iv t all j w h = elim (Bool-cases (iss == j)) [
    | inl e ↦
        subst (λ u. IsTrusted j u) (some-injective iv w (rw (e) at h))
          (subst (λ i. IsTrusted i iv) ((list_eqb_iff iss j).0 e) t)
    | inr e ↦ all j w (rw (e) at h)
  ]

  build_issuers_into-AllTrusted :
      (issuers : List (List ℕ × IssuerVerifier KeySet)) (ics : List IssuerConfig)
      (built : List (List ℕ × IssuerVerifier KeySet))
      → AllTrusted issuers
      → build_issuers_into new_cache oidc_jwks_uri cached_set issuers ics ≡ ok built
      → AllTrusted built
  unfolding build_issuers_into
  build_issuers_into-AllTrusted issuers [] built all h = subst AllTrusted (ok-injective h) all
  build_issuers_into-AllTrusted issuers (ic ∷ rest) built all h =
      let (iv, made, later) = >>=-eq-ok (build_issuer new_cache oidc_jwks_uri cached_set ic) _ h in
      build_issuers_into-AllTrusted ((ic.issuer, iv) ∷ issuers) rest built
        (add-AllTrusted issuers ic.issuer iv (build_issuer-IsTrusted ic iv made) all) later

  build_issuers-AllTrusted :
      (ics : List IssuerConfig) (built : List (List ℕ × IssuerVerifier KeySet))
      → build_issuers new_cache oidc_jwks_uri cached_set ics ≡ ok built
      → AllTrusted built
  unfolding build_issuers
  build_issuers-AllTrusted [] built h =
      subst AllTrusted (ok-injective h) (λ iss iv f. absurd (cc f))
  build_issuers-AllTrusted (ic ∷ rest) built h = elim (Bool-cases new_cache) [
    | inl e ↦
        build_issuers_into-AllTrusted [] (ic ∷ rest) built (λ iss iv f. absurd (cc f))
          (rw (e, build_issuers) at h)
    | inr e ↦ absurd (cc (rw (e, build_issuers) at h))
  ]

  -- Verifiers that are built from a configuration are safe to use. Each issuer is found under its
  -- own, non-empty name, with an audience, an allowlist of algorithms, and a clock skew that is
  -- positive and at most the cap. The development key is there only if it is configured with a
  -- secret and the active profile is set and on the key's list.
  pub build_state-IsAllowed :
      (active : List ℕ) (cfg : Config) (st : RegistryState KeySet)
      → build_state new_cache oidc_jwks_uri cached_set active cfg ≡ ok st
      → ((iss : List ℕ) (iv : IssuerVerifier KeySet)
          → find_issuer st.issuers iss ≡ some iv
          → IsTrusted iss iv)
        × IsAllowed active cfg.static_key st.static_key
  unfolding build_state
  build_state-IsAllowed active cfg st h =
      let (issuers, made, rest) =
        >>=-eq-ok (build_issuers new_cache oidc_jwks_uri cached_set cfg.issuers) _ h in
      let (static, allowed, done) = >>=-eq-ok (build_static active cfg.static_key) _ rest in
      let same = ok-injective done in
      subst
        (λ (s : RegistryState KeySet).
          AllTrusted s.issuers × IsAllowed active cfg.static_key s.static_key)
        same
        (
          build_issuers-AllTrusted cfg.issuers issuers made,
          build_static-IsAllowed active cfg.static_key static allowed,
        )
