-- ===== src/Verifier/Accepted.antt =====
-- Exactly which tokens are accepted, and as whom.
use mathlib.Core.Option.{some-injective}
use lakta.Prelude.{
  ℕ, ◌≡◌, ◌≢◌, ◌↔◌, ◌⊎◌, inl, inr, refl, true, false, ◌||◌, Option, none, some, List, [], ◌∷◌, ok,
  contains, arith, ◌==◌, bytes_keyed, list_eqb_iff, Bool-cases, Option-cases, subst, ap, sym, ◌∙◌,
}
use lakta.Verifier.{
  Token, Jwx, IssuerVerifier, StaticVerifier, RegistryState, Principal, static_algorithm,
  no_signature, or_empty, find_issuer, intersects, build_principal, header_algorithm, verify_issuer,
  check_audience, verify_static, principal_of, verify_static_path, verify_routed, verify_alg,
  verify,
}

module _ {KeySet : Type 0} (jwx : Jwx KeySet) (st : RegistryState KeySet) (raw : List ℕ) where
  -- A token of a configured issuer: its algorithm is on the issuer's list, the issuer's own key set,
  -- name and skew verify it, and it is meant for one of the issuer's audiences.
  pub record ByIssuer (alg iss : List ℕ) (tok : Token) : Type 0 where
    pub verifier : IssuerVerifier KeySet
    pub routed : find_issuer st.issuers iss ≡ some verifier
    pub allowed : contains verifier.algs alg ≡ true
    pub verified :
        jwx.parse_key_set verifier.keyset verifier.issuer verifier.clock_skew raw ≡ some tok
    pub meant : intersects (or_empty tok.audience) verifier.audience ≡ true

  -- A token of the development key: HS256, of no configured issuer.
  pub record ByStaticKey (alg iss : List ℕ) (tok : Token) : Type 0 where
    pub key : StaticVerifier
    pub unrouted : find_issuer st.issuers iss ≡ none
    pub configured : st.static_key ≡ some key
    pub hs256 : alg ≡ static_algorithm
    pub verified : jwx.parse_secret key.secret key.clock_skew raw ≡ some tok
    pub meant : (key.audience ≡ []) ⊎ (intersects (or_empty tok.audience) key.audience ≡ true)

  pub record IsAccepted (p : Principal) : Type 0 where
    pub alg : List ℕ
    pub unverified : Token
    pub tok : Token
    pub header : header_algorithm jwx raw ≡ some alg
    pub signed : (alg ≢ []) × (alg ≢ no_signature)
    pub parsed : jwx.parse_unverified raw ≡ some unverified
    pub way :
        ByIssuer alg (or_empty unverified.issuer) tok
        ⊎ ByStaticKey alg (or_empty unverified.issuer) tok
    pub principal : p ≡ build_principal tok st.scope_claim st.roles_claim

  check_audience-ok :
      (want : List (List ℕ)) (t tok : Token)
      → check_audience jwx want t ≡ some tok
      → (t ≡ tok) × ((want ≡ []) ⊎ (intersects (or_empty tok.audience) want ≡ true))
  unfolding check_audience
  check_audience-ok [] t tok h = (cc, inl refl)
  check_audience-ok (a ∷ want) t tok h =
      elim (Bool-cases (intersects (or_empty t.audience) (a ∷ want))) [
        | inl e ↦
            let same = some-injective t tok (rw (e, check_audience) at h) in
            (same, inr (subst (λ u. intersects (or_empty u.audience) (a ∷ want) ≡ true) same e))
        | inr e ↦ absurd (cc (rw (e, check_audience) at h))
      ]

  principal_of-ok :
      (o : Option Token) (p : Principal)
      → principal_of jwx st o ≡ ok p
      → (tok : Token) × (o ≡ some tok) × (p ≡ build_principal tok st.scope_claim st.roles_claim)
  unfolding principal_of
  principal_of-ok none p h = absurd (cc h)
  principal_of-ok (some tok) p h = (tok, refl, cc)

  verify_issuer-ok :
      (iv : IssuerVerifier KeySet) (tok : Token)
      → verify_issuer jwx iv raw ≡ some tok
      → (jwx.parse_key_set iv.keyset iv.issuer iv.clock_skew raw ≡ some tok)
        × (intersects (or_empty tok.audience) iv.audience ≡ true)
  unfolding verify_issuer
  verify_issuer-ok iv tok h =
      elim (Option-cases (jwx.parse_key_set iv.keyset iv.issuer iv.clock_skew raw)) [
        | inl e ↦ absurd (cc (rw (e, verify_issuer) at h))
        | inr (t, e) ↦ elim (Bool-cases (intersects (or_empty t.audience) iv.audience)) [
          | inl i ↦
              let same = some-injective t tok (rw (e, verify_issuer, i) at h) in
              (
                e ∙ ap some same,
                subst (λ u. intersects (or_empty u.audience) iv.audience ≡ true) same i,
              )
          | inr i ↦ absurd (cc (rw (e, verify_issuer, i) at h))
        ]
      ]

  verify_static-ok :
      (sv : StaticVerifier) (tok : Token)
      → verify_static jwx sv raw ≡ some tok
      → (jwx.parse_secret sv.secret sv.clock_skew raw ≡ some tok)
        × ((sv.audience ≡ []) ⊎ (intersects (or_empty tok.audience) sv.audience ≡ true))
  unfolding verify_static
  verify_static-ok sv tok h = elim (Option-cases (jwx.parse_secret sv.secret sv.clock_skew raw)) [
    | inl e ↦ absurd (cc (rw (e, verify_static) at h))
    | inr (t, e) ↦
        let (same, meant) = check_audience-ok sv.audience t tok (rw (e, verify_static) at h) in
        (e ∙ ap some same, meant)
  ]

  verify_static_path-ok :
      (alg iss : List ℕ) (p : Principal)
      → find_issuer st.issuers iss ≡ none
      → verify_static_path jwx st alg raw ≡ ok p
      → (tok : Token) × ByStaticKey alg iss tok
        × (p ≡ build_principal tok st.scope_claim st.roles_claim)
  unfolding verify_static_path
  verify_static_path-ok alg iss p unrouted h = elim (Option-cases st.static_key) [
    | inl e ↦ absurd (cc (rw (e, verify_static_path) at h))
    | inr (sv, e) ↦ elim (Bool-cases (alg == static_algorithm)) [
      | inl i ↦
          let (tok, found, same) =
            principal_of-ok (verify_static jwx sv raw) p (rw (e, verify_static_path, i) at h) in
          let (verified, meant) = verify_static-ok sv tok found in
          (
            tok,
            record {
              key = sv;
              unrouted = unrouted;
              configured = e;
              hs256 = (list_eqb_iff alg static_algorithm).0 i;
              verified = verified;
              meant = meant;
            },
            same,
          )
      | inr i ↦ absurd (cc (rw (e, verify_static_path, i) at h))
    ]
  ]

  verify_routed-ok :
      (alg iss : List ℕ) (p : Principal)
      → verify_routed jwx st alg iss raw ≡ ok p
      → (tok : Token) × (ByIssuer alg iss tok ⊎ ByStaticKey alg iss tok)
        × (p ≡ build_principal tok st.scope_claim st.roles_claim)
  unfolding verify_routed
  verify_routed-ok alg iss p h = elim (Option-cases (find_issuer st.issuers iss)) [
    | inl e ↦
        let (tok, way, same) = verify_static_path-ok alg iss p e (rw (e, verify_routed) at h) in
        (tok, inr way, same)
    | inr (iv, e) ↦ elim (Bool-cases (contains iv.algs alg)) [
      | inl i ↦
          let (tok, found, same) =
            principal_of-ok (verify_issuer jwx iv raw) p (rw (e, verify_routed, i) at h) in
          let (verified, meant) = verify_issuer-ok iv tok found in
          (
            tok,
            inl (record {
              verifier = iv;
              routed = e;
              allowed = i;
              verified = verified;
              meant = meant;
            }),
            same,
          )
      | inr i ↦ absurd (cc (rw (e, verify_routed, i) at h))
    ]
  ]

  ByIssuer-accepts :
      (alg iss : List ℕ) (tok : Token)
      → ByIssuer alg iss tok
      → verify_routed jwx st alg iss raw ≡ ok (build_principal tok st.scope_claim st.roles_claim)
  unfolding verify_routed verify_issuer principal_of
  ByIssuer-accepts alg iss tok w =
      rw (w.routed, verify_routed, w.allowed, w.verified, verify_issuer, w.meant, principal_of) refl

  check_audience-meant :
      (want : List (List ℕ)) (tok : Token)
      → (want ≡ []) ⊎ (intersects (or_empty tok.audience) want ≡ true)
      → check_audience jwx want tok ≡ some tok
  unfolding check_audience
  check_audience-meant [] tok m = refl
  check_audience-meant (a ∷ want) tok (inl e) = absurd (cc e)
  check_audience-meant (a ∷ want) tok (inr e) = rw e refl

  ByStaticKey-accepts :
      (alg iss : List ℕ) (tok : Token)
      → ByStaticKey alg iss tok
      → verify_routed jwx st alg iss raw ≡ ok (build_principal tok st.scope_claim st.roles_claim)
  unfolding verify_routed verify_static_path verify_static principal_of
  ByStaticKey-accepts alg iss tok w =
      rw
        (
          w.unrouted,
          verify_routed,
          w.configured,
          verify_static_path,
          (list_eqb_iff alg static_algorithm).1 w.hs256,
          w.verified,
          verify_static,
          check_audience-meant w.key.audience tok w.meant,
          principal_of,
        )
        refl

  is_signed :
      (alg : List ℕ)
      → ((alg == []) || (alg == no_signature)) ≡ false
      → (alg ≢ []) × (alg ≢ no_signature)
  is_signed alg h = (
    λ e. absurd (ground (arith, (list_eqb_iff alg []).1 e)),
    λ e. absurd (ground (arith, (list_eqb_iff alg no_signature).1 e)),
  )

  not_rejected :
      (alg : List ℕ)
      → (alg ≢ []) × (alg ≢ no_signature)
      → ((alg == []) || (alg == no_signature)) ≡ false
  not_rejected alg (some_alg, signed) = elim (Bool-cases (alg == [])) [
    | inl e ↦ absurd (some_alg ((list_eqb_iff alg []).0 e))
    | inr e ↦ elim (Bool-cases (alg == no_signature)) [
      | inl i ↦ absurd (signed ((list_eqb_iff alg no_signature).0 i))
      | inr i ↦ rw e (rw i refl)
    ]
  ]

  verify-IsAccepted : (p : Principal) → verify jwx (some st) raw ≡ ok p → IsAccepted p
  unfolding verify verify_alg
  verify-IsAccepted p h = elim (Option-cases (header_algorithm jwx raw)) [
    | inl e ↦ absurd (cc (rw (e, verify) at h))
    | inr (alg, e) ↦ elim (Bool-cases ((alg == []) || (alg == no_signature))) [
      | inl r ↦ absurd (cc (rw (e, verify, verify_alg, r) at h))
      | inr r ↦ elim (Option-cases (jwx.parse_unverified raw)) [
        | inl u ↦ absurd (cc (rw (e, verify, verify_alg, r, u) at h))
        | inr (unverified, u) ↦
            let (tok, way, same) =
              verify_routed-ok alg (or_empty unverified.issuer) p
                (rw (e, verify, verify_alg, r, u) at h) in
            record {
              alg = alg;
              unverified = unverified;
              tok = tok;
              header = e;
              signed = is_signed alg r;
              parsed = u;
              way = way;
              principal = same;
            }
      ]
    ]
  ]

  accepts :
      (alg iss : List ℕ) (tok : Token)
      → ByIssuer alg iss tok ⊎ ByStaticKey alg iss tok
      → verify_routed jwx st alg iss raw ≡ ok (build_principal tok st.scope_claim st.roles_claim)
  accepts alg iss tok (inl w) = ByIssuer-accepts alg iss tok w
  accepts alg iss tok (inr w) = ByStaticKey-accepts alg iss tok w

  IsAccepted-verify : (p : Principal) → IsAccepted p → verify jwx (some st) raw ≡ ok p
  unfolding verify verify_alg
  IsAccepted-verify p a =
      rw (a.header, verify, not_rejected a.alg a.signed, verify_alg, a.parsed)
        (accepts a.alg (or_empty a.unverified.issuer) a.tok a.way ∙ ap ok (sym a.principal))

  -- A token yields a principal exactly if its header names an algorithm, which is not `none`, and
  -- either its issuer is configured, the algorithm is on that issuer's list, the issuer's own keys,
  -- name and skew verify it and it is meant for one of the issuer's audiences; or its issuer is not
  -- configured, the development key is, the algorithm is HS256 and that key verifies it. The
  -- principal is built from the verified token, never from the one that was read for routing.
  pub verify_iff : (p : Principal) → (verify jwx (some st) raw ≡ ok p) ↔ IsAccepted p
  verify_iff p = (verify-IsAccepted p, IsAccepted-verify p)
