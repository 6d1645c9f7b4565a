-- ===== src/Config/Keys/RoundTrip.antt =====
-- Keys survive the way through the environment and the command line.
use mathlib.Core.Path.{ap₂}
use lakta.Prelude.{
  ℕ, ◌-◌, ◌<◌, ◌≡◌, ◌≢◌, ◌↔◌, refl, ap, subst, inl, inr, ◌⊎◌, nat-cases, Option, none, some, List,
  [], ◌∷◌, ◌++◌, map, arith, ◌==◌, nat_keyed, leb, ◌&&◌, if◌then◌else◌,
}
use lakta.Config.Keys.{
  underscore, dot, cut_prefix, trim_prefix, replace_all, to_lower, env_key_transform, cut,
  parse_flag,
}

abbrev pub to_upper : ℕ → ℕ
to_upper c = if leb b'a' c && leb c b'z' then c - 32 else c

-- The environment variable for a key: upper case, and a double underscore for each dot.
unfoldable pub encode : List ℕ → List ℕ
encode [] = []
encode (c ∷ p) =
    let rest = encode p in if c == dot then underscore ∷ underscore ∷ rest else to_upper c ∷ rest

abbrev NotUpper : ℕ → Type 0
NotUpper c = (c < b'A') ⊎ (b'Z' < c)

-- No upper case, and no underscore in front of another or of a dot.
abbrev pub IsPlain : List ℕ → Type 0
IsPlain [] = Unit {0}
IsPlain (c ∷ []) = NotUpper c
IsPlain (c ∷ d ∷ p) =
    NotUpper c × ((c ≢ underscore) ⊎ (d ≢ underscore) × (d ≢ dot)) × IsPlain (d ∷ p)

cut_prefix_self : (prefix s : List ℕ) → cut_prefix prefix (prefix ++ s) ≡ some s
unfolding cut_prefix
cut_prefix_self [] s = refl
cut_prefix_self (p ∷ ps) s = ground (arith, cut_prefix_self ps s)

to_lower-to_upper : (c : ℕ) → NotUpper c → to_lower (to_upper c) ≡ c
unfolding to_lower
to_lower-to_upper c h = ground arith

replace_all-keep :
    (c d : ℕ) (s : List ℕ)
    → (c ≢ underscore) ⊎ (d ≢ underscore)
    → replace_all (c ∷ d ∷ s) ≡ c ∷ replace_all (d ∷ s)
unfolding replace_all
replace_all-keep c d s h = ground arith

-- The first byte of an encoded key, which is no underscore unless the key begins with one or a dot.
encode_head :
    (d : ℕ) (p : List ℕ)
    → (h : ℕ) × (t : List ℕ) × (encode (d ∷ p) ≡ h ∷ t)
      × ((d ≢ underscore) × (d ≢ dot) → h ≢ underscore)
unfolding encode
encode_head d p = elim (nat-cases d dot) [
  | inl is_dot ↦ (underscore, underscore ∷ encode p, ground (arith), λ (_, ne). absurd (ne is_dot))
  | inr other ↦ (to_upper d, encode p, ground (arith), λ (ne, _) e. ne (ground arith))
]

decode_tail :
    (c d : ℕ) (p : List ℕ)
    → c ≢ dot
    → (c ≢ underscore) ⊎ (d ≢ underscore) × (d ≢ dot)
    → replace_all (to_upper c ∷ encode (d ∷ p)) ≡ to_upper c ∷ replace_all (encode (d ∷ p))
decode_tail c d p other (inl ne) =
    let (h, t, e, _) = encode_head d p in
    rw e (replace_all-keep (to_upper c) h t (inl (λ q. ne (ground arith))))
decode_tail c d p other (inr plain) =
    let (h, t, e, hd) = encode_head d p in rw e (replace_all-keep (to_upper c) h t (inr (hd plain)))

encode_other : (c : ℕ) (p : List ℕ) → c ≢ dot → encode (c ∷ p) ≡ to_upper c ∷ encode p
unfolding encode
encode_other c p ne = ground arith

IsPlain-head : (c : ℕ) (p : List ℕ) → IsPlain (c ∷ p) → NotUpper c
IsPlain-head c [] h = h
IsPlain-head c (d ∷ p) h = h.0

decode : (p : List ℕ) → IsPlain p → map to_lower (replace_all (encode p)) ≡ p
unfolding replace_all encode
decode [] h = refl
decode (c ∷ []) h = elim (nat-cases c dot) [
  | inl e ↦ rw e (ap (λ x. x ∷ []) (to_lower-to_upper dot (inl (omega arith))))
  | inr ne ↦ rw (encode_other c [] ne) (ap (λ x. x ∷ []) (to_lower-to_upper c h))
]
decode (c ∷ d ∷ p) (u, ok, h) = elim (nat-cases c dot) [
  | inl e ↦ rw e (ap₂ (λ x l. x ∷ l) (to_lower-to_upper dot (inl (omega arith))) (decode (d ∷ p) h))
  | inr ne ↦
      rw (encode_other c (d ∷ p) ne) (
        rw (decode_tail c d p ne ok)
          (ap₂ (λ x l. x ∷ l) (to_lower-to_upper c u) (decode (d ∷ p) h)))
]

trim_prefix_lem : (prefix s : List ℕ) → trim_prefix prefix (prefix ++ s) ≡ s
unfolding trim_prefix
trim_prefix_lem prefix s = ground (arith, cut_prefix_self prefix s)

-- A key that is written as an environment variable behind the prefix is read back as itself, if it
-- is in lower case and no underscore of it stands in front of another or of a dot.
pub env_key_transform-encode :
    (prefix p : List ℕ) → IsPlain p → env_key_transform prefix (prefix ++ encode p) ≡ p
unfolding env_key_transform
env_key_transform-encode prefix p h = rw (trim_prefix_lem prefix (encode p)) (decode p h)

abbrev pub NoEquals : List ℕ → Type 0
NoEquals [] = Unit {0}
NoEquals (c ∷ s) = (c ≢ b'=') × NoEquals s

cut-append : (k v : List ℕ) → NoEquals k → cut (k ++ b'=' ∷ v) ≡ some (k, v)
unfolding cut
cut-append [] v h = refl
cut-append (c ∷ k) v (ne, h) = ground (arith, cut-append k v h)

cut-eq-some : (s k v : List ℕ) → cut s ≡ some (k, v) → (s ≡ k ++ b'=' ∷ v) × NoEquals k
unfolding cut
cut-eq-some [] k v h = absurd (cc)
cut-eq-some (c ∷ s) k v h = go (λ k' v' e. cut-eq-some s k' v' e) (cut s) refl (nat-cases c b'=')
  where
    go :
        ((k' v' : List ℕ) → cut s ≡ some (k', v') → (s ≡ k' ++ b'=' ∷ v') × NoEquals k')
        → (r : Option (List ℕ × List ℕ)) → cut s ≡ r
        → (c ≡ b'=') ⊎ (c ≢ b'=')
        → (c ∷ s ≡ k ++ b'=' ∷ v) × NoEquals k
    go ih r e (inl eq) =
        let none_before : ◌≡◌ {A = List ℕ} [] k = ground (arith, h, eq) in
        let after : s ≡ v = ground (arith, h, eq) in
        subst (λ (l : List ℕ). (c ∷ s ≡ l ++ b'=' ∷ v) × NoEquals l) none_before
          (cc (eq, after), tt)
    go ih none e (inr ne) = absurd (ground (arith, h, e))
    go ih (some (k', v')) e (inr ne) =
        let before : c ∷ k' ≡ k = ground (arith, h, e) in
        let after : v' ≡ v = ground (arith, h, e) in
        let (split, clean) = ih k' v' e in
        subst (λ (l : List ℕ). (c ∷ s ≡ l ++ b'=' ∷ v) × NoEquals l) before
          (cc (split, after), (ne, clean))

cut_prefix-eq-some : (p s : List ℕ) {r : List ℕ} → cut_prefix p s ≡ some r → s ≡ p ++ r
unfolding cut_prefix
cut_prefix-eq-some [] s h = cc
cut_prefix-eq-some (c ∷ p) [] h = absurd (cc)
cut_prefix-eq-some (c ∷ p) (d ∷ s) {r} h = ground (arith, cut_prefix-eq-some p s {r = r})

-- `--key=value` is read as that key and value, split at the first equals sign, and nothing else is
-- read as a flag.
pub parse_flag_iff :
    (arg k v : List ℕ)
    → (parse_flag arg ≡ some (k, v)) ↔ ((arg ≡ b'-' ∷ b'-' ∷ (k ++ b'=' ∷ v)) × NoEquals k)
unfolding parse_flag
parse_flag_iff arg k v =
    (go (cut_prefix (b'-' ∷ b'-' ∷ []) arg) refl, λ (e, h). rw e (cut-append k v h))
  where
    go :
        (r : Option (List ℕ))
        → cut_prefix (b'-' ∷ b'-' ∷ []) arg ≡ r
        → parse_flag arg ≡ some (k, v)
        → (arg ≡ b'-' ∷ b'-' ∷ (k ++ b'=' ∷ v)) × NoEquals k
    go none e h = absurd (cc (rw (e, parse_flag) at h))
    go (some raw) e h =
        let (split, clean) = cut-eq-some raw k v (rw (e, parse_flag) at h) in
        (cc (cut_prefix-eq-some (b'-' ∷ b'-' ∷ []) arg e, split), clean)
