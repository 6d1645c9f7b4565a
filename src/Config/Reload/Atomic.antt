-- ===== src/Config/Reload/Atomic.antt =====
-- A reload takes place whole or not at all.
use lakta.Prelude.{
  ℕ, zero, suc, ◌≡◌, refl, sym, ap, subst, String, Bool, Option, none, some, List, [], ◌∷◌, ◌++◌,
  length, Result, ok, err, ◌>>=◌, >>=-eq-ok, map, Option-cases, inl, inr,
}
use lakta.Config.Reload.{
  Layer, ReloadError, rejected, ConfigModule, Call, cascade, validate_all, run_callbacks, commit,
  reload, add_on_validate,
}

abbrev pub count_up : ℕ → ℕ → List ℕ
count_up i zero = []
count_up i (suc n) = i ∷ count_up (suc i) n

abbrev pub AllAccept : {K : Type 0} → List (K → Option String) → K → Type 0
AllAccept [] k = Unit {0}
AllAccept (v ∷ vs) k = (v k ≡ none) × AllAccept vs k

module _ {K : Type 0} where
  validate_all-ok :
      (vs : List (K → Option String)) (k k' : K)
      → validate_all vs k ≡ ok k'
      → (k' ≡ k) × AllAccept vs k
  unfolding validate_all
  validate_all-ok [] k k' h = (cc, tt)
  validate_all-ok (v ∷ vs) k k' h = elim (Option-cases (v k)) [
    | inl e ↦
        let (same, rest) = validate_all-ok vs k k' (rw (e, validate_all) at h) in (same, (e, rest))
    | inr (x, e) ↦ absurd (cc (rw (e, validate_all) at h))
  ]

  validate_all-accept :
      (vs : List (K → Option String)) (k : K) → AllAccept vs k → validate_all vs k ≡ ok k
  unfolding validate_all
  validate_all-accept [] k a = refl
  validate_all-accept (v ∷ vs) k (e, a) = rw e (validate_all-accept vs k a)

  calls_handed :
      (i : ℕ) (fns : List (K → Bool)) (k : K)
      → map (λ (c : Call K). c.handed) (run_callbacks i fns k) ≡ map (λ (fn : K → Bool). k) fns
  unfolding run_callbacks
  calls_handed i [] k = refl
  calls_handed i (fn ∷ fns) k = ap (λ l. k ∷ l) (calls_handed (suc i) fns k)

  calls_once :
      (i : ℕ) (fns : List (K → Bool)) (k : K)
      → map (λ (c : Call K). c.callback) (run_callbacks i fns k) ≡ count_up i (length fns)
  unfolding run_callbacks
  calls_once i [] k = refl
  calls_once i (fn ∷ fns) k = ap (λ l. i ∷ l) (calls_once (suc i) fns k)

  validate_all-veto :
      (vs : List (K → Option String)) (veto : K → Option String) (k : K) (e : String)
      → AllAccept vs k
      → veto k ≡ some e
      → validate_all (vs ++ veto ∷ []) k ≡ err (rejected e)
  unfolding validate_all
  validate_all-veto [] veto k e a v = rw v
  validate_all-veto (w ∷ vs) veto k e (q, a) v = rw q (validate_all-veto vs veto k e a v)

module _ {K : Type 0} (empty : K) (load : Layer → K → Result String K) where
  -- What a reload that takes place does.
  pub record Committed (m m' : ConfigModule K) (calls : List (Call K)) : Type 0 where
    pub candidate : K
    pub loaded : cascade empty load m ≡ ok candidate
    pub accepted : AllAccept m.on_validate candidate
    pub swapped : m' ≡ record m { koanf = candidate }
    pub notified : map (λ (c : Call K). c.handed) calls ≡ map (λ fn. candidate) m.on_reload
    pub each_once : map (λ (c : Call K). c.callback) calls ≡ count_up 0 (length m.on_reload)

  abbrev pub Whole : ConfigModule K → ConfigModule K × Option ReloadError × List (Call K) → Type 0
  Whole m (m', none, calls) = Committed m m' calls
  Whole m (m', some e, calls) = (m' ≡ m) × (calls ≡ [])

  -- A reload that returns an error leaves the module as it was and calls no callback. One that
  -- returns none has loaded the whole cascade, every validator has accepted the candidate, it is
  -- now the live configuration, and each callback was called once, in the order of registration,
  -- with that configuration, whichever of them panic.
  pub reload-Whole : (m : ConfigModule K) → Whole m (reload empty load m)
  unfolding reload
  reload-Whole m = go (cascade empty load m >>= validate_all m.on_validate) refl
    where
      go :
          (r : Result ReloadError K)
          → (cascade empty load m >>= validate_all m.on_validate) ≡ r
          → Whole m (commit m r)
      go (err e) eq = (refl, refl)
      go (ok k) eq =
          let (c, loaded, valid) = >>=-eq-ok (cascade empty load m) _ eq in
          let (same, accepted) = validate_all-ok m.on_validate c k valid in
          record {
            candidate = k;
            loaded = cc;
            accepted = subst (AllAccept m.on_validate) (sym same) accepted;
            swapped = refl;
            notified = calls_handed 0 m.on_reload k;
            each_once = calls_once 0 m.on_reload k;
          }

  -- A candidate that loads and that every validator accepts is always taken: no error is returned,
  -- it is the live configuration, and each callback is called once, in order, with it.
  pub reload_accepted :
      (m : ConfigModule K) (k : K)
      → cascade empty load m ≡ ok k
      → AllAccept m.on_validate k
      → let (m', e, calls) = reload empty load m in
        (e ≡ none)
        × (m' ≡ record m { koanf = k })
        × (map (λ (c : Call K). c.handed) calls ≡ map (λ fn. k) m.on_reload)
        × (map (λ (c : Call K). c.callback) calls ≡ count_up 0 (length m.on_reload))
  unfolding reload commit
  reload_accepted m k loaded a = rw loaded (
      rw (validate_all-accept m.on_validate k a)
        (refl, refl, calls_handed 0 m.on_reload k, calls_once 0 m.on_reload k))

  -- A validator that is registered last and rejects the candidate vetoes the reload.
  pub reload_veto :
      (m : ConfigModule K) (veto : K → Option String) (k : K) (e : String)
      → cascade empty load m ≡ ok k
      → AllAccept m.on_validate k
      → veto k ≡ some e
      → reload empty load (add_on_validate veto m) ≡ (add_on_validate veto m, some (rejected e), [])
  unfolding reload add_on_validate cascade
  reload_veto m veto k e loaded a v =
      rw (loaded) (rw (validate_all-veto m.on_validate veto k e a v))
