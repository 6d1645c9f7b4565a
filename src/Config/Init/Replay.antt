-- ===== src/Config/Init/Replay.antt =====
-- What a reload replays of `Init`.
use lakta.Prelude.{
  ℕ, ◌≡◌, refl, ap, subst, ◌∙◌, String, Bool, true, Option, none, some, List, [], Result, ok, err,
  ◌>>=◌, >>=-eq-ok, ok-injective,
}
use lakta.Config.Reload.{
  Layer, ReloadError, ConfigModule, load_files, load_env, load_flags, cascade,
}
use lakta.Config.Init.{InitError, loaded, set_flags, parse_args, load_cli_flags, init}

loaded-ok : {A : Type 0} (r : Result ReloadError A) (x : A) → loaded r ≡ ok x → r ≡ ok x
loaded-ok (ok y) x h = ap ok (ok-injective h)
loaded-ok (err e) x h = absurd (cc h)

>>=-ok : {E A B : Type 0} (r : Result E A) (f : A → Result E B) (x : A) → r ≡ ok x → (r >>= f) ≡ f x
>>=-ok r f x h = ap (λ s. s >>= f) h

module _ {K : Type 0} (empty : K) (load : Layer → K → Result String K)
    (parse : K → List (List ℕ) → Result String (List (List ℕ)))
    (set_key : List ℕ → List ℕ → K → Result String K) where
  -- The arguments that `Init` sets by themselves.
  abbrev pub left_over : Option (List (List ℕ)) → K → Result InitError (List (List ℕ))
  left_over none k = ok []
  left_over (some args) k = parse_args empty load parse set_key k args

  -- What the files and the environment yield.
  abbrev pub files_and_env : List String → String → Result ReloadError K
  files_and_env discovered env_prefix = do
    k₁ ← load_files empty load discovered empty
    load_env empty load env_prefix k₁

  load_cli_flags-split :
      (args : Option (List (List ℕ))) (k k₃ : K) (flag_set : Bool)
      → load_cli_flags empty load parse set_key args k ≡ ok (flag_set, k₃)
      → (rest : List (List ℕ)) × (k₀ : K) × (left_over args k ≡ ok rest)
        × (load_flags empty load flag_set k ≡ ok k₀)
        × (set_flags empty load parse set_key rest k₀ ≡ ok k₃)
  unfolding load_cli_flags set_flags load_flags
  load_cli_flags-split none k k₃ flag_set h =
      let same = ok-injective h in
      (
        [],
        k,
        refl,
        subst (λ b. load_flags empty load b k ≡ ok k) (ap (λ (p : Bool × K). p.0) same) refl,
        ap ok (ap (λ (p : Bool × K). p.1) same),
      )
  load_cli_flags-split (some args) k k₃ flag_set h =
      let (rest, parsed, h₁) = >>=-eq-ok (parse_args empty load parse set_key k args) _ h in
      let (k₁, flags, h₂) = >>=-eq-ok (loaded (load_flags empty load true k)) _ h₁ in
      let (k₂, keys, h₃) = >>=-eq-ok (set_flags empty load parse set_key rest k₁) _ h₂ in
      let same = ok-injective h₃ in
      (
        rest,
        k₁,
        parsed,
        subst (λ b. load_flags empty load b k ≡ ok k₁) (ap (λ (p : Bool × K). p.0) same)
            (loaded-ok (load_flags empty load true k) k₁ flags),
        keys ∙ ap ok (ap (λ (p : Bool × K). p.1) same),
      )

  -- After `Init` has succeeded on a new module, what a reload loads while nothing has changed is
  -- what `Init` had before it set keys by themselves: just those of the arguments that the flag set
  -- left over when it parsed them on top of the files and the environment, none without arguments.
  pub init-cascade :
      (args : Option (List (List ℕ))) (discovered : List String) (m m' : ConfigModule K)
      → m.koanf ≡ empty
      → init empty load parse set_key args discovered m ≡ ok m'
      → (rest : List (List ℕ)) × (k₀ k₂ : K) × (files_and_env discovered m.env_prefix ≡ ok k₂)
        × (left_over args k₂ ≡ ok rest)
        × (cascade empty load m' ≡ ok k₀)
        × (set_flags empty load parse set_key rest k₀ ≡ ok m'.koanf)
  unfolding init cascade
  init-cascade args discovered m m' fresh h =
      let (k₁, files, h₁) = >>=-eq-ok (loaded (load_files empty load discovered m.koanf)) _ h in
      let (k₂, envs, h₂) = >>=-eq-ok (loaded (load_env empty load m.env_prefix k₁)) _ h₁ in
      let ((flag_set, k₃), cli, h₃) =
        >>=-eq-ok (load_cli_flags empty load parse set_key args k₂) _ h₂ in
      let (rest, k₀, left, flags, keys) = load_cli_flags-split args k₂ k₃ flag_set cli in
      let read : load_files empty load discovered empty ≡ ok k₁ =
        subst (λ k. load_files empty load discovered k ≡ ok k₁) fresh (loaded-ok _ k₁ files) in
      let env_read = loaded-ok (load_env empty load m.env_prefix k₁) k₂ envs in
      subst
        (λ (n : ConfigModule K).
          (rest : List (List ℕ)) × (k₀ k₂ : K) × (files_and_env discovered m.env_prefix ≡ ok k₂)
          × (left_over args k₂ ≡ ok rest)
          × (cascade empty load n ≡ ok k₀)
          × (set_flags empty load parse set_key rest k₀ ≡ ok n.koanf))
        (ok-injective h₃)
        (
          rest,
          k₀,
          k₂,
          >>=-ok (load_files empty load discovered empty) _ k₁ read ∙ env_read,
          left,
          >>=-ok (load_files empty load discovered empty) _ k₁ read
              ∙ >>=-ok (load_env empty load m.env_prefix k₁) _ k₂ env_read
              ∙ flags,
          keys,
        )
