-- ===== src/Flags/Rollout.antt =====
-- Roll-outs are percentages, and a larger one reaches every key that a smaller one reached.
use native.Mathlib.Nat.{mod-lt}
use mathlib.Core.Option.{some-injective}
use lakta.Prelude.{
  ℕ, ◌≡◌, ◌≤◌, ◌<◌, refl, sym, subst, ◌∙◌, ℤ, pos, negsuc, Bool, true, false, Option, none, some,
  List, [], ◌∷◌, ◌++◌, ok, >>=-eq-ok, ok-injective, ltb, ◌==◌, bytes_keyed, arith, inl, inr,
  Bool-cases,
}
use lakta.Flags.{
  Definition, scalar, object, FlagValue, max_rollout, to_bool, to_int, check_rollout,
  parse_flag_value, parse_snapshot, lookup, bucket, fnv_write, gate, bool_for,
}

abbrev pub IsPercentage : Option ℤ → Type 0
IsPercentage none = Unit {0}
IsPercentage (some (pos n)) = n ≤ 100
IsPercentage (some (negsuc n)) = ⊥

check_rollout-IsPercentage :
    (name : List ℕ) (r : Option ℤ) (n : ℤ) → check_rollout name r ≡ ok n → IsPercentage (some n)
unfolding check_rollout
check_rollout-IsPercentage name none n h = absurd (cc h)
check_rollout-IsPercentage name (some (negsuc m)) n h = absurd (cc h)
check_rollout-IsPercentage name (some (pos m)) n h = elim (Bool-cases (ltb max_rollout m)) [
  | inl e ↦ absurd (cc (rw (e, check_rollout) at h))
  | inr e ↦
      subst (λ x. IsPercentage (some x)) (ok-injective (rw (e, check_rollout) at h)) (ground arith)
]

parse_flag_value-IsPercentage :
    (name : List ℕ) (d : Definition) (fl : FlagValue)
    → parse_flag_value name d ≡ ok fl
    → IsPercentage fl.rollout
unfolding parse_flag_value
parse_flag_value-IsPercentage name (scalar v) fl h =
    subst (λ (f : FlagValue). IsPercentage f.rollout) (ok-injective h) tt
parse_flag_value-IsPercentage name (object none rollout) fl h = absurd (cc h)
parse_flag_value-IsPercentage name (object (some v) none) fl h =
    subst (λ (f : FlagValue). IsPercentage f.rollout) (ok-injective h) tt
parse_flag_value-IsPercentage name (object (some v) (some r)) fl h =
    let (n, checked, made) = >>=-eq-ok (check_rollout name (to_int r)) _ h in
    subst (λ (f : FlagValue). IsPercentage f.rollout) (ok-injective made)
      (check_rollout-IsPercentage name (to_int r) n checked)

lookup-IsPercentage :
    (raw : List (List ℕ × Definition)) (s : List (List ℕ × FlagValue)) (name : List ℕ)
    (fl : FlagValue)
    → parse_snapshot raw ≡ ok s
    → lookup s name ≡ some fl
    → IsPercentage fl.rollout
unfolding parse_snapshot lookup
lookup-IsPercentage [] s name fl h l =
    absurd (cc (subst (λ t. lookup t name ≡ some fl) (sym (ok-injective h)) l))
lookup-IsPercentage ((k, d) ∷ raw) s name fl h l =
    let (f, first, h₁) = >>=-eq-ok (parse_flag_value k d) _ h in
    let (rest, later, h₂) = >>=-eq-ok (parse_snapshot raw) _ h₁ in
    let found = subst (λ t. lookup t name ≡ some fl) (sym (ok-injective h₂)) l in
    elim (Bool-cases (k == name)) [
      | inl e ↦
          subst (λ (g : FlagValue). IsPercentage g.rollout)
            (some-injective _ _ (rw (e, lookup) at found))
            (parse_flag_value-IsPercentage k d f first)
      | inr e ↦ lookup-IsPercentage raw rest name fl later (rw (e, lookup) at found)
    ]

bucket_bound : (name key : List ℕ) → bucket name key < 100
unfolding bucket
bucket_bound name key = mod-lt (fnv_write 14695981039346656037 (name ++ b':' ∷ key)) (omega arith)

bool_for-gate :
    (s : List (List ℕ × FlagValue)) (name key : List ℕ) (def : Bool) (fl : FlagValue) (n : ℕ)
    → lookup s name ≡ some fl
    → to_bool fl.value ≡ some true
    → fl.rollout ≡ some (pos n)
    → bool_for s name key def ≡ ltb (bucket name key) n
unfolding bool_for gate
bool_for-gate s name key def fl n l v r = rw (l, bool_for, v, r, gate) refl

-- A flag of a parsed snapshot that is on with a roll-out has one of at most 100. It is on for every
-- key at 100 and for none at 0; and if another snapshot has it on with no smaller a roll-out, then
-- each key for which it was on has it on still, whatever the defaults.
pub bool_for-grows :
    (raw : List (List ℕ × Definition)) (s s' : List (List ℕ × FlagValue)) (name key : List ℕ)
    (def def' : Bool) (fl fl' : FlagValue) (m n : ℕ)
    → parse_snapshot raw ≡ ok s
    → lookup s name ≡ some fl
    → to_bool fl.value ≡ some true
    → fl.rollout ≡ some (pos m)
    → lookup s' name ≡ some fl'
    → to_bool fl'.value ≡ some true
    → fl'.rollout ≡ some (pos n)
    → m ≤ n
    → (m ≤ 100)
      × (m ≡ 100 → bool_for s name key def ≡ true)
      × (m ≡ 0 → bool_for s name key def ≡ false)
      × (bool_for s name key def ≡ true → bool_for s' name key def' ≡ true)
bool_for-grows raw s s' name key def def' fl fl' m n h l v r l' v' r' le =
    let this = bool_for-gate s name key def fl m l v r in
    let that = bool_for-gate s' name key def' fl' n l' v' r' in
    let bound = bucket_bound name key in
    (
      subst IsPercentage r (lookup-IsPercentage raw s name fl h l),
      λ e. this ∙ ground arith,
      λ e. this ∙ ground arith,
      λ on. let below_m = sym this ∙ on in that ∙ ground arith,
    )
