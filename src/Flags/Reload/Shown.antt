-- ===== src/Flags/Reload/Shown.antt =====
-- The reads of pkg/features/flags/flags.go, against the definitions that a snapshot was parsed from.
use lakta.Prelude.{
  ℕ, ◌≡◌, ◌⊎◌, inl, inr, refl, ◌∙◌, ap, ℤ, pos, negsuc, Bool, true, false, Option, none, some, List,
  [], ◌∷◌, ok, err, leb, ltb, ◌==◌, bytes_keyed, get, if◌then◌else◌, arith, Bool-cases,
}
use lakta.Flags.{
  Value, other, Definition, scalar, object, FlagValue, FlagsError, bad_rollout, max_rollout,
  to_bool, to_string, to_int, check_rollout, parse_flag_value, parse_snapshot, lookup, coerced,
  read_value, read, bool, string, integer, gate, bool_for,
}
use lakta.Flags.Reload.{FlagsModule}

abbrev pub percentage : Option ℤ → Bool
percentage (some (pos n)) = leb n 100
percentage n = false

abbrev pub in_order : Definition → Bool
in_order (scalar v) = true
in_order (object none r) = false
in_order (object (some v) none) = true
in_order (object (some v) (some r)) = percentage (to_int r)

-- Each definition has a value, and a roll-out that is a percentage, if it has one.
abbrev pub accepts : List (List ℕ × Definition) → Bool
accepts [] = true
accepts ((name, d) ∷ cfg) = let rest = accepts cfg in if in_order d then rest else false

abbrev pub flag_of : Definition → FlagValue
flag_of (scalar v) = record { value = v; rollout = none }
flag_of (object none r) = record { value = other; rollout = none }
flag_of (object (some v) none) = record { value = v; rollout = none }
flag_of (object (some v) (some r)) = record { value = v; rollout = to_int r }

abbrev pub flag_at : Option Definition → Option FlagValue
flag_at none = none
flag_at (some d) = some (flag_of d)

module _ {T : Type 0} (coerce : Value → Option T) (def : T) where
  abbrev pub shown : Option Definition → T
  shown none = def
  shown (some d) = coerced (coerce (flag_of d).value) def

abbrev pub shown_for : (name key : List ℕ) (def : Bool) → Option Bool → Option ℤ → Bool
shown_for name key def none rollout = def
shown_for name key def (some val) rollout = gate name key def val rollout

abbrev pub shown_to : (name key : List ℕ) (def : Bool) → Option Definition → Bool
shown_to name key def none = def
shown_to name key def (some d) =
    shown_for name key def (to_bool (flag_of d).value) (flag_of d).rollout

-- What the flags of the module answer, in terms of the definitions.
pub record IsShowing (cfg : List (List ℕ × Definition)) (m : FlagsModule) : Type 0 where
  pub snap : List (List ℕ × FlagValue)
  pub kept : m.config ≡ cfg
  pub live : m.flags ≡ some snap
  pub bools : (name : List ℕ) (def : Bool) → bool snap name def ≡ shown to_bool def (get cfg name)
  pub strings : (name def : List ℕ) → string snap name def ≡ shown to_string def (get cfg name)
  pub ints : (name : List ℕ) (def : ℤ) → integer snap name def ≡ shown to_int def (get cfg name)
  pub shares :
      (name key : List ℕ) (def : Bool)
      → bool_for snap name key def ≡ shown_to name key def (get cfg name)

check_rollout_lem :
    (name : List ℕ) (r : Option ℤ)
    → ((percentage r ≡ true) × (n : ℤ) × (r ≡ some n) × (check_rollout name r ≡ ok n))
      ⊎ ((percentage r ≡ false) × (e : FlagsError) × (check_rollout name r ≡ err e))
unfolding check_rollout
check_rollout_lem name none = inr (refl, _, refl)
check_rollout_lem name (some (negsuc n)) = inr (refl, _, refl)
check_rollout_lem name (some (pos n)) = elim (Bool-cases (ltb max_rollout n)) [
  | inl e ↦ inr (ground arith, bad_rollout name, rw e refl)
  | inr e ↦ inl (ground arith, pos n, refl, rw e refl)
]

parse_flag_value_lem :
    (name : List ℕ) (d : Definition)
    → ((in_order d ≡ true) × (parse_flag_value name d ≡ ok (flag_of d)))
      ⊎ ((in_order d ≡ false) × (e : FlagsError) × (parse_flag_value name d ≡ err e))
unfolding parse_flag_value
parse_flag_value_lem name (scalar v) = inl (refl, refl)
parse_flag_value_lem name (object none r) = inr (refl, _, refl)
parse_flag_value_lem name (object (some v) none) = inl (refl, refl)
parse_flag_value_lem name (object (some v) (some r)) = elim (check_rollout_lem name (to_int r)) [
  | inl (p, n, e, c) ↦ inl (p, rw (c, e) refl)
  | inr (p, e, c) ↦ inr (p, e, rw c refl)
]

-- A configuration parses exactly if it is in order, and then each name has its definition's flag.
pub parse_snapshot_lem :
    (cfg : List (List ℕ × Definition))
    → ((accepts cfg ≡ true)
        × (s : List (List ℕ × FlagValue)) × (parse_snapshot cfg ≡ ok s)
        × ((name : List ℕ) → lookup s name ≡ flag_at (get cfg name)))
      ⊎ ((accepts cfg ≡ false) × (e : FlagsError) × (parse_snapshot cfg ≡ err e))
unfolding parse_snapshot lookup
parse_snapshot_lem [] = inl (refl, [], refl, λ name. refl)
parse_snapshot_lem ((k, d) ∷ cfg) = elim (parse_flag_value_lem k d) [
  | inr (p, e, f) ↦ inr (rw p refl, e, rw f refl)
  | inl (p, f) ↦ elim (parse_snapshot_lem cfg) [
    | inr (q, e, g) ↦ inr (rw (p, q) refl, e, rw (f, g) refl)
    | inl (q, s, g, found) ↦ inl (
      rw (p, q) refl,
      (k, flag_of d) ∷ s,
      rw (f, g) refl,
      λ name. elim (Bool-cases (k == name)) [ inl y ↦ rw y refl | inr n ↦ rw n (found name) ],
    )
  ]
]

read_value-shown :
    {T : Type 0} (d : Option Definition) (def : T) (coerce : Value → Option T)
    → read_value (flag_at d) def coerce ≡ shown coerce def d
unfolding read_value
read_value-shown none def coerce = refl
read_value-shown (some d) def coerce = refl

read-shown :
    {T : Type 0} (s : List (List ℕ × FlagValue)) (name : List ℕ) (d : Option Definition) (def : T)
    (coerce : Value → Option T)
    → lookup s name ≡ flag_at d
    → read s name def coerce ≡ shown coerce def d
unfolding read
read-shown s name d def coerce found =
    ap (λ fl. read_value fl def coerce) found ∙ read_value-shown d def coerce

bool_for-shown :
    (s : List (List ℕ × FlagValue)) (name key : List ℕ) (def : Bool) (d : Option Definition)
    → lookup s name ≡ flag_at d
    → bool_for s name key def ≡ shown_to name key def d
unfolding bool_for
bool_for-shown s name key def d found = rw (bool_for, found) (at d)
  where
    gated :
        (b : Option Bool) (rollout : Option ℤ)
        → (elim b [ none ↦ def | some val ↦ gate name key def val rollout ])
          ≡ shown_for name key def b rollout
    gated none rollout = refl
    gated (some b) rollout = refl

    at :
        (d : Option Definition)
        → (elim (flag_at d) [
          | none ↦ def
          | some fl ↦ elim (to_bool fl.value) [
            | none ↦ def
            | some val ↦ gate name key def val fl.rollout
          ]
        ])
          ≡ shown_to name key def d
    at none = refl
    at (some d) = gated (to_bool (flag_of d).value) (flag_of d).rollout

-- A snapshot that was parsed from the configuration shows it.
pub parsed-IsShowing :
    (cfg : List (List ℕ × Definition)) (s : List (List ℕ × FlagValue)) (m : FlagsModule)
    → ((name : List ℕ) → lookup s name ≡ flag_at (get cfg name))
    → m.config ≡ cfg
    → m.flags ≡ some s
    → IsShowing cfg m
unfolding bool string integer
parsed-IsShowing cfg s m found kept live = record {
  snap = s;
  kept = kept;
  live = live;
  bools = λ name def. read-shown s name (get cfg name) def to_bool (found name);
  strings = λ name def. read-shown s name (get cfg name) def to_string (found name);
  ints = λ name def. read-shown s name (get cfg name) def to_int (found name);
  shares = λ name key def. bool_for-shown s name key def (get cfg name) (found name);
}
