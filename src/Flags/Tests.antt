-- ===== src/Flags/Tests.antt =====
-- A flag with a roll-out, and reloads of it.
use lakta.Prelude.{ℕ, ◌≡◌, ◌≤◌, refl, pos, true, false, none, some, List, [], ◌∷◌, ok, err, arith}
use lakta.Flags.{
  boolean, int, text, Definition, object, FlagValue, bad_rollout, to_bool, unsigned, minus, atoi,
  to_int, check_rollout, parse_flag_value, parse_snapshot, lookup, bucket, gate, bool_for, coerced,
  read_value, read, bool, string, integer,
}
use lakta.Flags.Rollout.{bool_for-grows}
use lakta.Flags.Reload.{FlagsModule, after_parse, init, swap, reload_with, on_reload, reload_all}

flags_program : Unit {0}
unfolding to_bool unsigned minus atoi to_int check_rollout parse_flag_value parse_snapshot lookup
    bucket gate bool_for
flags_program = tt

abbrev name : List ℕ
name = b'a' ∷ []

-- `{"value": "true", "rollout": "30"}`
abbrev raw : List (List ℕ × Definition)
raw =
    (name, object (some (text (b't' ∷ b'r' ∷ b'u' ∷ b'e' ∷ []))) (some (text (b'3' ∷ b'0' ∷ []))))
    ∷ []

abbrev flag : FlagValue
flag = record { value = text (b't' ∷ b'r' ∷ b'u' ∷ b'e' ∷ []); rollout = some (pos 30) }

abbrev wider : FlagValue
wider = record { value = boolean true; rollout = some (pos 100) }

parsed : parse_snapshot raw ≡ ok ((name, flag) ∷ [])
unfolding flags_program
parsed = refl

negative_rejected :
    parse_snapshot ((name, object (some (boolean true)) (some (text (b'-' ∷ b'1' ∷ [])))) ∷ [])
    ≡ err (bad_rollout name)
unfolding flags_program
negative_rejected = refl

found : lookup ((name, flag) ∷ []) name ≡ some flag
unfolding flags_program
found = refl

found_wider : lookup ((name, wider) ∷ []) name ≡ some wider
unfolding flags_program
found_wider = refl

on : to_bool flag.value ≡ some true
unfolding flags_program
on = refl

on_wider : to_bool wider.value ≡ some true
unfolding flags_program
on_wider = refl

-- The FNV-1a hash of the text `:`, by its last two decimal digits.
bucket-sample : bucket [] [] ≡ 89
unfolding flags_program
bucket-sample = refl

bool_for-grows_example :
    (30 ≤ 100)
    × (◌≡◌ {A = ℕ} 30 100 → bool_for ((name, flag) ∷ []) name [] false ≡ true)
    × (◌≡◌ {A = ℕ} 30 0 → bool_for ((name, flag) ∷ []) name [] false ≡ false)
    × (bool_for ((name, flag) ∷ []) name [] false ≡ true
        → bool_for ((name, wider) ∷ []) name [] true ≡ true)
bool_for-grows_example =
    bool_for-grows raw ((name, flag) ∷ []) ((name, wider) ∷ []) name [] false true flag wider 30 100
      parsed found on refl found_wider on_wider refl (omega arith)

abbrev new_module : FlagsModule
new_module = record { config = raw; flags = none }

-- `{"value": 1}`, and an object without a value
abbrev number : List (List ℕ × Definition)
number = (name, object (some (int (pos 1))) none) ∷ []

abbrev broken : List (List ℕ × Definition)
broken = (name, object none none) ∷ []

reloads_program : Unit {0}
unfolding flags_program after_parse init swap reload_with on_reload reload_all coerced read_value
    read bool string integer
reloads_program = tt

-- Neither a configuration that does not load nor one that does not parse takes the place of one that
-- does.
keeps_last :
    (reload_all (some number ∷ none ∷ some broken ∷ []) (init new_module).0).config ≡ number
unfolding reloads_program
keeps_last = refl

integer-read : integer ((name, flag) ∷ []) name (pos 7) ≡ pos 7
unfolding reloads_program
integer-read = refl
