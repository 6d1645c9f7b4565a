-- ===== src/LevelFilter/Tests.antt =====
-- The level filter on small inputs.
use lakta.Prelude.{ℕ, ◌≡◌, refl, pos, negsuc, true, none, List, [], ◌∷◌}
use lakta.LevelFilter.{
  LevelRule, LevelFilter, insert_rule, sort_rules, lowest, build_rules, first_match, match_level,
  extract_package_path, new_level_filter, update, resolved, resolve_level, enabled, handle,
}
use lakta.LevelFilter.Longest.{IsLongest, match_level-IsLongest}
use lakta.LevelFilter.Coherent.{
  IsCoherent, log, reconfigure, outcomes, expected, outcomes-eq-expected,
}

level_program : Unit {0}
unfolding insert_rule sort_rules lowest build_rules first_match match_level extract_package_path
    new_level_filter update resolved resolve_level enabled handle
level_program = tt

-- `a` at Debug and `a/b` at Error, over Info.
abbrev levels : List LevelRule
levels =
    record { prefix = b'a' ∷ []; level = negsuc 3 }
    ∷ record { prefix = b'a' ∷ b'/' ∷ b'b' ∷ []; level = pos 8 }
    ∷ []

-- a/b.(*T).M
abbrev func_name : List ℕ
func_name = b'a' ∷ b'/' ∷ b'b' ∷ b'.' ∷ b'(' ∷ b'*' ∷ b'T' ∷ b')' ∷ b'.' ∷ b'M' ∷ []

extract_package_path-sample : extract_package_path func_name ≡ b'a' ∷ b'/' ∷ b'b' ∷ []
unfolding level_program
extract_package_path-sample = refl

match_level-sample : match_level (build_rules (pos 0) levels) (b'a' ∷ b'/' ∷ b'b' ∷ []) ≡ pos 8
unfolding level_program
match_level-sample = refl

match_level-IsLongest_example :
    IsLongest (pos 0) levels (b'a' ∷ []) (match_level (build_rules (pos 0) levels) (b'a' ∷ []))
match_level-IsLongest_example = match_level-IsLongest (pos 0) levels (b'a' ∷ [])

outcomes-eq-expected_example :
    outcomes
      (log none (pos 4) func_name ∷ reconfigure (pos 0) [] ∷ log none (pos 4) func_name ∷ [])
      (new_level_filter (pos 0) levels)
    ≡ expected
        (log none (pos 4) func_name ∷ reconfigure (pos 0) [] ∷ log none (pos 4) func_name ∷ [])
        (build_rules (pos 0) levels)
outcomes-eq-expected_example =
    outcomes-eq-expected (pos 0) levels
      (log none (pos 4) func_name ∷ reconfigure (pos 0) [] ∷ log none (pos 4) func_name ∷ [])

abbrev filter : LevelFilter
filter = record { state = build_rules (pos 0) levels; cache = [] }

filter-IsCoherent : IsCoherent filter
filter-IsCoherent name level h = absurd (cc h)

passed : (handle none (pos 8) func_name filter).0 ≡ true
unfolding level_program
passed = refl
