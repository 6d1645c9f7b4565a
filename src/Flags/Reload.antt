-- ===== src/Flags/Reload.antt =====
-- `Init` and `OnReload` of pkg/features/flags/module.go. The field `Flags` of a configuration is the
-- list of its entries. What a configuration unmarshals to is a parameter: `none` if it does not.
pub mod Shown
pub mod Latest
use lakta.Prelude.{ℕ, Option, none, some, List, [], ◌∷◌, Result, ok, err}
use lakta.Flags.{Definition, FlagValue, FlagsError, parse_snapshot}

pub record FlagsModule : Type 0 where
  -- the definitions of the configuration
  pub config : List (List ℕ × Definition)
  -- the snapshot that the provided `Flags` points to, once it is made
  pub flags : Option (List (List ℕ × FlagValue))

abbrev pub Parsed : Type 0
Parsed = Result FlagsError (List (List ℕ × FlagValue))

unfoldable pub after_parse : Parsed → FlagsModule → FlagsModule × Option FlagsError
after_parse (err e) m = (m, some e)
after_parse (ok snap) m = (record m { flags = some snap }, none)

unfoldable pub init : FlagsModule → FlagsModule × Option FlagsError
unfolding after_parse parse_snapshot
init m = after_parse (parse_snapshot m.config) m

unfoldable pub swap : List (List ℕ × Definition) → Parsed → FlagsModule → FlagsModule
swap cfg (err e) m = m
swap cfg (ok snap) m = record { config = cfg; flags = some snap }

unfoldable pub reload_with :
    Option (List (List ℕ × FlagValue))
    → Option (List (List ℕ × Definition))
    → FlagsModule
    → FlagsModule
unfolding swap parse_snapshot
reload_with none loaded m = m
reload_with (some flags) none m = m
reload_with (some flags) (some cfg) m = swap cfg (parse_snapshot cfg) m

unfoldable pub on_reload : Option (List (List ℕ × Definition)) → FlagsModule → FlagsModule
unfolding reload_with
on_reload loaded m = reload_with m.flags loaded m

unfoldable pub reload_all : List (Option (List (List ℕ × Definition))) → FlagsModule → FlagsModule
unfolding on_reload
reload_all [] m = m
reload_all (loaded ∷ rest) m = reload_all rest (on_reload loaded m)
