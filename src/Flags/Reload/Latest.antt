-- ===== src/Flags/Reload/Latest.antt =====
-- What is read from the flags after reloads (pkg/features/flags/module.go).
use lakta.Prelude.{ℕ, Bool, true, false, Option, none, some, List, [], ◌∷◌, bytes_keyed}
use lakta.Flags.{Definition}
use lakta.Flags.Reload.Shown.{accepts}

abbrev pub newer : Bool → (new old : List (List ℕ × Definition)) → List (List ℕ × Definition)
newer true new old = new
newer false new old = old

-- The last configuration that loaded and is in order.
abbrev pub latest :
    List (List ℕ × Definition)
    → List (Option (List (List ℕ × Definition)))
    → List (List ℕ × Definition)
latest cfg [] = cfg
latest cfg (none ∷ rest) = latest cfg rest
latest cfg (some new ∷ rest) = latest (newer (accepts new) new cfg) rest
