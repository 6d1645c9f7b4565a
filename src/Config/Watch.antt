-- ===== src/Config/Watch.antt =====
-- `startWatcher` and `watchLoop` of pkg/config/watcher.go. The loop is fed by a sequence of events,
-- each with the time at which it is taken; a timer that is due by then has fired before. The file
-- system watcher and the timers are the environment's.
pub mod Debounce
use lakta.Prelude.{
  ℕ, zero, suc, ◌+◌, ◌≤◌, Bool, true, false, Option, none, some, List, [], ◌∷◌, ◌++◌, leb, ◌||◌,
  if◌then◌else◌,
}

pub data Event : Type 0 where
  -- which of `Write` and `Create` the event has
  changed : (write create : Bool) → Event
  watch_error : Event
  -- a closed channel, or the context's end
  closed done : Event

pub record Watcher : Type 0 where
  -- when the pending timer fires
  pub debounce : Option ℕ
  -- at which times `reload` was called
  pub reloads : List ℕ
  pub running : Bool

abbrev pub fresh : Watcher
fresh = record { debounce = none; reloads = []; running = true }

-- A timer that is due by `now` calls `reload`, in its own goroutine: after the loop has ended too.
unfoldable pub fire_at : ℕ → Option ℕ → Watcher → Watcher
fire_at now none w = w
fire_at now (some due) w =
    if leb due now then record w { debounce = none; reloads = w.reloads ++ due ∷ [] } else w

unfoldable pub fire : ℕ → Watcher → Watcher
unfolding fire_at
fire now w = fire_at now w.debounce w

unfoldable pub handle : ℕ → ℕ → Event → Watcher → Watcher
handle delay now (changed write create) w =
    if write || create then record w { debounce = some (now + delay) } else w
handle delay now watch_error w = w
handle delay now closed w = record w { running = false }
handle delay now done w = record w { debounce = none; running = false }

unfoldable pub step : ℕ → ℕ → Event → Watcher → Watcher
unfolding fire handle
step delay now e w = let w' = fire now w in if w'.running then handle delay now e w' else w'

unfoldable pub watch_loop : ℕ → List (ℕ × Event) → Watcher → Watcher
watch_loop delay [] w = w
watch_loop delay ((now, e) ∷ events) w = watch_loop delay events (step delay now e w)
