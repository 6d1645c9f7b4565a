-- ===== src/Config/Watch/Debounce.antt =====
-- A burst of changes is one reload.
use lakta.Prelude.{
  ℕ, ◌+◌, ◌≤◌, ◌<◌, ◌≡◌, refl, true, false, some, List, [], ◌∷◌, arith, leb, if◌then◌else◌,
}
use lakta.Config.Watch.{Event, changed, done, Watcher, fresh, fire, step, watch_loop}

-- Changes at rising times, each less than `delay` after the one before, the first after `last`.
abbrev pub IsBurst : ℕ → ℕ → List ℕ → Type 0
IsBurst delay last [] = Unit {0}
IsBurst delay last (t ∷ ts) = (last ≤ t) × (t < last + delay) × IsBurst delay t ts

abbrev pub burst : List ℕ → List (ℕ × Event)
burst [] = []
burst (t ∷ ts) = (t, changed true false) ∷ burst ts

abbrev pub last_of : ℕ → List ℕ → ℕ
last_of last [] = last
last_of last (t ∷ ts) = last_of t ts

step_pending :
    (delay last t : ℕ) (w : Watcher)
    → w.debounce ≡ some (last + delay)
    → w.running ≡ true
    → t < last + delay
    → step delay t (changed true false) w ≡ record w { debounce = some (t + delay) }
unfolding step
step_pending delay last t w d r l = ground arith

burst_pending :
    (delay last : ℕ) (ts : List ℕ) (w : Watcher)
    → IsBurst delay last ts
    → w.debounce ≡ some (last + delay)
    → w.running ≡ true
    → watch_loop delay (burst ts) w ≡ record w { debounce = some (last_of last ts + delay) }
unfolding watch_loop
burst_pending delay last [] w h d r = ground arith
burst_pending delay last (t ∷ ts) w (low, high, h) d r =
    rw (step_pending delay last t w d r high, watch_loop)
      (burst_pending delay t ts (record w { debounce = some (t + delay) }) h refl r)

-- A burst of changes, each within the delay of the one before, causes exactly one reload, one delay
-- after its last change, and none before that. If the context ends at some time, then there is the
-- reload that was due by then, and no reload later.
pub watch_loop-burst :
    (delay start : ℕ) (ts : List ℕ) (until later : ℕ)
    → 0 < delay
    → IsBurst delay start ts
    → ((fire until (watch_loop delay (burst (start ∷ ts)) fresh)).reloads
        ≡ (if leb (last_of start ts + delay) until then (last_of start ts + delay) ∷ [] else []))
      × ((fire later (step delay until done (watch_loop delay (burst (start ∷ ts)) fresh))).reloads
          ≡ (if leb (last_of start ts + delay) until then (last_of start ts + delay) ∷ [] else []))
unfolding watch_loop step fire
watch_loop-burst delay start ts until later pos h =
    let at_end =
      burst_pending delay start ts
        (record { debounce = some (start + delay); reloads = []; running = true }) h refl refl in
    (rw (at_end, watch_loop) (ground arith), rw (at_end, watch_loop) (ground arith))
