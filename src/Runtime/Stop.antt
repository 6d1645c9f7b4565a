-- ===== src/Runtime/Stop.antt =====
-- `safeCall`, `shutdownContext`, `shutdownModule`, `teardown` and `shutdown` of
-- pkg/lakta/runtime.go. Time is a clock in nanoseconds. A `select` between a module's answer and
-- the deadline takes what comes first, and at the same instant either.
pub mod Calls
pub mod Bounded
use lakta.Prelude.{
  ℕ, suc, ◌+◌, String, Option, none, some, List, [], ◌∷◌, ◌++◌, ltb, leb, nat_keyed, ◌==◌, ◌&&◌,
  ◌||◌, if◌then◌else◌,
}
use lakta.Runtime.Module.{Module, Outcome, returned, panicked, Stopping}
use lakta.Runtime.Info.{RuntimeInfo, ModuleState, stopped, set_state}

-- An error as the runtime builds it: a module's own, one made of a panic, the context's, or one
-- that wraps another with a message and the module's name.
pub data Error : Type 0 where
  own : String → Error
  panic : String → Error
  panic_during_shutdown : String → Error
  deadline_exceeded : Error
  wrapped : String → String → Error → Error

-- The calls that the runtime makes, with the module's place in the sorted order.
pub data Event : Type 0 where
  load_config init_call shutdown_call start_call start_async_call : ℕ → Event

pub record Run : Type 0 where
  pub infos : RuntimeInfo
  pub clock : ℕ
  pub log : List Event

abbrev pub emit : Event → Run → Run
emit e r = record r { log = r.log ++ e ∷ [] }

abbrev pub mark : ℕ → ModuleState → Run → Run
mark order s r = record r { infos = set_state order s r.infos }

abbrev own_error : Option String → Option Error
own_error none = none
own_error (some e) = some (own e)

-- `safeCall`: a panic becomes an error.
unfoldable pub safe_call : Outcome → Option Error
safe_call (returned e) = own_error e
safe_call (panicked p) = some (panic p)

unfoldable pub safe_shutdown : Outcome → Option Error
safe_shutdown (returned e) = own_error e
safe_shutdown (panicked p) = some (panic_during_shutdown p)

abbrev pub default_shutdown_timeout : ℕ
default_shutdown_timeout = 30000000000

-- The deadline of a fresh context, made at the given time.
unfoldable pub shutdown_context : ℕ → ℕ
shutdown_context now = now + default_shutdown_timeout

abbrev timed_out : Option Error
timed_out = some (wrapped "shutdown deadline exceeded" "" deadline_exceeded)

-- The answer and the time at which it is there.
unfoldable pub answer : ℕ → ℕ → Stopping → Option ℕ → Option Error × ℕ
unfolding safe_shutdown
answer deadline now s none = (timed_out, deadline)
answer deadline now s (some d) =
    if ltb (now + d) deadline || (now + d == deadline && s.picked)
    then (safe_shutdown s.outcome, now + d)
    else (timed_out, deadline)

unfoldable pub shutdown_module : ℕ → ℕ → Module → Run → Option Error × Run
unfolding answer
shutdown_module deadline order m r =
    let done = answer deadline r.clock m.shutdown m.shutdown.duration in
    (done.0, record (emit (shutdown_call order) r) { clock = done.1 })

unfoldable pub after_teardown : ℕ → Option Error × Run → Run
after_teardown order (none, r) = mark order stopped r
after_teardown order (some e, r) = r

-- One round of `teardown`: errors are logged only.
unfoldable pub teardown_one : ℕ → ℕ → Module → Run → Run
unfolding after_teardown shutdown_module
teardown_one deadline order m r =
    if leb deadline r.clock then r else after_teardown order (shutdown_module deadline order m r)

-- `slices.Backward`: the rounds of the later modules come first.
unfoldable pub teardown_from : ℕ → ℕ → List Module → Run → Run
teardown_from deadline order [] r = r
teardown_from deadline order (m ∷ ms) r =
    teardown_one deadline order m (teardown_from deadline (suc order) ms r)

unfoldable pub teardown : List Module → Run → Run
unfolding shutdown_context teardown_from teardown_one
teardown initialized r = teardown_from (shutdown_context r.clock) 0 initialized r

abbrev pub first : Option Error → Error → Option Error
first none e = some e
first (some e') e = some e'

abbrev pub Stop : Type 0
Stop = Run × Option Error

unfoldable pub after_shutdown : ℕ → String → Option Error → Option Error × Run → Stop
after_shutdown order name first_err (none, r) = (mark order stopped r, first_err)
after_shutdown order name first_err (some e, r) =
    (r, first first_err (wrapped "failed shutting down module" name e))

unfoldable pub shutdown_one : ℕ → ℕ → Module → Stop → Stop
unfolding after_shutdown shutdown_module
shutdown_one deadline order m (r, first_err) =
    if leb deadline r.clock
    then (r, first first_err (wrapped "shutdown deadline exceeded" m.type_name deadline_exceeded))
    else after_shutdown order m.type_name first_err (shutdown_module deadline order m r)

unfoldable pub shutdown_from : ℕ → ℕ → List Module → Stop → Stop
shutdown_from deadline order [] s = s
shutdown_from deadline order (m ∷ ms) s =
    shutdown_one deadline order m (shutdown_from deadline (suc order) ms s)

-- `shutdown` under the context with the given deadline.
unfoldable pub shutdown : ℕ → List Module → Run → Stop
unfolding shutdown_from shutdown_one
shutdown deadline initialized r = shutdown_from deadline 0 initialized (r, none)
