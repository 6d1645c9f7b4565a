-- ===== src/Bus.antt =====
-- pkg/events/bus/bus.go as a machine: an event of the machine is a case of a `select`, or what is done
-- under one lock. A topic is the number of a Go type, and an event of the bus carries its topic. A
-- handler runs in one step: what it returns is a parameter, and a panic is among its errors.
pub mod Delivered
pub mod Runs
pub mod Joined
mod Tests
use lakta.Prelude.{
  ℕ, suc, Bool, true, false, not, ◌&&◌, Option, none, some, List, [], ◌∷◌, ◌++◌, get, put, length,
  ltb, nat_eqb, nat_keyed, if◌then◌else◌,
}

pub record BusEvent : Type 0 where
  pub topic : ℕ
  pub payload : ℕ

-- The goroutine of an async subscription; a sync one has none.
pub data Worker : Type 0 where
  no_worker receiving draining returned : Worker

pub record Subscription : Type 0 where
  pub topic : ℕ
  pub worker : Worker
  pub queue : List BusEvent
  pub stop : Bool
  -- kept for the theorems: what was handed over, what was invoked, and what came after the worker had
  -- returned
  pub accepted : List BusEvent
  pub invoked : List BusEvent
  pub late : List BusEvent

-- A Publish between its look at the subscribers and its return.
pub record Publishing : Type 0 where
  pub event : BusEvent
  pub rest : List ℕ
  -- the subscriptions whose handler failed, or whose queue the context did not let wait for
  pub errors : List ℕ

pub record Bus : Type 0 where
  pub buffer_size : ℕ
  pub closed : Bool
  pub listed : List (ℕ × List ℕ)
  pub subs : List (ℕ × Subscription)
  pub created : ℕ
  pub publishing : List (ℕ × Publishing)
  pub calls : ℕ

unfoldable pub new_bus : ℕ → Bus
new_bus buffer_size = record {
  buffer_size = if nat_eqb buffer_size 0 then 1024 else buffer_size;
  closed = false;
  listed = [];
  subs = [];
  created = 0;
  publishing = [];
  calls = 0;
}

pub data Event : Type 0 where
  -- Subscribe and SubscribeAsync; the removal of an unsubscribe, and its signal
  subscribe subscribe_async remove signal : ℕ → Event
  -- the start of a Publish, and the cases of its loop
  publish : BusEvent → Event
  invoke enqueue skip give_up : ℕ → Event
  -- the cases of a worker
  receive notice drain exit : ℕ → Event
  -- the part of Close that is under the lock
  close : Event

abbrev pub ids : Option (List ℕ) → List ℕ
ids none = []
ids (some l) = l

abbrev pub without : ℕ → List ℕ → List ℕ
without j [] = []
without j (k ∷ l) = let rest = without j l in if nat_eqb k j then rest else k ∷ rest

unfoldable pub add : ℕ → Worker → Bus → Bus
add topic w b = record b {
  listed = put b.listed topic (ids (get b.listed topic) ++ b.created ∷ []);
  subs = put b.subs b.created (record {
    topic = topic;
    worker = w;
    queue = [];
    stop = false;
    accepted = [];
    invoked = [];
    late = [];
  });
  created = suc b.created;
}

unfoldable pub remove_from : ℕ → Option Subscription → Bus → Option Bus
remove_from j none b = none
remove_from j (some s) b =
    some (record b { listed = put b.listed s.topic (without j (ids (get b.listed s.topic))) })

unfoldable pub set_stop : ℕ → Option Subscription → Bus → Option Bus
set_stop j none b = none
set_stop j (some s) b = some (record b { subs = put b.subs j (record s { stop = true }) })

unfoldable pub begin_publish : BusEvent → Bus → Option Bus
begin_publish e b =
    if b.closed
    then none
    else some (record b {
      publishing =
          put b.publishing b.calls
            (record { event = e; rest = ids (get b.listed e.topic); errors = [] });
      calls = suc b.calls;
    })

-- What a subscription makes of an event that its publisher hands to it, if it is ready for that.
unfoldable pub invoke_sync : BusEvent → Subscription → Worker → Option Subscription
invoke_sync e s no_worker =
    some (record s { accepted = s.accepted ++ e ∷ []; invoked = s.invoked ++ e ∷ [] })
invoke_sync e s w = none

-- A place in the buffer is free, or there is none.
abbrev pub if_room : ℕ → List BusEvent → Subscription → Option Subscription
if_room size queue s = if ltb (length queue) size then some s else none

unfoldable pub enqueue_async : ℕ → BusEvent → Subscription → Worker → Option Subscription
enqueue_async size e s no_worker = none
enqueue_async size e s returned = if_room size s.queue (record s {
  accepted = s.accepted ++ e ∷ [];
  queue = s.queue ++ e ∷ [];
  late = s.late ++ e ∷ [];
})
enqueue_async size e s w =
    if_room size s.queue (record s { accepted = s.accepted ++ e ∷ []; queue = s.queue ++ e ∷ [] })

unfoldable pub skip_stopped : Subscription → Worker → Option Subscription
skip_stopped s no_worker = none
skip_stopped s w = if s.stop then some s else none

unfoldable pub ctx_done : Subscription → Worker → Option Subscription
ctx_done s no_worker = none
ctx_done s w = some s

-- The steps of a worker.
unfoldable pub take_from : Subscription → Worker → List BusEvent → Worker → Option Subscription
take_from s receiving (e ∷ queue) receiving =
    some (record s { queue = queue; invoked = s.invoked ++ e ∷ [] })
take_from s draining (e ∷ queue) draining =
    some (record s { queue = queue; invoked = s.invoked ++ e ∷ [] })
take_from s w queue w' = none

unfoldable pub see_stop : Subscription → Worker → Option Subscription
see_stop s receiving = if s.stop then some (record s { worker = draining }) else none
see_stop s w = none

unfoldable pub return_from : Subscription → Worker → List BusEvent → Option Subscription
return_from s draining [] = some (record s { worker = returned })
return_from s w queue = none

-- A subscription has moved.
abbrev pub moved : ℕ → Option Subscription → Bus → Option Bus
moved j none b = none
moved j (some s) b = some (record b { subs = put b.subs j s })

unfoldable pub on_sub :
    (Subscription → Option Subscription) → ℕ → Option Subscription → Bus → Option Bus
on_sub act j none b = none
on_sub act j (some s) b = moved j (act s) b

-- A publisher has dealt with the first of its subscriptions.
abbrev pub passed : ℕ → Publishing → List ℕ → List ℕ → Option Bus → Option Bus
passed i p rest errors none = none
passed i p rest errors (some b) =
    some (record b { publishing = put b.publishing i (record p { rest = rest; errors = errors }) })

unfoldable pub on_first :
    (BusEvent → Subscription → Option Subscription)
    → (BusEvent → ℕ → Bool)
    → ℕ
    → Publishing
    → List ℕ
    → Bus
    → Option Bus
unfolding on_sub
on_first act fails i p [] b = none
on_first act fails i p (j ∷ rest) b =
    passed i p rest (if fails p.event j then p.errors ++ j ∷ [] else p.errors)
      (on_sub (act p.event) j (get b.subs j) b)

unfoldable pub on_publisher :
    (BusEvent → Subscription → Option Subscription)
    → (BusEvent → ℕ → Bool)
    → ℕ
    → Option Publishing
    → Bus
    → Option Bus
unfolding on_first
on_publisher act fails i none b = none
on_publisher act fails i (some p) b = on_first act fails i p p.rest b

module _ (handler_fails : BusEvent → ℕ → Bool) where
  unfoldable pub step : Event → Bus → Option Bus
  unfolding add remove_from set_stop begin_publish invoke_sync enqueue_async skip_stopped ctx_done
      take_from see_stop return_from on_sub on_publisher
  step (subscribe topic) b = some (add topic no_worker b)
  step (subscribe_async topic) b = some (add topic receiving b)
  step (remove j) b = remove_from j (get b.subs j) b
  step (signal j) b = set_stop j (get b.subs j) b
  step (publish e) b = begin_publish e b
  step (invoke i) b =
      on_publisher (λ e s. invoke_sync e s s.worker) handler_fails i (get b.publishing i) b
  step (enqueue i) b =
      on_publisher (λ e s. enqueue_async b.buffer_size e s s.worker) (λ e j. false) i
        (get b.publishing i) b
  step (skip i) b =
      on_publisher (λ e s. skip_stopped s s.worker) (λ e j. false) i (get b.publishing i) b
  step (give_up i) b =
      on_publisher (λ e s. ctx_done s s.worker) (λ e j. true) i (get b.publishing i) b
  step (receive j) b = on_sub (λ s. take_from s s.worker s.queue receiving) j (get b.subs j) b
  step (notice j) b = on_sub (λ s. see_stop s s.worker) j (get b.subs j) b
  step (drain j) b = on_sub (λ s. take_from s s.worker s.queue draining) j (get b.subs j) b
  step (exit j) b = on_sub (λ s. return_from s s.worker s.queue) j (get b.subs j) b
  step close b = if b.closed then none else some (record b { closed = true; listed = [] })

  -- `none` where an event could not happen.
  unfoldable pub run : List Event → Bus → Option Bus
  unfolding step
  run [] b = some b
  run (e ∷ es) b = elim (step e b) [ none ↦ none | some b' ↦ run es b' ]
