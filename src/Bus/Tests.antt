-- ===== src/Bus/Tests.antt =====
-- Runs of a bus, and the theorems at them.
use lakta.Prelude.{
  ℕ, ◌≡◌, refl, Bool, true, false, some, List, [], ◌∷◌, ◌++◌, get, nat_keyed, nat_eqb,
}
use lakta.Bus.{
  BusEvent, Subscription, Bus, Event, subscribe_async, signal, publish, enqueue, receive, notice,
  exit, close, no_worker, receiving, returned, new_bus, run,
}
use lakta.Bus.Delivered.{InOrder}
use lakta.Bus.Runs.{run-InOrder}
use lakta.Bus.Joined.{failing, invokes, publish-failing}

abbrev paid : BusEvent
paid = record { topic = 1; payload = 7 }

-- The handler of the first subscription fails.
abbrev first_fails : BusEvent → ℕ → Bool
first_fails e j = nat_eqb j 0

abbrev history : List Event
history = subscribe_async 1 ∷ publish paid ∷ close ∷ signal 0 ∷ notice 0 ∷ exit 0 ∷ enqueue 0 ∷ []

abbrev stranded : Subscription
stranded = record {
  topic = 1;
  worker = returned;
  queue = paid ∷ [];
  stop = true;
  accepted = paid ∷ [];
  invoked = [];
  late = paid ∷ [];
}

abbrev end : Bus
end = record {
  buffer_size = 4;
  closed = true;
  listed = [];
  subs = (0, stranded) ∷ [];
  created = 1;
  publishing = (0, record { event = paid; rest = []; errors = [] }) ∷ [];
  calls = 1;
}

-- A Publish that has looked at the subscribers before a Close can enqueue after the drain.
stranded-run : run first_fails history (new_bus 4) ≡ some end
unfolding run new_bus
stranded-run = refl

run-InOrder_example : InOrder 4 stranded
run-InOrder_example = run-InOrder first_fails 4 history end stranded-run 0 stranded refl

abbrev called : Subscription
called = record {
  topic = 1;
  worker = receiving;
  queue = [];
  stop = false;
  accepted = paid ∷ [];
  invoked = paid ∷ [];
  late = [];
}

delivered :
    run first_fails (subscribe_async 1 ∷ publish paid ∷ enqueue 0 ∷ receive 0 ∷ []) (new_bus 4)
    ≡ some (record end { closed = false; listed = (1, 0 ∷ []) ∷ []; subs = (0, called) ∷ [] })
unfolding run new_bus
delivered = refl

abbrev listener : Subscription
listener = record called { worker = no_worker; accepted = []; invoked = [] }

-- Two sync subscriptions, and a Publish that has not called them yet.
abbrev ready : Bus
ready = record end {
  subs = (0, listener) ∷ (1, listener) ∷ [];
  publishing = (0, record { event = paid; rest = 0 ∷ 1 ∷ []; errors = [] }) ∷ [];
}

publish-failing_example :
    (b' : Bus) × (run first_fails (invokes 0 (0 ∷ 1 ∷ [])) ready ≡ some b')
    × (get b'.publishing 0
        ≡ some (record {
          event = paid;
          rest = [];
          errors = [] ++ failing first_fails paid (0 ∷ 1 ∷ []);
        }))
publish-failing_example =
    publish-failing first_fails (0 ∷ 1 ∷ []) ready 0 paid [] refl
      ((listener, refl, refl), ((listener, refl, refl), tt))
