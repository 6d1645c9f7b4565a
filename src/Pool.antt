-- ===== src/Pool.antt =====
-- pkg/workers/pool/pool.go: a bounded worker pool, as a machine that takes one event at a time: a
-- step of one goroutine. A task is a number. An event that cannot take place in a state yields
-- `none`. What a task does inside `execute` ends without effect on the pool, panics included.
pub mod Moves
pub mod Order
pub mod Opening
pub mod Drained
pub mod Progress
pub mod Stranded
mod Tests
use lakta.Prelude.{
  ℕ, zero, suc, ◌+◌, ◌<◌, Bool, true, false, ◌&&◌, Option, none, some, List, [], ◌∷◌, ◌++◌, length,
  get_elem?, set, ltb, if◌then◌else◌,
}

-- Where a goroutine of `work` stands: in the outer select, or in the inner one after the stop
-- signal, each with or without a task that it executes.
pub data Worker : Type 0 where
  idle draining exited : Worker
  running drain_running : ℕ → Worker

pub record Pool : Type 0 where
  -- `cap(queue)`, zero for a direct handoff
  pub capacity : ℕ
  pub queue : List ℕ
  pub closed : Bool
  -- whether `stop` is closed
  pub stop : Bool
  pub workers : List Worker
  -- submitters behind the check of `closed` in `enqueue`, with their tasks
  pub waiting : List ℕ
  -- the outcomes so far: `nil` was returned, an error was, and which tasks were taken up and ended
  pub accepted : List ℕ
  pub refused : List ℕ
  pub started : List ℕ
  pub executed : List ℕ

pub data Event : Type 0 where
  -- a submitter of a task reads `closed`
  submit : ℕ → Event
  -- the waiting submitter's select: room in the queue, a worker that receives, `stop`, its context
  enqueue stopped cancelled : ℕ → Event
  hand_over : (submitter worker : ℕ) → Event
  -- a worker receives from the queue, ends a task, sees `stop`, or finds the queue empty
  take finish see_stop exit : ℕ → Event
  -- the two steps of `beginClose`
  mark_closed close_stop : Event

-- `Workers` of the configuration, the number of processors if it is not positive.
abbrev pub idle_workers : ℕ → List Worker
idle_workers zero = []
idle_workers (suc n) = idle ∷ idle_workers n

unfoldable pub new : (workers num_cpu : ℕ) → (queue_size : Option ℕ) → Pool
new workers num_cpu queue_size = record {
  capacity = elim queue_size [ none ↦ 1024 | some n ↦ n ];
  queue = [];
  closed = false;
  stop = false;
  workers = idle_workers (elim workers [ zero ↦ num_cpu | suc n ↦ suc n ]);
  waiting = [];
  accepted = [];
  refused = [];
  started = [];
  executed = [];
}

abbrev pub remove_at : List ℕ → ℕ → List ℕ
remove_at [] i = []
remove_at (x ∷ xs) zero = xs
remove_at (x ∷ xs) (suc i) = x ∷ remove_at xs i

unfoldable pub submit_task : ℕ → Pool → Pool
submit_task t p =
    if p.closed
    then record p { refused = p.refused ++ t ∷ [] }
    else record p { waiting = t ∷ p.waiting }

-- The waiting submitter at a place returns an error.
unfoldable pub refuse : ℕ → Pool → Option Pool
refuse i p = elim (get_elem? p.waiting i) [
  | none ↦ none
  | some t ↦ some (record p { waiting = remove_at p.waiting i; refused = p.refused ++ t ∷ [] })
]

unfoldable pub enqueue_at : ℕ → Pool → Option Pool
enqueue_at i p = elim (get_elem? p.waiting i) [
  | none ↦ none
  | some t ↦
      if ltb (length p.queue) p.capacity
      then some (record p {
        waiting = remove_at p.waiting i;
        queue = p.queue ++ t ∷ [];
        accepted = p.accepted ++ t ∷ [];
      })
      else none
]

-- Whether a worker is in a select that receives, and what it is while it executes a task.
unfoldable pub receiving : Worker → Option (ℕ → Worker)
receiving idle = some running
receiving draining = some drain_running
receiving w = none

abbrev pub receiving_at : List Worker → ℕ → Option (ℕ → Worker)
receiving_at ws j = elim (get_elem? ws j) [ none ↦ none | some w ↦ receiving w ]

-- A send meets a receiver: only on an empty queue, since a receiver takes what is queued first.
unfoldable pub hand_to : List ℕ → (ℕ → Worker) → (submitter worker : ℕ) → Pool → Option Pool
hand_to (q ∷ qs) busy i j p = none
hand_to [] busy i j p = elim (get_elem? p.waiting i) [
  | none ↦ none
  | some t ↦ some (record p {
    waiting = remove_at p.waiting i;
    accepted = p.accepted ++ t ∷ [];
    started = p.started ++ t ∷ [];
    workers = set p.workers j (busy t);
  })
]

unfoldable pub take_from : List ℕ → (ℕ → Worker) → ℕ → Pool → Option Pool
take_from [] busy j p = none
take_from (t ∷ q) busy j p =
    some (record p { queue = q; started = p.started ++ t ∷ []; workers = set p.workers j (busy t) })

-- `execute` returns, and the loop goes on where it was.
unfoldable pub finish_as : Worker → ℕ → Pool → Option Pool
finish_as (running t) j p =
    some (record p { executed = p.executed ++ t ∷ []; workers = set p.workers j idle })
finish_as (drain_running t) j p =
    some (record p { executed = p.executed ++ t ∷ []; workers = set p.workers j draining })
finish_as w j p = none

-- `case <-p.stop` of the outer select
unfoldable pub stop_as : Worker → ℕ → Pool → Option Pool
stop_as idle j p = if p.stop then some (record p { workers = set p.workers j draining }) else none
stop_as w j p = none

-- `default` of the inner select
unfoldable pub exit_as : Worker → List ℕ → ℕ → Pool → Option Pool
exit_as draining [] j p = some (record p { workers = set p.workers j exited })
exit_as w q j p = none

abbrev pub on_worker : (Worker → ℕ → Pool → Option Pool) → ℕ → Pool → Option Pool
on_worker f j p = elim (get_elem? p.workers j) [ none ↦ none | some w ↦ f w j p ]

unfoldable pub step : Event → Pool → Option Pool
unfolding submit_task refuse enqueue_at receiving hand_to take_from finish_as stop_as exit_as
step (submit t) p = some (submit_task t p)
step (enqueue i) p = enqueue_at i p
step (hand_over i j) p = elim (receiving_at p.workers j) [
  | none ↦ none
  | some busy ↦ hand_to p.queue busy i j p
]
step (stopped i) p = if p.stop then refuse i p else none
step (cancelled i) p = refuse i p
step (take j) p = elim (receiving_at p.workers j) [
  | none ↦ none
  | some busy ↦ take_from p.queue busy j p
]
step (finish j) p = on_worker finish_as j p
step (see_stop j) p = on_worker stop_as j p
step (exit j) p = on_worker (λ w. exit_as w p.queue) j p
step mark_closed p = some (record p { closed = true })
step close_stop p = if p.closed then some (record p { stop = true }) else none

unfoldable pub run : List Event → Pool → Option Pool
unfolding step
run [] p = some p
run (e ∷ es) p = elim (step e p) [ none ↦ none | some p' ↦ run es p' ]

-- `done` is closed once every worker has returned.
unfoldable pub all_exited : List Worker → Bool
all_exited [] = true
all_exited (exited ∷ ws) = all_exited ws
all_exited (w ∷ ws) = false
