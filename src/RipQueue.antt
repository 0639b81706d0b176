-- ===== src/RipQueue.antt =====
-- crates/engine/src/queue.rs: the sequential rip queue. The state behind the mutex is `Queue`; each
-- section of code that holds the lock is one function of it, and what the section goes on to do
-- outside the lock (callbacks, cancellations, sends on a completion channel) is the list of effects
-- that it returns. Workers and callers interleave by `step`. The callbacks of positions and starts
-- are taken to return: one that panics in `run_worker` would end the worker, outside `catch_unwind`.

pub mod Invariant
pub mod Delivery
pub mod Order
pub mod Positions
pub mod Drain
use alac_bot.Prelude.{
  ℕ, zero, suc, ◌+◌, ◌%◌, ◌^◌, Bool, true, false, not, ◌&&◌, Option, none, some, List, [], ◌∷◌,
  ◌++◌, length, drop, ◌==◌, if◌then◌else◌,
}
use alac_bot.Prelude.Text.{Text, codes}

pub data QueueError : Type 0 where
  aborted cleared : QueueError
  task : Text → QueueError

-- `TaskResult`; a boxed value is named by a number.
pub data TaskResult : Type 0 where
  value : ℕ → TaskResult
  error : QueueError → TaskResult

-- The payload of a panic, by what it can be downcast to.
pub data Panic : Type 0 where
  string_payload str_payload : Text → Panic
  other_payload : Panic

-- How the task's future ends under `catch_unwind`.
pub data TaskEnd : Type 0 where
  returned : ℕ → TaskEnd
  panicked : Panic → TaskEnd

-- `signal` is the caller's token, if there is one, and whether it is cancelled already.
pub record EnqueueOptions : Type 0 where
  pub on_position_change : Bool
  pub on_start : Bool
  pub signal : Option Bool

-- The task, the child token, the channel and the watcher of an item are named by its id.
pub record QueuedItem : Type 0 where
  pub id : ℕ
  pub on_position_change : Bool
  pub on_start : Bool

pub record Queue : Type 0 where
  pub pending : List QueuedItem
  pub active : Option ℕ
  pub processing : Bool
  pub next_id : ℕ

pub data Effect : Type 0 where
  -- the position callback of an item, with the position
  position : ℕ → ℕ → Effect
  -- the start callback
  start : ℕ → Effect
  -- the task is called
  run_task : ℕ → Effect
  cancel_child stop_watcher spawn_watcher : ℕ → Effect
  complete : ℕ → TaskResult → Effect
  -- the fresh channel of a submission whose signal is cancelled receives `Aborted`
  reject spawn_worker : Effect

unfoldable pub new : Queue
new = record { pending = []; active = none; processing = false; next_id = 1 }

unfoldable pub get_pending_count : Queue → ℕ
get_pending_count q = length q.pending

unfoldable pub is_processing : Queue → Bool
is_processing q = q.processing

abbrev pub u64_mod : ℕ
u64_mod = 2 ^ 64

abbrev pub is_cancelled : Option Bool → Bool
is_cancelled none = false
is_cancelled (some b) = b

abbrev pub is_some {ℓ} : {A : Type ℓ} → Option A → Bool
is_some none = false
is_some (some _) = true

abbrev pub when : Bool → Effect → List Effect
when b e = if b then e ∷ [] else []

-- The callbacks of the items that wait, numbered from `n`; an item without one is passed over.
unfoldable pub callbacks : ℕ → List QueuedItem → List Effect
callbacks n [] = []
callbacks n (item ∷ rest) =
    when item.on_position_change (position item.id n) ++ callbacks (n + 1) rest

abbrev pub new_item : EnqueueOptions → ℕ → QueuedItem
new_item o id = record { id = id; on_position_change = o.on_position_change; on_start = o.on_start }

-- `submit` returns whether the item was enqueued too.
unfoldable pub submit : EnqueueOptions → Queue → Queue × Bool × List Effect
submit o q = if is_cancelled o.signal then (q, false, reject ∷ []) else (
  record q {
    pending = q.pending ++ new_item o q.next_id ∷ [];
    processing = true;
    next_id = (q.next_id + 1) % u64_mod;
  },
  true,
  when (q.processing && o.on_position_change) (position q.next_id (length q.pending + 1))
      ++ when (is_some o.signal) (spawn_watcher q.next_id)
      ++ when (not q.processing) spawn_worker,
)

-- `pending.iter().position(|item| item.id == id)`
unfoldable pub index_of : ℕ → List QueuedItem → Option ℕ
index_of id [] = none
index_of id (item ∷ rest) =
    if item.id == id
    then some 0
    else elim (index_of id rest) [ none ↦ none | some i ↦ some (suc i) ]

-- `VecDeque::remove`
unfoldable pub remove_at : ℕ → List QueuedItem → List QueuedItem
remove_at i [] = []
remove_at zero (item ∷ rest) = rest
remove_at (suc i) (item ∷ rest) = item ∷ remove_at i rest

-- `abort_item`: the first section, and what follows where the item was still waiting.
unfoldable pub abort_pending : ℕ → Queue → Queue × List Effect
abort_pending id q = elim (index_of id q.pending) [
  | none ↦ (q, [])
  | some index ↦ (
    record q { pending = remove_at index q.pending },
    stop_watcher id
        ∷ cancel_child id
        ∷ complete id (error aborted)
        ∷ callbacks (index + 1) (drop index (remove_at index q.pending)),
  )
]

abbrev pub is_active : ℕ → Option ℕ → Bool
is_active id none = false
is_active id (some a) = a == id

-- `abort_item`: the second section, where the first found no item.
unfoldable pub abort_active : ℕ → Queue → List Effect
abort_active id q = when (is_active id q.active) (cancel_child id)

unfoldable pub fail_cleared : List QueuedItem → List Effect
fail_cleared [] = []
fail_cleared (item ∷ rest) =
    stop_watcher item.id
    ∷ cancel_child item.id
    ∷ complete item.id (error cleared)
    ∷ fail_cleared rest

unfoldable pub clear : Queue → Queue × List Effect
clear q = (record q { pending = [] }, fail_cleared q.pending)

unfoldable pub panic_message : Panic → Text
panic_message (string_payload message) = message
panic_message (str_payload message) = message
panic_message other_payload = codes "task panicked"

unfoldable pub task_result : TaskEnd → TaskResult
unfolding panic_message
task_result (returned v) = value v
task_result (panicked p) = error (task (panic_message p))

-- Where a worker stands in `run_worker`: before the lock at the head of the loop, in the task of an
-- item, or past the send of its result and before the lock at the foot of the loop.
pub data Worker : Type 0 where
  at_head : Worker
  running delivered : QueuedItem → Worker

unfoldable pub take_next : List QueuedItem → Queue → Queue × Option Worker × List Effect
take_next [] q = (record q { active = none; processing = false }, none, [])
take_next (item ∷ rest) q = (
  record q { pending = rest; active = some item.id },
  some (running item),
  callbacks 1 rest ++ (when item.on_start (start item.id) ++ run_task item.id ∷ []),
)

unfoldable pub release : List QueuedItem → Queue → Queue × Option Worker × List Effect
release [] q = (record q { active = none; processing = false }, none, [])
release (item ∷ rest) q = (record q { active = none }, some at_head, [])

-- The next section of `run_worker`; `none` for the worker is its return. The task of the item ends
-- as `end` says.
unfoldable pub run_worker : Worker → TaskEnd → Queue → Queue × Option Worker × List Effect
unfolding take_next release task_result
run_worker at_head end q = take_next q.pending q
run_worker (running item) end q =
    (q, some (delivered item), complete item.id (task_result end) ∷ stop_watcher item.id ∷ [])
run_worker (delivered item) end q = release q.pending q

-- The queue and the workers that are spawned and have not returned.
pub record System : Type 0 where
  pub queue : Queue
  pub workers : List Worker

pub data Event : Type 0 where
  submits : EnqueueOptions → Event
  -- a watcher's two sections, each at any time
  aborts rechecks : ℕ → Event
  clears : Event
  -- a worker moves; if it is in a task, the task ends
  turn : ℕ → TaskEnd → Event

unfoldable pub init : System
unfolding new
init = record { queue = new; workers = [] }

unfoldable pub replace : ℕ → Option Worker → List Worker → List Worker
replace i w [] = []
replace zero none (_ ∷ ws) = ws
replace zero (some w) (_ ∷ ws) = w ∷ ws
replace (suc i) w (v ∷ ws) = v ∷ replace i w ws

unfoldable pub worker_at : ℕ → List Worker → Option Worker
worker_at i [] = none
worker_at zero (w ∷ ws) = some w
worker_at (suc i) (w ∷ ws) = worker_at i ws

-- A worker is spawned where the item was enqueued and no worker was at work.
unfoldable pub step : Event → System → System × List Effect
unfolding submit abort_pending abort_active clear run_worker
step (submits o) s =
    let (q, enqueued, effects) = submit o s.queue in
    (
      record s {
        queue = q;
        workers =
            if enqueued && not s.queue.processing then s.workers ++ at_head ∷ [] else s.workers;
      },
      effects,
    )
step (aborts id) s =
    let (q, effects) = abort_pending id s.queue in (record s { queue = q }, effects)
step (rechecks id) s = (s, abort_active id s.queue)
step clears s = let (q, effects) = clear s.queue in (record s { queue = q }, effects)
step (turn i end) s = elim (worker_at i s.workers) [
  | none ↦ (s, [])
  | some w ↦
      let (q, w', effects) = run_worker w end s.queue in
      (record s { queue = q; workers = replace i w' s.workers }, effects)
]

unfoldable pub run : List Event → System → System × List Effect
unfolding step
run [] s = (s, [])
run (e ∷ es) s =
    let (s', effects) = step e s in let (s'', later) = run es s' in (s'', effects ++ later)
