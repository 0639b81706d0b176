-- ===== src/RipQueue/Invariant.antt =====
-- What holds of the rip queue between two sections under the lock: there is one worker exactly while
-- the queue is processing, it holds the active item, and the ids that wait ascend.
use alac_bot.Prelude.{
  ℕ, zero, suc, ◌+◌, ◌≤◌, ◌<◌, ◌≡◌, refl, true, false, Option, none, some, List, [], ◌∷◌, ◌++◌,
  arith, length, inl, inr, Option-cases,
}
use alac_bot.RipQueue.{
  QueuedItem, Queue, Worker, at_head, running, delivered, Event, submits, aborts, rechecks, clears,
  turn, System, EnqueueOptions, TaskEnd, u64_mod, new, index_of, remove_at, abort_pending, new_item,
  take_next, release, replace, worker_at, init, step, run,
}

-- The ids ascend from `lo` and stay below `hi`.
abbrev pub Ascending : ℕ → List QueuedItem → ℕ → Type 0
Ascending lo [] hi = lo ≤ hi
Ascending lo (item ∷ rest) hi = (lo ≤ item.id) × Ascending (item.id + 1) rest hi

pub Ascending-le : (lo : ℕ) (items : List QueuedItem) (hi : ℕ) → Ascending lo items hi → lo ≤ hi
Ascending-le lo [] hi h = h
Ascending-le lo (item ∷ rest) hi h = omega (arith, h.0, Ascending-le (item.id + 1) rest hi h.1)

pub Ascending-lower :
    (lo lo' : ℕ) (items : List QueuedItem) (hi : ℕ)
    → lo' ≤ lo
    → Ascending lo items hi
    → Ascending lo' items hi
Ascending-lower lo lo' [] hi l h = omega arith
Ascending-lower lo lo' (item ∷ rest) hi l h = (omega (arith, h.0), h.1)

pub Ascending-push :
    (lo : ℕ) (items : List QueuedItem) (item : QueuedItem) (hi : ℕ)
    → hi ≡ item.id
    → Ascending lo items hi
    → Ascending lo (items ++ item ∷ []) (hi + 1)
Ascending-push lo [] item hi e h = (omega arith, omega arith)
Ascending-push lo (x ∷ rest) item hi e h = (h.0, Ascending-push (x.id + 1) rest item hi e h.1)

pub Ascending-remove :
    (lo i : ℕ) (items : List QueuedItem) (hi : ℕ)
    → Ascending lo items hi
    → Ascending lo (remove_at i items) hi
unfolding remove_at
Ascending-remove lo i [] hi h = h
Ascending-remove lo zero (item ∷ rest) hi h =
    Ascending-lower (item.id + 1) lo rest hi (omega (arith, h.0)) h.1
Ascending-remove lo (suc i) (item ∷ rest) hi h = (h.0, Ascending-remove (item.id + 1) i rest hi h.1)

-- The item that a worker holds.
abbrev pub held : Worker → Option ℕ
held at_head = none
held (running item) = some item.id
held (delivered item) = some item.id

abbrev pub WorkersMatch : Queue → List Worker → Type 0
WorkersMatch q [] = (q.processing ≡ false) × (q.active ≡ none) × (q.pending ≡ [])
WorkersMatch q (w ∷ []) = (q.processing ≡ true) × (q.active ≡ held w)
WorkersMatch q (w ∷ v ∷ ws) = ⊥

-- The ids from which on the waiting items count: past the item of the worker.
abbrev pub floor : List Worker → ℕ
floor (running item ∷ _) = item.id + 1
floor (delivered item ∷ _) = item.id + 1
floor _ = 1

pub record Fits (q : Queue) (ws : List Worker) : Type 0 where
  pub single : WorkersMatch q ws
  pub ascending : Ascending (floor ws) q.pending q.next_id
  pub in_range : q.next_id < u64_mod

abbrev pub IsValid : System → Type 0
IsValid s = Fits s.queue s.workers

pub init-IsValid : IsValid init
unfolding init new
init-IsValid = record {
  single = (refl, refl, refl);
  ascending = omega arith;
  in_range = omega arith;
}

-- A step takes the next id at most once.
abbrev pub HasRoom : ℕ → System → Type 0
HasRoom k s = s.queue.next_id + k < u64_mod

module _ (q : Queue) where
  abbrev sys : List Worker → System
  sys ws = record { queue = q; workers = ws }

  submit-IsValid :
      (o : EnqueueOptions) (ws : List Worker)
      → Fits q ws
      → HasRoom 1 (sys ws)
      → IsValid (step (submits o) (sys ws)).0
  unfolding step
  submit-IsValid o [] v room =
      ground (arith, Ascending-push 1 q.pending (new_item o q.next_id) q.next_id)
  submit-IsValid o (w ∷ []) v room =
      ground (arith, Ascending-push (floor (w ∷ [])) q.pending (new_item o q.next_id) q.next_id)
  submit-IsValid o (w ∷ w' ∷ ws) v room = absurd v.single

  abort-IsValid : (id : ℕ) (ws : List Worker) → Fits q ws → IsValid (step (aborts id) (sys ws)).0
  unfolding step index_of
  abort-IsValid id [] v = rw (v.single.2, index_of) v
  abort-IsValid id (w ∷ []) v = elim (Option-cases (index_of id q.pending)) [
    | inl e ↦ rw (e, abort_pending) v
    | inr (i, e) ↦
        rw (e, abort_pending)
          (record {
            single = v.single;
            ascending = Ascending-remove (floor (w ∷ [])) i q.pending q.next_id v.ascending;
            in_range = v.in_range;
          })
  ]
  abort-IsValid id (w ∷ w' ∷ ws) v = absurd v.single

  clear-IsValid : (ws : List Worker) → Fits q ws → IsValid (step clears (sys ws)).0
  unfolding step
  clear-IsValid [] v = record {
    single = (v.single.0, v.single.1, refl);
    ascending = Ascending-le 1 q.pending q.next_id v.ascending;
    in_range = v.in_range;
  }
  clear-IsValid (w ∷ []) v = record {
    single = v.single;
    ascending = Ascending-le (floor (w ∷ [])) q.pending q.next_id v.ascending;
    in_range = v.in_range;
  }
  clear-IsValid (w ∷ w' ∷ ws) v = absurd v.single

  worker-IsValid :
      (w : Worker) (end : TaskEnd) → Fits q (w ∷ []) → IsValid (step (turn 0 end) (sys (w ∷ []))).0
  unfolding step replace worker_at
  worker-IsValid at_head end v = ground arith
  worker-IsValid (running item) end v = record {
    single = v.single;
    ascending = v.ascending;
    in_range = v.in_range;
  }
  worker-IsValid (delivered item) end v =
      ground (arith, Ascending-lower (item.id + 1) 1 q.pending q.next_id)

  pub turn-IsValid :
      (i : ℕ) (end : TaskEnd) (ws : List Worker)
      → Fits q ws
      → IsValid (step (turn i end) (sys ws)).0
  unfolding step worker_at
  turn-IsValid i end [] v = v
  turn-IsValid zero end (w ∷ []) v = worker-IsValid w end v
  turn-IsValid (suc i) end (w ∷ []) v = v
  turn-IsValid i end (w ∷ w' ∷ ws) v = absurd v.single

-- Every event keeps the queue well formed.
pub step-IsValid : (e : Event) (s : System) → IsValid s → HasRoom 1 s → IsValid (step e s).0
step-IsValid (submits o) s v room = submit-IsValid s.queue o s.workers v room
step-IsValid (aborts id) s v room = abort-IsValid s.queue id s.workers v
step-IsValid (rechecks id) s v room = unfold step in v
step-IsValid clears s v room = clear-IsValid s.queue s.workers v
step-IsValid (turn i end) s v room = turn-IsValid s.queue i end s.workers v

-- A step takes one id at most.
pub next_id-step :
    (e : Event) (s : System)
    → IsValid s
    → HasRoom 1 s
    → (step e s).0.queue.next_id ≤ s.queue.next_id + 1
unfolding step take_next release
next_id-step (submits o) s v room = ground arith
next_id-step (aborts id) s v room = ground arith
next_id-step (rechecks id) s v room = ground arith
next_id-step clears s v room = ground arith
next_id-step (turn i end) s v room = ground arith

-- A run of valid states: the invariant holds after any events, as long as fewer than 2 ^ 64 ids are
-- asked for.
pub run-IsValid :
    (es : List Event) (s : System) → IsValid s → HasRoom (length es) s → IsValid (run es s).0
unfolding run
run-IsValid [] s v room = v
run-IsValid (e ∷ es) s v room =
    run-IsValid es (step e s).0 (step-IsValid e s v (omega arith))
      (omega (arith, next_id-step e s v (omega arith)))
