-- ===== src/RipQueue/Positions.antt =====
-- A position that a callback is told is the place of its item in the queue, counted from 1.
use alac_bot.Prelude.{
  ℕ, zero, suc, ◌+◌, ◌≤◌, ◌≡◌, refl, ap, ◌∙◌, Bool, Option, none, some, List, [], ◌∷◌, ◌++◌, arith,
  length, Option-cases, inl, inr, All, All-append, take, drop, append_assoc, length-append, true,
  false,
}
use alac_bot.RipQueue.{
  QueuedItem, Queue, Worker, at_head, running, delivered, Event, submits, aborts, rechecks, clears,
  turn, System, EnqueueOptions, TaskEnd, Effect, position, start, run_task, submit, index_of,
  remove_at, callbacks, fail_cleared, abort_pending, abort_active, take_next, release, run_worker,
  worker_at, step, new_item, when,
}
use alac_bot.RipQueue.Invariant.{Ascending, Ascending-push, Ascending-remove, IsValid, floor}

abbrev pub place : ℕ → List QueuedItem → Option ℕ
place id items = elim (index_of id items) [ none ↦ none | some i ↦ some (suc i) ]

-- A position callback tells the place of its item in `items`.
abbrev pub IsAccurate : List QueuedItem → Effect → Type 0
IsAccurate items (position id n) = place id items ≡ some n
IsAccurate items _ = Unit

index_of-middle :
    (lo hi : ℕ) (before : List QueuedItem) (item : QueuedItem) (rest : List QueuedItem)
    → Ascending lo (before ++ item ∷ rest) hi
    → (lo ≤ item.id) × (index_of item.id (before ++ item ∷ rest) ≡ some (length before))
unfolding index_of
index_of-middle lo hi [] item rest h = ground arith
index_of-middle lo hi (x ∷ before) item rest h =
    let ih = index_of-middle (x.id + 1) hi before item rest h.1 in ground (arith, ih, h.0)

when-IsAccurate :
    (id n : ℕ) (all : List QueuedItem) (b : Bool)
    → place id all ≡ some n
    → All (IsAccurate all) (when b (position id n))
when-IsAccurate id n all true p = (p, tt)
when-IsAccurate id n all false p = tt

start-IsAccurate :
    (all : List QueuedItem) (b : Bool) (id : ℕ)
    → All (IsAccurate all) (when b (start id) ++ run_task id ∷ [])
start-IsAccurate all true id = (tt, (tt, tt))
start-IsAccurate all false id = (tt, tt)

callbacks-IsAccurate :
    (lo hi n : ℕ) (before items all : List QueuedItem)
    → before ++ items ≡ all
    → n ≡ length before + 1
    → Ascending lo all hi
    → All (IsAccurate all) (callbacks n items)
unfolding callbacks
callbacks-IsAccurate lo hi n before [] all split e h = tt
callbacks-IsAccurate lo hi n before (item ∷ rest) all split e h =
    All-append (IsAccurate all) (when item.on_position_change (position item.id n)) _
      (when-IsAccurate item.id n all item.on_position_change (ground (arith, here.1)))
      (callbacks-IsAccurate lo hi (n + 1) (before ++ item ∷ []) rest all
        (append_assoc before (item ∷ []) rest ∙ split)
        (omega (arith, length-append before (item ∷ []))) h)
  where
    here : (lo ≤ item.id) × (index_of item.id all ≡ some (length before))
    here = rw (← split) (index_of-middle lo hi before item rest (rw split h))

take-drop : (i : ℕ) (items : List QueuedItem) → take i items ++ drop i items ≡ items
take-drop zero items = refl
take-drop (suc i) [] = refl
take-drop (suc i) (x ∷ items) = ap (λ l. x ∷ l) (take-drop i items)

-- `index_of` finds an index inside the list, so that many items stand before what it removes.
length-take_removed :
    (id i : ℕ) (items : List QueuedItem)
    → index_of id items ≡ some i
    → length (take i (remove_at i items)) ≡ i
unfolding index_of remove_at
length-take_removed id i [] h = cc
length-take_removed id zero (x ∷ items) h = refl
length-take_removed id (suc i) (x ∷ items) h = ground (arith, length-take_removed id i items)

take_next-IsAccurate :
    (lo hi : ℕ) (items : List QueuedItem) (q : Queue)
    → Ascending lo items hi
    → All (IsAccurate (take_next items q).0.pending) (take_next items q).2
unfolding take_next
take_next-IsAccurate lo hi [] q h = tt
take_next-IsAccurate lo hi (item ∷ rest) q h =
    All-append (IsAccurate rest) (callbacks 1 rest) _
      (callbacks-IsAccurate (item.id + 1) hi 1 [] rest rest refl refl h.1)
      (start-IsAccurate rest item.on_start item.id)

fail_cleared-IsAccurate : (items all : List QueuedItem) → All (IsAccurate all) (fail_cleared items)
unfolding fail_cleared
fail_cleared-IsAccurate [] all = tt
fail_cleared-IsAccurate (item ∷ items) all = (tt, (tt, (tt, fail_cleared-IsAccurate items all)))

release-IsAccurate :
    (items : List QueuedItem) (q : Queue)
    → All (IsAccurate (release items q).0.pending) (release items q).2
unfolding release
release-IsAccurate [] q = tt
release-IsAccurate (x ∷ rest) q = tt

run_worker-IsAccurate :
    (lo hi : ℕ) (w : Worker) (end : TaskEnd) (q : Queue)
    → Ascending lo q.pending hi
    → All (IsAccurate (run_worker w end q).0.pending) (run_worker w end q).2
unfolding run_worker
run_worker-IsAccurate lo hi at_head end q h = take_next-IsAccurate lo hi q.pending q h
run_worker-IsAccurate lo hi (running item) end q h = (tt, (tt, tt))
run_worker-IsAccurate lo hi (delivered item) end q h = release-IsAccurate q.pending q

abort-IsAccurate :
    (lo id : ℕ) (q : Queue)
    → Ascending lo q.pending q.next_id
    → All (IsAccurate (abort_pending id q).0.pending) (abort_pending id q).1
unfolding abort_pending
abort-IsAccurate lo id q h = elim (Option-cases (index_of id q.pending)) [
  | inl e ↦ rw (e, abort_pending) tt
  | inr (i, e) ↦
      rw (e, abort_pending)
        (
          tt,
          (
            tt,
            (
              tt,
              callbacks-IsAccurate lo q.next_id (i + 1) (take i (remove_at i q.pending)) _
                  (remove_at i q.pending) (take-drop i (remove_at i q.pending))
                  (omega (arith, length-take_removed id i q.pending e))
                  (Ascending-remove lo i q.pending q.next_id h),
            ),
          ),
        )
]

submit-IsAccurate :
    (lo : ℕ) (o : EnqueueOptions) (q : Queue)
    → Ascending lo q.pending q.next_id
    → All (IsAccurate (submit o q).0.pending) (submit o q).2
unfolding submit
submit-IsAccurate lo o q h = ground (
  arith,
  Ascending-push lo q.pending (new_item o q.next_id) q.next_id,
  index_of-middle lo (q.next_id + 1) q.pending (new_item o q.next_id) [],
)

turn-IsAccurate :
    (lo i : ℕ) (end : TaskEnd) (s : System)
    → Ascending lo s.queue.pending s.queue.next_id
    → All (IsAccurate (step (turn i end) s).0.queue.pending) (step (turn i end) s).1
unfolding step
turn-IsAccurate lo i end s h = elim (Option-cases (worker_at i s.workers)) [
  | inl e ↦ rw (e, step) tt
  | inr (w, e) ↦ rw (e, step) (run_worker-IsAccurate lo s.queue.next_id w end s.queue h)
]

rechecks-IsAccurate :
    (id : ℕ) (s : System) (all : List QueuedItem) → All (IsAccurate all) (step (rechecks id) s).1
unfolding step abort_active
rechecks-IsAccurate id s all = ground arith

-- Whatever the event, each position that a callback is told is the place, counted from 1, of its
-- item among the items that wait after the event.
pub positions-IsAccurate :
    (e : Event) (s : System) → IsValid s → All (IsAccurate (step e s).0.queue.pending) (step e s).1
unfolding step
positions-IsAccurate (submits o) s v = submit-IsAccurate (floor s.workers) o s.queue v.ascending
positions-IsAccurate (aborts id) s v = abort-IsAccurate (floor s.workers) id s.queue v.ascending
positions-IsAccurate (rechecks id) s v = rechecks-IsAccurate id s s.queue.pending
positions-IsAccurate clears s v = fail_cleared-IsAccurate s.queue.pending []
positions-IsAccurate (turn i end) s v = turn-IsAccurate (floor s.workers) i end s v.ascending
