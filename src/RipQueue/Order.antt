-- ===== src/RipQueue/Order.antt =====
-- Tasks start in the order in which they were submitted.
use alac_bot.Prelude.{
  ℕ, ◌+◌, ◌≤◌, ◌<◌, ◌≡◌, refl, ap, ◌∙◌, List, [], ◌∷◌, ◌++◌, arith, length, Option-cases, inl, inr,
}
use alac_bot.RipQueue.{
  QueuedItem, Queue, Worker, at_head, running, delivered, Event, submits, aborts, rechecks, clears,
  turn, System, EnqueueOptions, TaskEnd, Effect, position, start, run_task, u64_mod, new, submit,
  index_of, callbacks, fail_cleared, abort_pending, abort_active, take_next, release, run_worker,
  worker_at, init, step, run, new_item, when,
}
use alac_bot.RipQueue.Invariant.{
  Ascending, Ascending-le, Ascending-push, Ascending-remove, IsValid, HasRoom, init-IsValid,
  step-IsValid, next_id-step,
}

-- The ids whose tasks are called, in order.
unfoldable pub task_calls : List Effect → List ℕ
task_calls [] = []
task_calls (run_task id ∷ es) = id ∷ task_calls es
task_calls (_ ∷ es) = task_calls es

-- Strictly ascending from `lo`.
abbrev pub Increasing : ℕ → List ℕ → Type 0
Increasing lo [] = Unit
Increasing lo (x ∷ xs) = (lo ≤ x) × Increasing (x + 1) xs

-- Where the ids that `xs` calls leave the bound.
abbrev after : ℕ → List ℕ → ℕ
after lo [] = lo
after lo (x ∷ xs) = after (x + 1) xs

Increasing-append :
    (lo : ℕ) (xs ys : List ℕ)
    → Increasing lo xs
    → Increasing (after lo xs) ys
    → Increasing lo (xs ++ ys)
Increasing-append lo [] ys h k = k
Increasing-append lo (x ∷ xs) ys h k = (h.0, Increasing-append (x + 1) xs ys h.1 k)

task_calls-append : (es fs : List Effect) → task_calls (es ++ fs) ≡ task_calls es ++ task_calls fs
unfolding task_calls
task_calls-append [] fs = refl
task_calls-append (run_task id ∷ es) fs = ap (λ l. id ∷ l) (task_calls-append es fs)
task_calls-append (position a b ∷ es) fs = task_calls-append es fs
task_calls-append (_ ∷ es) fs = task_calls-append es fs

task_calls-callbacks : (n : ℕ) (items : List QueuedItem) → task_calls (callbacks n items) ≡ []
unfolding task_calls callbacks
task_calls-callbacks n [] = refl
task_calls-callbacks n (item ∷ rest) =
    task_calls-append (when item.on_position_change (position item.id n)) _
    ∙ ground (arith, task_calls-callbacks (n + 1) rest)

task_calls-fail_cleared : (items : List QueuedItem) → task_calls (fail_cleared items) ≡ []
unfolding task_calls fail_cleared
task_calls-fail_cleared [] = refl
task_calls-fail_cleared (item ∷ rest) = task_calls-fail_cleared rest

-- From a bound below all that waits, a step's calls ascend, and the bound moves past them.
record Ordered (lo : ℕ) (s : System) (effects : List Effect) : Type 0 where
  calls : Increasing lo (task_calls effects)
  waiting : Ascending (after lo (task_calls effects)) s.queue.pending s.queue.next_id

abbrev IsOrdered : ℕ → System × List Effect → Type 0
IsOrdered lo r = Ordered lo r.0 r.1

module _ (lo : ℕ) (s : System) (w : Ascending lo s.queue.pending s.queue.next_id) where
  submit-IsOrdered : (o : EnqueueOptions) → HasRoom 1 s → IsOrdered lo (step (submits o) s)
  unfolding step task_calls submit
  submit-IsOrdered o room =
      ground (arith, Ascending-push lo s.queue.pending (new_item o s.queue.next_id) s.queue.next_id)

  abort-IsOrdered : (id : ℕ) → IsOrdered lo (step (aborts id) s)
  unfolding step task_calls
  abort-IsOrdered id = elim (Option-cases (index_of id s.queue.pending)) [
    | inl e ↦ rw (e, abort_pending) (record { calls = tt; waiting = w })
    | inr (i, e) ↦
        rw (e, abort_pending)
          (record {
            calls = rw task_calls-callbacks tt;
            waiting =
                rw task_calls-callbacks (Ascending-remove lo i s.queue.pending s.queue.next_id w);
          })
  ]

  clear-IsOrdered : IsOrdered lo (step clears s)
  unfolding step
  clear-IsOrdered = record {
    calls = rw task_calls-fail_cleared tt;
    waiting = rw task_calls-fail_cleared (Ascending-le lo s.queue.pending s.queue.next_id w);
  }

  rechecks-IsOrdered : (id : ℕ) → IsOrdered lo (step (rechecks id) s)
  unfolding step abort_active task_calls
  rechecks-IsOrdered id = ground arith

calls-taken :
    (item : QueuedItem) (rest : List QueuedItem)
    → task_calls (callbacks 1 rest ++ (when item.on_start (start item.id) ++ run_task item.id ∷ []))
      ≡ item.id ∷ []
calls-taken item rest =
    task_calls-append (callbacks 1 rest) _
    ∙ rw task_calls-callbacks (unfold task_calls in ground arith)

take_next-Ordered :
    (lo : ℕ) (items : List QueuedItem) (q : Queue) (ws : List Worker)
    → q.pending ≡ items
    → Ascending lo items q.next_id
    → (let (q', w, effects) = take_next items q in
        Ordered lo (record { queue = q'; workers = ws }) effects)
unfolding take_next task_calls
take_next-Ordered lo [] q ws e h = record { calls = tt; waiting = rw e h }
take_next-Ordered lo (item ∷ rest) q ws e h =
    let c = calls-taken item rest in record { calls = rw c (h.0, tt); waiting = rw c h.1 }

release-Ordered :
    (lo : ℕ) (items : List QueuedItem) (q : Queue) (ws : List Worker)
    → q.pending ≡ items
    → Ascending lo items q.next_id
    → (let (q', w, effects) = release items q in
        Ordered lo (record { queue = q'; workers = ws }) effects)
unfolding release task_calls
release-Ordered lo [] q ws e h = record { calls = tt; waiting = rw e h }
release-Ordered lo (item ∷ rest) q ws e h = record { calls = tt; waiting = rw e h }

run_worker-Ordered :
    (lo : ℕ) (w : Worker) (end : TaskEnd) (q : Queue) (ws : List Worker)
    → Ascending lo q.pending q.next_id
    → (let (q', w', effects) = run_worker w end q in
        Ordered lo (record { queue = q'; workers = ws }) effects)
unfolding run_worker task_calls
run_worker-Ordered lo at_head end q ws h = take_next-Ordered lo q.pending q ws refl h
run_worker-Ordered lo (running item) end q ws h = record { calls = tt; waiting = h }
run_worker-Ordered lo (delivered item) end q ws h = release-Ordered lo q.pending q ws refl h

turn-IsOrdered :
    (lo : ℕ) (s : System)
    → Ascending lo s.queue.pending s.queue.next_id
    → (i : ℕ) (end : TaskEnd) → IsOrdered lo (step (turn i end) s)
unfolding step task_calls
turn-IsOrdered lo s h i end = elim (Option-cases (worker_at i s.workers)) [
  | inl e ↦ rw (e, step) (record { calls = tt; waiting = h })
  | inr (w, e) ↦ rw (e, step) (run_worker-Ordered lo w end s.queue _ h)
]

step-Ordered :
    (lo : ℕ) (e : Event) (s : System)
    → HasRoom 1 s
    → Ascending lo s.queue.pending s.queue.next_id
    → IsOrdered lo (step e s)
step-Ordered lo (submits o) s room w = submit-IsOrdered lo s w o room
step-Ordered lo (aborts id) s room w = abort-IsOrdered lo s w id
step-Ordered lo (rechecks id) s room w = rechecks-IsOrdered lo s w id
step-Ordered lo clears s room w = clear-IsOrdered lo s w
step-Ordered lo (turn i end) s room w = turn-IsOrdered lo s w i end

run-Increasing :
    (lo : ℕ) (es : List Event) (s : System)
    → IsValid s
    → HasRoom (length es) s
    → Ascending lo s.queue.pending s.queue.next_id
    → Increasing lo (task_calls (run es s).1)
unfolding run task_calls
run-Increasing lo [] s v room w = tt
run-Increasing lo (e ∷ es) s v room w =
    let small : HasRoom 1 s = omega arith in
    let o = step-Ordered lo e s small w in
    rw (task_calls-append (step e s).1 (run es (step e s).0).1) (
      Increasing-append lo (task_calls (step e s).1) _ o.calls (
        run-Increasing (after lo (task_calls (step e s).1)) es (step e s).0
          (step-IsValid e s v small) (omega (arith, next_id-step e s v small)) o.waiting))

-- On a new queue, whatever the events, the tasks that are called have strictly ascending ids: tasks
-- start in the order of their submissions, none twice.
pub fifo : (es : List Event) → length es + 1 < u64_mod → Increasing 1 (task_calls (run es init).1)
fifo es h =
    run-Increasing 1 es init init-IsValid (unfold init new in omega (arith, h))
      (unfold init new in omega arith)
