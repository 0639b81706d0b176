-- ===== src/RipQueue/Delivery.antt =====
-- Each item that is enqueued has its result sent at most once, and an item whose result is not sent
-- is still waiting or in the hands of the worker.
use alac_bot.Prelude.{
  ℕ, zero, suc, ◌+◌, ◌≤◌, ◌<◌, ◌≡◌, refl, ap, ◌∙◌, Bool, some, List, [], ◌∷◌, ◌++◌, arith, length,
  Option-cases, inl, inr, if◌then◌else◌, ◌&&◌, ◌==◌, leb, ltb, count, count-append,
}
use alac_bot.RipQueue.{
  QueuedItem, Queue, Worker, at_head, running, delivered, Event, submits, aborts, rechecks, clears,
  turn, System, EnqueueOptions, TaskEnd, Effect, complete, position, start, run_task, u64_mod, new,
  submit, index_of, remove_at, callbacks, fail_cleared, abort_pending, abort_active, take_next,
  release, replace, worker_at, init, step, run, is_cancelled, new_item, when,
}
use alac_bot.RipQueue.Invariant.{Fits, IsValid, HasRoom, init-IsValid, step-IsValid, next_id-step}

-- The ids whose results are sent.
unfoldable pub completions : List Effect → List ℕ
completions [] = []
completions (complete id r ∷ es) = id ∷ completions es
completions (_ ∷ es) = completions es

unfoldable pub ids : List QueuedItem → List ℕ
ids [] = []
ids (item ∷ rest) = item.id ∷ ids rest

-- The ids that workers hold and whose results are not sent.
unfoldable pub unsent : List Worker → List ℕ
unsent [] = []
unsent (running item ∷ ws) = item.id ∷ unsent ws
unsent (_ ∷ ws) = unsent ws

-- The ids that an event enqueues.
pub enqueued : Event → System → List ℕ
enqueued (submits o) s = if is_cancelled o.signal then [] else s.queue.next_id ∷ []
enqueued _ s = []

unfoldable pub outstanding : System → List ℕ
unfolding ids unsent
outstanding s = unsent s.workers ++ ids s.queue.pending

completions-append :
    (es fs : List Effect) → completions (es ++ fs) ≡ completions es ++ completions fs
unfolding completions
completions-append [] fs = refl
completions-append (complete id r ∷ es) fs = ap (λ l. id ∷ l) (completions-append es fs)
completions-append (position a b ∷ es) fs = completions-append es fs
completions-append (_ ∷ es) fs = completions-append es fs

completions-when-position : (b : Bool) (i n : ℕ) → completions (when b (position i n)) ≡ []
unfolding completions
completions-when-position b i n = ground arith

completions-callbacks : (n : ℕ) (items : List QueuedItem) → completions (callbacks n items) ≡ []
unfolding completions callbacks
completions-callbacks n [] = refl
completions-callbacks n (item ∷ rest) =
    rw (completions-append, completions-when-position) (completions-callbacks (n + 1) rest)

completions-fail_cleared : (items : List QueuedItem) → completions (fail_cleared items) ≡ ids items
unfolding completions fail_cleared ids
completions-fail_cleared [] = refl
completions-fail_cleared (item ∷ rest) = ap (λ l. item.id ∷ l) (completions-fail_cleared rest)

ids-append : (xs ys : List QueuedItem) → ids (xs ++ ys) ≡ ids xs ++ ids ys
unfolding ids
ids-append [] ys = refl
ids-append (x ∷ xs) ys = ap (λ l. x.id ∷ l) (ids-append xs ys)

-- The item that `index_of` finds is the one that `remove_at` takes out.
count-remove_at :
    (a id i : ℕ) (items : List QueuedItem)
    → index_of id items ≡ some i
    → count a (ids items) ≡ (if id == a then 1 else 0) + count a (ids (remove_at i items))
unfolding index_of remove_at ids
count-remove_at a id i [] h = cc
count-remove_at a id zero (item ∷ rest) h = ground arith
count-remove_at a id (suc i) (item ∷ rest) h = ground (arith, count-remove_at a id i rest)

module _ (a : ℕ) where
  -- What a step sends and what it leaves outstanding is what was outstanding and what it enqueues.
  Balanced : Event → System → Type 0
  Balanced e s =
      count a (completions (step e s).1) + count a (outstanding (step e s).0)
      ≡ count a (outstanding s) + count a (enqueued e s)

completions-submit : (o : EnqueueOptions) (q : Queue) → completions (submit o q).2 ≡ []
unfolding completions submit
completions-submit o q = ground arith

completions-take_next :
    (items : List QueuedItem) (q : Queue) → completions (take_next items q).2 ≡ []
unfolding completions take_next
completions-take_next [] q = refl
completions-take_next (item ∷ rest) q =
    completions-append (callbacks 1 rest) _
    ∙ rw completions-callbacks (
        completions-append (when item.on_start (start item.id)) (run_task item.id ∷ [])
        ∙ ground arith)

-- What a worker that takes leaves outstanding.
outstanding-take_next :
    (items : List QueuedItem) (q : Queue)
    → q.pending ≡ items
    → (let (q', w, effects) = take_next items q in
        unsent (replace 0 w (at_head ∷ [])) ++ ids q'.pending ≡ ids items)
unfolding take_next replace unsent ids
outstanding-take_next [] q e = ap ids e
outstanding-take_next (item ∷ rest) q e = refl

outstanding-release :
    (items : List QueuedItem) (item : QueuedItem) (q : Queue)
    → q.pending ≡ items
    → (completions (release items q).2 ≡ [])
      × (let (q', w, effects) = release items q in
          unsent (replace 0 w (delivered item ∷ [])) ++ ids q'.pending ≡ ids items)
unfolding release replace unsent ids completions
outstanding-release [] item q e = (refl, ap ids e)
outstanding-release (x ∷ rest) item q e = (refl, ap ids e)

module _ (a : ℕ) (q : Queue) where
  abbrev sys : List Worker → System
  sys ws = record { queue = q; workers = ws }

  submit-Balanced :
      (o : EnqueueOptions) (ws : List Worker) → Fits q ws → Balanced a (submits o) (sys ws)
  unfolding Balanced step completions outstanding enqueued
  submit-Balanced o [] v = rw completions-submit (
      ground (
        arith,
        ids-append q.pending (new_item o q.next_id ∷ []),
        count-append a (ids q.pending) (q.next_id ∷ []),
      ))
  submit-Balanced o (w ∷ []) v = rw completions-submit (
      ground (
        arith,
        ids-append q.pending (new_item o q.next_id ∷ []),
        count-append a (ids q.pending) (q.next_id ∷ []),
        count-append a (unsent (w ∷ [])) (ids q.pending),
        count-append a (unsent (w ∷ [])) (ids q.pending ++ q.next_id ∷ []),
      ))
  submit-Balanced o (w ∷ w' ∷ ws) v = absurd v.single

  abort-Balanced : (id : ℕ) (ws : List Worker) → Balanced a (aborts id) (sys ws)
  unfolding Balanced step completions outstanding enqueued
  abort-Balanced id ws = elim (Option-cases (index_of id q.pending)) [
    | inl e ↦ rw (e, abort_pending) (omega arith)
    | inr (i, e) ↦
        rw (e, abort_pending)
          (rw completions-callbacks (
            omega (
              arith,
              count-append a (unsent ws) (ids q.pending),
              count-append a (unsent ws) (ids (remove_at i q.pending)),
              count-remove_at a id i q.pending e,
            )))
  ]

  clear-Balanced : (ws : List Worker) → Balanced a clears (sys ws)
  unfolding Balanced step completions outstanding enqueued
  clear-Balanced ws =
      rw completions-fail_cleared
        (omega (arith, count-append a (unsent ws) (ids q.pending), count-append a (unsent ws) []))

  rechecks-Balanced : (id : ℕ) (s : System) → Balanced a (rechecks id) s
  unfolding Balanced step abort_active completions enqueued
  rechecks-Balanced id s = ground arith

  turn-Balanced :
      (i : ℕ) (end : TaskEnd) (ws : List Worker) → Fits q ws → Balanced a (turn i end) (sys ws)
  unfolding Balanced step completions outstanding enqueued worker_at replace
  turn-Balanced i end [] v = omega arith
  turn-Balanced zero end (at_head ∷ []) v =
      rw (completions-take_next, outstanding-take_next q.pending q refl) (omega arith)
  turn-Balanced zero end (running item ∷ []) v = (omega arith)
  turn-Balanced zero end (delivered item ∷ []) v =
      rw
        (
          (outstanding-release q.pending item q refl).0,
          (outstanding-release q.pending item q refl).1,
        )
        (omega arith)
  turn-Balanced (suc i) end (w ∷ []) v = omega arith
  turn-Balanced i end (w ∷ w' ∷ ws) v = absurd v.single

-- A step from a valid state neither loses an item nor sends a result twice.
step-Balanced : (a : ℕ) (e : Event) (s : System) → IsValid s → Balanced a e s
step-Balanced a (submits o) s v = submit-Balanced a s.queue o s.workers v
step-Balanced a (aborts id) s v = abort-Balanced a s.queue id s.workers
step-Balanced a (rechecks id) s v = rechecks-Balanced a s.queue id s
step-Balanced a clears s v = clear-Balanced a s.queue s.workers
step-Balanced a (turn i end) s v = turn-Balanced a s.queue i end s.workers v

-- Whether `a` is an id from `lo` on, below `hi`.
abbrev pub between : ℕ → ℕ → ℕ → ℕ
between lo a hi = if leb lo a && ltb a hi then 1 else 0

enqueued-next_id :
    (a : ℕ) (e : Event) (s : System)
    → HasRoom 1 s
    → IsValid s
    → (count a (enqueued e s) ≡ between s.queue.next_id a (step e s).0.queue.next_id)
      × (s.queue.next_id ≤ (step e s).0.queue.next_id)
unfolding enqueued step take_next release
enqueued-next_id a (submits o) s room v = ground arith
enqueued-next_id a (aborts id) s room v = ground arith
enqueued-next_id a (rechecks id) s room v = ground arith
enqueued-next_id a clears s room v = ground arith
enqueued-next_id a (turn i end) s room v = ground arith

run-Balanced :
    (a : ℕ) (es : List Event) (s : System)
    → IsValid s
    → HasRoom (length es) s
    → (count a (completions (run es s).1) + count a (outstanding (run es s).0)
        ≡ count a (outstanding s) + between s.queue.next_id a (run es s).0.queue.next_id)
      × (s.queue.next_id ≤ (run es s).0.queue.next_id)
unfolding run Balanced completions
run-Balanced a [] s v room = ground arith
run-Balanced a (e ∷ es) s v room =
    let s' = (step e s).0 in
    let f = (step e s).1 in
    let small : HasRoom 1 s = omega arith in
    let ih =
      run-Balanced a es s' (step-IsValid e s v small) (omega (arith, next_id-step e s v small)) in
    let b = step-Balanced a e s v in
    let n = enqueued-next_id a e s small v in
    ground (
      arith,
      ih,
      b,
      n,
      completions-append f (run es s').1,
      count-append a (completions f) (completions (run es s').1),
    )

outstanding-init : (a : ℕ) → count a (outstanding init) ≡ 0
unfolding outstanding init new
outstanding-init a = refl

next_id-init : init.queue.next_id ≡ 1
unfolding init new
next_id-init = refl

-- After any events on a new queue, an id that was given out stands exactly once
-- among the results sent, the task at work and the items that wait, and no other id does.
pub exactly_once :
    (es : List Event) (a : ℕ)
    → length es + 1 < u64_mod
    → count a (completions (run es init).1) + count a (outstanding (run es init).0)
      ≡ between 1 a (run es init).0.queue.next_id
exactly_once es a h =
    let b = (run-Balanced a es init init-IsValid (rw next_id-init (omega (arith, h)))).0 in
    ground (arith, b, outstanding-init a, next_id-init)
