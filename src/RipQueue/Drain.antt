-- ===== src/RipQueue/Drain.antt =====
-- The worker alone empties the queue, and every item that was enqueued has its result sent.
use alac_bot.Prelude.{
  ℕ, suc, ◌+◌, ◌*◌, ◌-◌, ◌≤◌, ◌<◌, ◌≡◌, refl, ap, false, none, List, [], ◌∷◌, ◌++◌, arith, length,
  count, append_assoc, length-append,
}
use alac_bot.RipQueue.{
  Queue, Worker, at_head, running, delivered, Event, turn, System, TaskEnd, u64_mod, take_next,
  release, replace, worker_at, step, run, init, new,
}
use alac_bot.RipQueue.Invariant.{Fits, IsValid, turn-IsValid, run-IsValid, init-IsValid}
use alac_bot.RipQueue.Delivery.{completions, outstanding, exactly_once}

-- The turns that the worker has left at most.
work : Queue → List Worker → ℕ
work q [] = 0
work q (at_head ∷ _) = 3 * length q.pending + 1
work q (delivered item ∷ _) = 3 * length q.pending + 2
work q (running item ∷ _) = 3 * length q.pending + 3

work-falls :
    (q : Queue) (ws : List Worker) (end : TaskEnd)
    → Fits q ws
    → (let s = (step (turn 0 end) (record { queue = q; workers = ws })).0 in
        work s.queue s.workers ≤ work q ws - 1)
unfolding work step worker_at replace take_next release
work-falls q [] end v = omega arith
work-falls q (at_head ∷ []) end v = ground arith
work-falls q (delivered item ∷ []) end v = ground arith
work-falls q (running item ∷ []) end v = omega arith
work-falls q (w ∷ w' ∷ ws) end v = absurd v.single

work-zero : (q : Queue) (ws : List Worker) → work q ws ≡ 0 → ws ≡ []
unfolding work
work-zero q [] h = refl
work-zero q (at_head ∷ ws) h = absurd (omega arith)
work-zero q (running item ∷ ws) h = absurd (omega arith)
work-zero q (delivered item ∷ ws) h = absurd (omega arith)

-- The worker's next moves, with the ends of the tasks that it may be in.
abbrev pub turns : List TaskEnd → List Event
turns [] = []
turns (end ∷ ends) = turn 0 end ∷ turns ends

next_id-turn :
    (s : System) (i : ℕ) (end : TaskEnd) → (step (turn i end) s).0.queue.next_id ≡ s.queue.next_id
unfolding step take_next release
next_id-turn s i end = ground arith

turns-IsValid : (s : System) (end : TaskEnd) → IsValid s → IsValid (step (turn 0 end) s).0
turns-IsValid s end v = turn-IsValid s.queue 0 end s.workers v

run-turns_idle :
    (ends : List TaskEnd) (s : System)
    → IsValid s
    → work s.queue s.workers ≤ length ends
    → (IsValid (run (turns ends) s).0) × ((run (turns ends) s).0.workers ≡ [])
unfolding run
run-turns_idle [] s v h = (v, work-zero s.queue s.workers (omega arith))
run-turns_idle (end ∷ ends) s v h =
    run-turns_idle ends (step (turn 0 end) s).0 (turns-IsValid s end v)
      (omega (arith, work-falls s.queue s.workers end v))

work-le : (q : Queue) (ws : List Worker) → work q ws ≤ 3 * length q.pending + 3
unfolding work
work-le q [] = omega arith
work-le q (at_head ∷ ws) = omega arith
work-le q (running item ∷ ws) = omega arith
work-le q (delivered item ∷ ws) = omega arith

idle-Fits :
    (q : Queue) (ws : List Worker)
    → Fits q ws
    → ws ≡ []
    → (q.processing ≡ false) × (q.active ≡ none) × (q.pending ≡ [])
idle-Fits q [] v e = v.single
idle-Fits q (w ∷ ws) v e = cc

-- From any valid state, three turns of the worker for each waiting item and three more leave the
-- queue idle: nothing waits, nothing is active, and no worker is left.
pub drains :
    (ends : List TaskEnd) (s : System)
    → IsValid s
    → 3 * length s.queue.pending + 3 ≤ length ends
    → (let t = (run (turns ends) s).0 in
        (t.queue.processing ≡ false)
        × (t.queue.active ≡ none)
        × (t.queue.pending ≡ [])
        × (t.workers ≡ []))
drains ends s v h =
    let r = run-turns_idle ends s v (omega (arith, work-le s.queue s.workers)) in
    let f = idle-Fits _ _ r.0 r.1 in (f.0, f.1, f.2, r.1)

run-append :
    (es fs : List Event) (s : System)
    → run (es ++ fs) s ≡ ((run fs (run es s).0).0, (run es s).1 ++ (run fs (run es s).0).1)
unfolding run
run-append [] fs s = refl
run-append (e ∷ es) fs s = rw (run-append es fs (step e s).0, append_assoc) refl

length-turns : (ends : List TaskEnd) → length (turns ends) ≡ length ends
length-turns [] = refl
length-turns (end ∷ ends) = ap suc (length-turns ends)

outstanding-idle :
    (a : ℕ) (s : System) → s.queue.pending ≡ [] → s.workers ≡ [] → count a (outstanding s) ≡ 0
unfolding outstanding
outstanding-idle a s p w = rw (p, w)

-- After any events and enough turns of the worker, every id that was given out has had its result
-- sent exactly once.
pub every_item_completes :
    (es : List Event) (ends : List TaskEnd) (a : ℕ)
    → length es + length ends + 1 < u64_mod
    → 3 * length (run es init).0.queue.pending + 3 ≤ length ends
    → 0 < a
    → a < (run (es ++ turns ends) init).0.queue.next_id
    → count a (completions (run (es ++ turns ends) init).1) ≡ 1
every_item_completes es ends a room enough lo hi =
    let v = run-IsValid es init init-IsValid (unfold init new in omega (arith, room)) in
    let d = drains ends (run es init).0 v enough in
    let last = run (es ++ turns ends) init in
    let o : count a (outstanding last.0) ≡ 0 =
      rw run-append (outstanding-idle a (run (turns ends) (run es init).0).0 d.2 d.3) in
    let once =
      exactly_once (es ++ turns ends) a
        (omega (arith, room, length-append es (turns ends), length-turns ends)) in
    ground (arith, o, once, lo, hi)
