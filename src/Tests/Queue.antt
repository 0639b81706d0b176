-- ===== src/Tests/Queue.antt =====
-- crates/engine/src/queue.rs on concrete schedules.
use alac_bot.Prelude.{◌+◌, ◌≡◌, refl, true, none, List, [], ◌∷◌, ◌++◌, arith, count}
use alac_bot.RipQueue.{
  EnqueueOptions, Event, submits, aborts, turn, TaskEnd, returned, panicked, other_payload, init,
  new, run, index_of, remove_at, callbacks, fail_cleared, replace, worker_at,
}
use alac_bot.RipQueue.Invariant.{IsValid, init-IsValid, run-IsValid}
use alac_bot.RipQueue.Delivery.{completions, outstanding, exactly_once, between}
use alac_bot.RipQueue.Order.{task_calls, Increasing, fifo}
use alac_bot.RipQueue.Drain.{turns, every_item_completes}

abbrev plain : EnqueueOptions
plain = record { on_position_change = true; on_start = true; signal = none }

-- Three submissions; the worker takes the first, the second is aborted, the rest run.
abbrev schedule : List Event
schedule =
    submits plain
    ∷ submits plain
    ∷ submits plain
    ∷ turn 0 (returned 0)
    ∷ aborts 2
    ∷ turn 0 (panicked other_payload)
    ∷ []

abbrev ends : List TaskEnd
ends = returned 1 ∷ returned 1 ∷ returned 1 ∷ returned 1 ∷ returned 1 ∷ returned 1 ∷ returned 1 ∷ []

completions-schedule : completions (run (schedule ++ turns ends) init).1 ≡ 2 ∷ 1 ∷ 3 ∷ []
unfolding run init new index_of remove_at callbacks fail_cleared replace worker_at completions
completions-schedule = refl

starts_in_order : task_calls (run (schedule ++ turns ends) init).1 ≡ 1 ∷ 3 ∷ []
unfolding run init new index_of remove_at callbacks fail_cleared replace worker_at task_calls
starts_in_order = refl

run-IsValid_example : IsValid (run schedule init).0
run-IsValid_example = run-IsValid schedule init init-IsValid (unfold init new in omega arith)

exactly_once_example :
    count 2 (completions (run schedule init).1) + count 2 (outstanding (run schedule init).0)
    ≡ between 1 2 (run schedule init).0.queue.next_id
exactly_once_example = exactly_once schedule 2 (omega arith)

fifo_example : Increasing 1 (task_calls (run schedule init).1)
fifo_example = fifo schedule (omega arith)

every_item_completes_example : count 3 (completions (run (schedule ++ turns ends) init).1) ≡ 1
unfolding run init new index_of remove_at callbacks fail_cleared replace worker_at
every_item_completes_example =
    every_item_completes schedule ends 3 (omega arith) (omega arith) (omega arith) (omega arith)
