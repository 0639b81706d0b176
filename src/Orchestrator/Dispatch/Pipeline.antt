-- ===== src/Orchestrator/Dispatch/Pipeline.antt =====
-- crates/engine/src/orchestrator/mod.rs: the slots that lane one sends and the dispatcher that takes
-- them, together.
use alac_bot.Prelude.{
  ℕ, ◌+◌, ◌≤◌, ◌<◌, ◌≡◌, refl, ◌∙◌, Bool, false, Option, none, some, List, [], ◌++◌, length, arith,
}
use alac_bot.Prelude.Text.{Text}
use alac_bot.Prelude.Words.{u64_mod}
use alac_bot.Orchestrator.Lane.{
  PipelineItem, LaneState, LaneTurn, OrderedSlot, ordered_slot_capacity, run_lane_one,
}
use alac_bot.Orchestrator.Lane.Shape.{works, IsClosed, run_lane_one-IsHanded}
use alac_bot.Orchestrator.Dispatch.{
  Dispatch, DispatchTurn, start_dispatch, run_ordered_dispatch, end_dispatch, Settlement,
  marker_enqueued, stopped_unexpectedly, out_of_fuel,
}
use alac_bot.Orchestrator.Dispatch.Order.{begun}
use alac_bot.Orchestrator.Dispatch.Loop.{Ended, dispatch_loop-Ended}

-- The job is settled by its marker, after work that was begun in the order of `whole`, up to where the
-- dispatcher stopped, if it did.
abbrev pub IsSettled : List OrderedSlot → Settlement → Type 0
IsSettled whole (marker_enqueued s) =
    (rest : List OrderedSlot) × (begun s.calls ++ rest ≡ whole)
    × (s.stop_dispatch ≡ false → rest ≡ [])
IsSettled whole stopped_unexpectedly = ⊥
IsSettled whole out_of_fuel = ⊥

end_dispatch-IsSettled :
    (capacity : ℕ) (whole : List OrderedSlot) (c : Bool) (x : Option Dispatch)
    → Ended capacity whole x
    → IsSettled whole (end_dispatch c x)
unfolding end_dispatch
end_dispatch-IsSettled capacity whole c none h = h
end_dispatch-IsSettled capacity whole c (some s) ((rest, sum, still), nothing, finished) =
    rw finished (rest, sum, λ g. still g ∙ nothing)

-- If the slots end with the marker and are not more than the capacity, the dispatcher always gets to
-- enqueue the finalization, whatever is cancelled or fails. It begins the work of the slots in their
-- order, leaves none out before it stops, and if it does not stop begins them all.
run_ordered_dispatch-IsSettled :
    (capacity : ℕ) (turns : ℕ → DispatchTurn) (c : Bool) (slots : List OrderedSlot)
    → IsClosed slots
    → length (works slots) ≤ capacity
    → IsSettled (works slots) (run_ordered_dispatch capacity turns c slots)
unfolding run_ordered_dispatch
run_ordered_dispatch-IsSettled capacity turns c slots closed room =
    end_dispatch-IsSettled capacity (works slots) c _ (
      dispatch_loop-Ended capacity (length slots + 1) turns 0 (works slots) (start_dispatch slots)
        (omega arith) record { work = tt; ending = closed; room = room }
        (works slots, refl, λ _. refl))

ordered_slot_capacity-le : (n : ℕ) → n < u64_mod → n ≤ ordered_slot_capacity n
unfolding ordered_slot_capacity
ordered_slot_capacity-le n h = omega arith

-- Whatever items a job has, and whatever is cancelled or fails on either side, the dispatcher with
-- the capacity that is chosen for that many items gets to enqueue the finalization. Before that it
-- has begun the work of the slots that lane one sent, in the order in which they were sent, up to
-- where the dispatcher stopped, and of all of them if it did not stop.
pub run_lane_one-IsSettled :
    (message : Text) (items : List (PipelineItem × LaneTurn)) (s : LaneState)
    (turns : ℕ → DispatchTurn) (c : Bool)
    → length items < u64_mod
    → IsSettled (works (run_lane_one message items s).0) (
        run_ordered_dispatch
          (ordered_slot_capacity (length items))
          turns
          c
          (run_lane_one message items s).0)
run_lane_one-IsSettled message items s turns c few =
    let handed = run_lane_one-IsHanded message items s in
    run_ordered_dispatch-IsSettled (ordered_slot_capacity (length items)) turns c _ handed.0
      (omega (arith, handed.1, ordered_slot_capacity-le (length items) few))
