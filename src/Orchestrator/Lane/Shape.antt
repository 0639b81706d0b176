-- ===== src/Orchestrator/Lane/Shape.antt =====
-- crates/engine/src/orchestrator/mod.rs: the slots that lane one sends, and its end marker.
use alac_bot.Prelude.{
  ℕ, suc, ◌≤◌, ◌≡◌, refl, Bool, true, false, Option, none, some, List, [], ◌∷◌, length, arith,
  Bool-cases, inl, inr,
}
use alac_bot.Prelude.Text.{Text}
use alac_bot.Orchestrator.Lane.{
  CachedTrack, PipelineItem, RipLaneOutcome, ripped, OrderedSlot, cached_slot, fresh, finished_slot,
  LaneState, Rip, LaneTurn, LaneStep, slot, no_slot, lane_ends, slot_of, step_of, after_step,
  run_lane_one, rip_fresh_item,
}

-- The slots that carry an item.
abbrev pub works : List OrderedSlot → List OrderedSlot
works [] = []
works (finished_slot ∷ slots) = works slots
works (x ∷ slots) = x ∷ works slots

-- The end marker stands at the end, and only there.
abbrev pub IsClosed : List OrderedSlot → Type 0
IsClosed [] = ⊥
IsClosed (finished_slot ∷ slots) = slots ≡ []
IsClosed (x ∷ slots) = IsClosed slots

abbrev pub is_work : OrderedSlot → Bool
is_work finished_slot = false
is_work x = true

abbrev IsWork : LaneStep → Type 0
IsWork (slot x) = is_work x ≡ true
IsWork x = Unit

slot_of-IsWork :
    (message : Text) (item : PipelineItem) (cached : Option CachedTrack) (r : Rip) (s : LaneState)
    → IsWork (slot_of message item cached r s).0
unfolding slot_of
slot_of-IsWork message item (some c) r s = refl
slot_of-IsWork message item none r s = outcome (rip_fresh_item message item r s).0
  where
    outcome : (x : RipLaneOutcome) → IsWork (step_of x)
    outcome (ripped r) = refl
    outcome RipLaneOutcome.finished = tt
    outcome RipLaneOutcome.cancelled = tt
    outcome RipLaneOutcome.stop = tt

-- The slots end with the marker, and carry at most so many items.
abbrev pub IsHanded : ℕ → List OrderedSlot → Type 0
IsHanded n slots = IsClosed slots × (length (works slots) ≤ n)

after_step-IsHanded :
    (n : ℕ) (x : LaneStep) (sent : Bool) (t : LaneState)
    (rest : LaneState → List OrderedSlot × LaneState)
    → IsWork x
    → IsHanded n (rest t).0
    → IsHanded (suc n) (after_step x sent t rest).0
after_step-IsHanded n (slot (cached_slot i c)) true t rest w h = (h.0, omega (arith, h.1))
after_step-IsHanded n (slot (fresh r)) true t rest w h = (h.0, omega (arith, h.1))
after_step-IsHanded n (slot finished_slot) true t rest w h = ground (arith, w)
after_step-IsHanded n (slot x) false t rest w h = (refl, omega arith)
after_step-IsHanded n no_slot sent t rest w h = (h.0, omega (arith, h.1))
after_step-IsHanded n lane_ends sent t rest w h = (refl, omega arith)

-- Whatever happens, lane one sends an end marker after all its slots, of which there are at most as
-- many as items.
pub run_lane_one-IsHanded :
    (message : Text) (items : List (PipelineItem × LaneTurn)) (s : LaneState)
    → IsHanded (length items) (run_lane_one message items s).0
unfolding run_lane_one
run_lane_one-IsHanded message [] s = (refl, omega arith)
run_lane_one-IsHanded message ((item, turn) ∷ items) s = elim (Bool-cases turn.cancelled_at_head) [
  | inl h ↦ rw h (refl, omega arith)
  | inr h ↦ rw h (
      after_step-IsHanded (length items) (slot_of message item item.cached turn.rip s).0 turn.sent
        (slot_of message item item.cached turn.rip s).1 (λ t. run_lane_one message items t)
        (slot_of-IsWork message item item.cached turn.rip s)
        (run_lane_one-IsHanded message items _))
]
