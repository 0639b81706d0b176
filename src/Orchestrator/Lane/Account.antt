-- ===== src/Orchestrator/Lane/Account.antt =====
-- crates/engine/src/orchestrator/mod.rs: what lane one makes of each of its items.
use alac_bot.Prelude.{
  ℕ, ◌+◌, ◌≡◌, refl, Bool, true, false, Option, none, some, List, [], ◌∷◌, ◌++◌, if◌then◌else◌,
  arith, count, count-append, append-nil, ◌⊎◌, All, Bool-cases, inl, inr,
}
use alac_bot.Prelude.Text.{Text}
use alac_bot.Ripper.Error.{RipError, RipResult, ok, err}
use alac_bot.Ripper.{TrackRipResult}
use alac_bot.Orchestrator.Lane.{
  Rendition, primary, atmos, CachedTrack, PipelineItem, OrderedSlot, cached_slot, fresh,
  finished_slot, FailedTrack, LaneState, Rip, LaneTurn, LaneStep, slot, no_slot, lane_ends, slot_of,
  step_of, after_step, run_lane_one, rip_fresh_item, after_rip, rip_failed, rip_unstreamable,
  is_unstreamable, is_unavailable_rendition,
}

-- The ids of the primary tracks among the items, the slots and the failures.
abbrev pub primary_id : Rendition → ℕ → List ℕ
primary_id primary id = id ∷ []
primary_id atmos id = []

abbrev pub item_ids : List (PipelineItem × LaneTurn) → List ℕ
item_ids [] = []
item_ids ((item, turn) ∷ items) = primary_id item.rendition item.track_id ++ item_ids items

abbrev pub slot_ids : List OrderedSlot → List ℕ
slot_ids [] = []
slot_ids (cached_slot item cached ∷ slots) =
    primary_id item.rendition item.track_id ++ slot_ids slots
slot_ids (fresh r ∷ slots) = primary_id r.rendition r.track_id ++ slot_ids slots
slot_ids (finished_slot ∷ slots) = slot_ids slots

abbrev pub failed_ids : List FailedTrack → List ℕ
failed_ids [] = []
failed_ids (f ∷ failures) = f.id ∷ failed_ids failures

failed_ids-append : (a b : List FailedTrack) → failed_ids (a ++ b) ≡ failed_ids a ++ failed_ids b
failed_ids-append [] b = refl
failed_ids-append (f ∷ a) b = rw (failed_ids-append a b) refl

step_ids : LaneStep → List ℕ
step_ids (slot x) = slot_ids (x ∷ [])
step_ids no_slot = []
step_ids lane_ends = []

-- A turn in which nothing is cancelled, and a slot that there is is sent.
abbrev pub IsUncut : LaneTurn → Type 0
IsUncut t =
    (t.cancelled_at_head ≡ false)
    × (t.rip.cancelled_first ≡ false)
    × (t.rip.cancelled_after ≡ false)
    × (t.sent ≡ true)

-- What becomes of one item: it goes on or it has failed, if it is a primary one.
abbrev IsAccounted : ℕ → PipelineItem → LaneStep → LaneState → LaneState → Type 0
IsAccounted n item lane_ends s t = ⊥
IsAccounted n item x s t =
    count n (step_ids x) + count n (failed_ids t.failed_tracks)
    ≡ count n (primary_id item.rendition item.track_id) + count n (failed_ids s.failed_tracks)

failed_once :
    (n : ℕ) (failures : List FailedTrack) (f : FailedTrack)
    → count n (failed_ids (failures ++ (f ∷ [])))
      ≡ count n (f.id ∷ []) + count n (failed_ids failures)
failed_once n failures f =
    rw (failed_ids-append failures (f ∷ []))
      (omega (arith, count-append n (failed_ids failures) (f.id ∷ [])))

Rendition-cases : (r : Rendition) → (r ≡ primary) ⊎ (r ≡ atmos)
Rendition-cases primary = inl refl
Rendition-cases atmos = inr refl

rip_failed-IsAccounted :
    (n : ℕ) (item : PipelineItem) (e : RipError) (s : LaneState)
    → count n (failed_ids (rip_failed item e s).failed_tracks)
      ≡ count n (primary_id item.rendition item.track_id) + count n (failed_ids s.failed_tracks)
unfolding rip_failed
rip_failed-IsAccounted n item e s = elim (Rendition-cases item.rendition) [
  | inl h ↦ rw h (failed_once n s.failed_tracks _)
  | inr h ↦ rw h (quiet (is_unavailable_rendition e) s _ refl)
]
  where
    quiet :
        (b : Bool) (x y : LaneState)
        → y.failed_tracks ≡ x.failed_tracks
        → count n (failed_ids (if b then x else y).failed_tracks)
          ≡ 0 + count n (failed_ids x.failed_tracks)
    quiet true x y q = omega arith
    quiet false x y q = rw q (omega arith)

rip_unstreamable-IsAccounted :
    (n : ℕ) (message : Text) (item : PipelineItem) (s : LaneState)
    → count n (failed_ids (rip_unstreamable message item s).failed_tracks)
      ≡ count n (primary_id item.rendition item.track_id) + count n (failed_ids s.failed_tracks)
unfolding rip_unstreamable
rip_unstreamable-IsAccounted n message item s = elim (Rendition-cases item.rendition) [
  | inl h ↦ rw h (failed_once n s.failed_tracks _)
  | inr h ↦ rw h (omega arith)
]

after_rip-IsAccounted :
    (n : ℕ) (item : PipelineItem) (r : RipResult TrackRipResult) (s : LaneState)
    → IsAccounted n item (step_of (after_rip item false r s).0) s (after_rip item false r s).1
unfolding after_rip step_ids
after_rip-IsAccounted n item (err e) s = omega (arith, rip_failed-IsAccounted n item e s)
after_rip-IsAccounted n item (ok result) s =
    rw (append-nil (primary_id item.rendition item.track_id)) refl

rip_fresh_item-IsAccounted :
    (n : ℕ) (message : Text) (item : PipelineItem) (r : Rip) (s : LaneState)
    → r.cancelled_first ≡ false
    → r.cancelled_after ≡ false
    → IsAccounted n item
        (step_of (rip_fresh_item message item r s).0)
        s
        (rip_fresh_item message item r s).1
unfolding rip_fresh_item step_ids
rip_fresh_item-IsAccounted n message item r s c d = elim (Bool-cases (is_unstreamable item)) [
  | inl h ↦ rw (c, h) (omega (arith, rip_unstreamable-IsAccounted n message item s))
  | inr h ↦ rw (c, h, d) (after_rip-IsAccounted n item r.result s)
]

slot_of-IsAccounted :
    (n : ℕ) (message : Text) (item : PipelineItem) (cached : Option CachedTrack) (r : Rip)
    (s : LaneState)
    → r.cancelled_first ≡ false
    → r.cancelled_after ≡ false
    → IsAccounted n item (slot_of message item cached r s).0 s (slot_of message item cached r s).1
unfolding slot_of step_ids
slot_of-IsAccounted n message item (some c) r s p q =
    rw (append-nil (primary_id item.rendition item.track_id)) refl
slot_of-IsAccounted n message item none r s p q = rip_fresh_item-IsAccounted n message item r s p q

count-slot_ids :
    (n : ℕ) (x : OrderedSlot) (slots : List OrderedSlot)
    → count n (slot_ids (x ∷ slots)) ≡ count n (slot_ids (x ∷ [])) + count n (slot_ids slots)
count-slot_ids n (cached_slot i c) slots =
    rw (append-nil (primary_id i.rendition i.track_id)) (count-append n _ (slot_ids slots))
count-slot_ids n (fresh r) slots =
    rw (append-nil (primary_id r.rendition r.track_id)) (count-append n _ (slot_ids slots))
count-slot_ids n finished_slot slots = omega arith

after_step-IsAccounted :
    (n : ℕ) (item : PipelineItem) (x : LaneStep) (s t : LaneState)
    (items : List (PipelineItem × LaneTurn)) (rest : LaneState → List OrderedSlot × LaneState)
    → IsAccounted n item x s t
    → count n (slot_ids (rest t).0) + count n (failed_ids (rest t).1.failed_tracks)
      ≡ count n (item_ids items) + count n (failed_ids t.failed_tracks)
    → count n (slot_ids (after_step x true t rest).0)
        + count n (failed_ids (after_step x true t rest).1.failed_tracks)
      ≡ count n (primary_id item.rendition item.track_id ++ item_ids items)
        + count n (failed_ids s.failed_tracks)
unfolding step_ids
after_step-IsAccounted n item (slot x) s t items rest h k = omega (
  arith,
  h,
  k,
  count-slot_ids n x (rest t).0,
  count-append n (primary_id item.rendition item.track_id) (item_ids items),
)
after_step-IsAccounted n item no_slot s t items rest h k =
    omega (arith, h, k, count-append n (primary_id item.rendition item.track_id) (item_ids items))
after_step-IsAccounted n item lane_ends s t items rest h k = absurd h

-- If nothing is cancelled and every slot is sent, each primary track of the items is either in a slot
-- or among the failures, as often as it stands among the items, and no failure is of another track.
pub run_lane_one-IsAccounted :
    (n : ℕ) (message : Text) (items : List (PipelineItem × LaneTurn)) (s : LaneState)
    → All (λ (x : PipelineItem × LaneTurn). IsUncut x.1) items
    → count n (slot_ids (run_lane_one message items s).0)
        + count n (failed_ids (run_lane_one message items s).1.failed_tracks)
      ≡ count n (item_ids items) + count n (failed_ids s.failed_tracks)
unfolding run_lane_one
run_lane_one-IsAccounted n message [] s h = omega arith
run_lane_one-IsAccounted n message ((item, turn) ∷ items) s ((a, b, c, d), h) =
    rw (a, d)
      (after_step-IsAccounted n item (slot_of message item item.cached turn.rip s).0 s
        (slot_of message item item.cached turn.rip s).1 items (λ t. run_lane_one message items t)
        (slot_of-IsAccounted n message item item.cached turn.rip s b c)
        (run_lane_one-IsAccounted n message items _ h))
