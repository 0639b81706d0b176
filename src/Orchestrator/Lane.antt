-- ===== src/Orchestrator/Lane.antt =====
-- crates/engine/src/orchestrator/mod.rs: lane one, which rips the items of a job one after another and
-- hands them on in order. What the ripper and the signals do is chosen by the run; the id of a track,
-- its title and its place in the cache are named by numbers, and progress events are left out.
pub mod Account
pub mod Shape
use alac_bot.Prelude.{
  ℕ, zero, suc, ◌+◌, ◌≡◌, Bool, true, false, not, ◌&&◌, ◌||◌, Option, none, some, List, [], ◌∷◌,
  ◌++◌, if◌then◌else◌, length, max, min, ◌-◌,
}
use alac_bot.Prelude.Text.{Text}
use alac_bot.Prelude.Words.{u64_mod}
use alac_bot.Ripper.Error.{RipError, RipResult, ok, err, error_text}
use alac_bot.Ripper.{TrackRipResult}

pub data Rendition : Type 0 where
  primary atmos : Rendition

pub data Codec : Type 0 where
  alac aac flac ec3 : Codec

abbrev pub is_primary : Rendition → Bool
is_primary primary = true
is_primary atmos = false

-- `CachedTrack`: its codec, and the message of the dump that holds it.
pub record CachedTrack : Type 0 where
  pub codec : Codec
  pub message_id : ℕ

pub record PipelineItem : Type 0 where
  pub track_id : ℕ
  pub storefront : Option Text
  pub meta_title : Option Text
  pub meta_artist : Option Text
  pub is_streamable : Option Bool
  pub rendition : Rendition
  pub cached : Option CachedTrack

pub record PipelineRipResult : Type 0 where
  pub track_id : ℕ
  pub rip_result : TrackRipResult
  pub rendition : Rendition

pub data RipLaneOutcome : Type 0 where
  ripped : PipelineRipResult → RipLaneOutcome
  finished cancelled stop : RipLaneOutcome

pub data OrderedSlot : Type 0 where
  cached_slot : PipelineItem → CachedTrack → OrderedSlot
  fresh : PipelineRipResult → OrderedSlot
  finished_slot : OrderedSlot

pub data FailedTrackKind : Type 0 where
  track_unavailable rendition_unavailable source_offline cancelled timeout : FailedTrackKind
  authentication local_io : FailedTrackKind

pub record FailedTrack : Type 0 where
  pub id : ℕ
  pub error : Text
  pub kind : Option FailedTrackKind
  pub title : Option Text
  pub artist : Option Text
  pub storefront : Option Text

-- A call of `log_request` for a rip that failed; an Atmos track is logged under its codec.
pub record RequestLog : Type 0 where
  pub track_id : ℕ
  pub with_codec : Option Codec
  pub error_reason : Text

pub record LaneState : Type 0 where
  pub failed_tracks : List FailedTrack
  pub failed_count : ℕ
  pub logs : List RequestLog

unfoldable pub kind_of : RipError → Option FailedTrackKind
kind_of (RipError.track_unavailable reason) = some FailedTrackKind.track_unavailable
kind_of (RipError.rendition_unavailable reason) = some FailedTrackKind.rendition_unavailable
kind_of (RipError.source_offline source) = some FailedTrackKind.source_offline
kind_of RipError.cancelled = some FailedTrackKind.cancelled
kind_of (RipError.timeout source detail) = some FailedTrackKind.timeout
kind_of (RipError.authentication source) = some FailedTrackKind.authentication
kind_of (RipError.local_io text) = some FailedTrackKind.local_io
kind_of e = none

-- What a rip on lane one meets: the signal, the ripper, and the signal after it.
pub record Rip : Type 0 where
  pub cancelled_first : Bool
  pub result : RipResult TrackRipResult
  pub cancelled_after : Bool

abbrev pub push_failure : PipelineItem → Text → Option FailedTrackKind → LaneState → LaneState
push_failure item text kind s = record s {
  failed_tracks =
      s.failed_tracks
      ++ record {
        id = item.track_id;
        error = text;
        kind = kind;
        title = item.meta_title;
        artist = item.meta_artist;
        storefront = item.storefront;
      }
        ∷ [];
  failed_count = length s.failed_tracks + 1;
}

abbrev pub log_request : PipelineItem → Text → LaneState → LaneState
log_request item text s = record s {
  logs =
      s.logs
      ++ (record {
        track_id = item.track_id;
        with_codec = if is_primary item.rendition then none else some ec3;
        error_reason = text;
      }
          ∷ []);
}

abbrev pub is_unavailable_rendition : RipError → Bool
is_unavailable_rendition (RipError.rendition_unavailable reason) = true
is_unavailable_rendition e = false

abbrev pub is_unstreamable : PipelineItem → Bool
is_unstreamable item = elim item.is_streamable [ some b ↦ not b | none ↦ false ]

-- `message` is what the provider says of a track that cannot be streamed.
unfoldable pub rip_unstreamable : Text → PipelineItem → LaneState → LaneState
rip_unstreamable message item s =
    if is_primary item.rendition
    then log_request item message
        (push_failure item message (some FailedTrackKind.track_unavailable) s)
    else s

unfoldable pub rip_failed : PipelineItem → RipError → LaneState → LaneState
unfolding error_text kind_of
rip_failed item e s =
    if is_primary item.rendition
    then log_request item (error_text e) (push_failure item (error_text e) (kind_of e) s)
    else if is_unavailable_rendition e
    then s
    else log_request item (error_text e) s

unfoldable pub after_rip :
    PipelineItem → Bool → RipResult TrackRipResult → LaneState → RipLaneOutcome × LaneState
unfolding rip_failed
after_rip item signalled (err e) s =
    if signalled
    then (RipLaneOutcome.cancelled, s)
    else (RipLaneOutcome.finished, rip_failed item e s)
after_rip item signalled (ok result) s = if signalled then (RipLaneOutcome.cancelled, s) else (
  ripped record { track_id = item.track_id; rip_result = result; rendition = item.rendition },
  s,
)

unfoldable pub rip_fresh_item : Text → PipelineItem → Rip → LaneState → RipLaneOutcome × LaneState
unfolding rip_unstreamable after_rip
rip_fresh_item message item r s =
    if r.cancelled_first
    then (RipLaneOutcome.cancelled, s)
    else if is_unstreamable item
    then (RipLaneOutcome.finished, rip_unstreamable message item s)
    else after_rip item r.cancelled_after r.result s

-- An item of lane one: the signal before it, its rip, and whether its slot is sent, which a signal or
-- a dispatcher that is gone prevents.
pub record LaneTurn : Type 0 where
  pub cancelled_at_head : Bool
  pub rip : Rip
  pub sent : Bool

-- The slot of an item; `none` is an item that is finished with, and a lane that ends has no slot.
pub data LaneStep : Type 0 where
  slot : OrderedSlot → LaneStep
  no_slot lane_ends : LaneStep

abbrev pub step_of : RipLaneOutcome → LaneStep
step_of (ripped upload_item) = slot (fresh upload_item)
step_of RipLaneOutcome.finished = no_slot
step_of RipLaneOutcome.cancelled = lane_ends
step_of RipLaneOutcome.stop = lane_ends

unfoldable pub slot_of :
    Text → PipelineItem → Option CachedTrack → Rip → LaneState → LaneStep × LaneState
unfolding rip_fresh_item
slot_of message item (some cached) r s = (slot (cached_slot item cached), s)
slot_of message item none r s =
    (step_of (rip_fresh_item message item r s).0, (rip_fresh_item message item r s).1)

-- What is sent, with the end marker, and the state after it.
abbrev pub sent_first : OrderedSlot → List OrderedSlot × LaneState → List OrderedSlot × LaneState
sent_first x (rest, s) = (x ∷ rest, s)

abbrev pub after_step :
    LaneStep
    → Bool
    → LaneState
    → (LaneState → List OrderedSlot × LaneState)
    → List OrderedSlot × LaneState
after_step (slot x) sent s rest = if sent then sent_first x (rest s) else (finished_slot ∷ [], s)
after_step no_slot sent s rest = rest s
after_step lane_ends sent s rest = (finished_slot ∷ [], s)

unfoldable pub run_lane_one :
    Text → List (PipelineItem × LaneTurn) → LaneState → List OrderedSlot × LaneState
unfolding slot_of
run_lane_one message [] s = (finished_slot ∷ [], s)
run_lane_one message ((item, turn) ∷ items) s =
    if turn.cancelled_at_head
    then (finished_slot ∷ [], s)
    else after_step (slot_of message item item.cached turn.rip s).0 turn.sent
        (slot_of message item item.cached turn.rip s).1 (λ t. run_lane_one message items t)

-- `ordered_slot_capacity`; the addition saturates.
unfoldable pub ordered_slot_capacity : ℕ → ℕ
ordered_slot_capacity n = max (min (n + 1) (u64_mod - 1)) 16
