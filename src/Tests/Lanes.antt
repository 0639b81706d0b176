-- ===== src/Tests/Lanes.antt =====
-- crates/engine/src/orchestrator/mod.rs: the two lanes of a job of four items.
use alac_bot.Prelude.{
  ℕ, zero, suc, ◌+◌, ◌≡◌, refl, arith, true, false, Option, none, some, List, [], ◌∷◌, count, inr,
}
use alac_bot.Prelude.Integers.{pos}
use alac_bot.Prelude.Text.{codes}
use alac_bot.Ripper.Error.{RipError, RipResult}
use alac_bot.Ripper.{TrackRipResult}
use alac_bot.Orchestrator.Storage.{
  StorageRetryPolicy, TrackCacheOperation, Reply, value, error, unavailable,
  find_cached_tracks_with_retry,
}
use alac_bot.Orchestrator.Storage.Attempts.{IsAnswered, find_cached_tracks_with_retry-IsAnswered}
use alac_bot.Orchestrator.Lane.{
  primary, alac, PipelineItem, CachedTrack, LaneState, LaneTurn, run_lane_one,
  ordered_slot_capacity, RipLaneOutcome, OrderedSlot,
}
use alac_bot.Orchestrator.Lane.Account.{slot_ids, failed_ids, item_ids, run_lane_one-IsAccounted}
use alac_bot.Orchestrator.Lane.Shape.{works}
use alac_bot.Orchestrator.Cached.{
  Meets, copy_failed, stored, CacheState, resolve_cached_item, job_context,
}
use alac_bot.Orchestrator.Cached.Outcome.{
  IsResolved, copies, staged, counted, resolve_cached_item-IsResolved,
}
use alac_bot.Orchestrator.Dispatch.{
  hit, DispatchTurn, answered, rerip, outcome, run_ordered_dispatch,
}
use alac_bot.Orchestrator.Dispatch.Pipeline.{IsSettled, run_lane_one-IsSettled}
use alac_bot.Orchestrator.Dispatch.Smooth.{IsSmooth, IsComplete, run_ordered_dispatch-IsComplete}

abbrev item : ℕ → Option CachedTrack → PipelineItem
item n cached = record {
  track_id = n;
  storefront = none;
  meta_title = some (codes "Song");
  meta_artist = none;
  is_streamable = none;
  rendition = primary;
  cached = cached;
}

abbrev result : TrackRipResult
result = record {
  file_path = codes "a.m4a";
  title = codes "Song";
  artist = codes "Singer";
  album = codes "Album";
  duration = pos 200;
  bit_depth = 24;
  sample_rate = 96000;
  codec = codes "alac";
  genre = codes "Pop";
  release_date = codes "2020";
  track_number = pos 1;
  track_count = pos 1;
  isrc = none;
}

abbrev ripping : RipResult TrackRipResult → LaneTurn
ripping r = record {
  cancelled_at_head = false;
  rip = record { cancelled_first = false; result = r; cancelled_after = false };
  sent = true;
}

-- The second is in the cache, the third fails, and the fourth cannot be streamed.
abbrev items : List (PipelineItem × LaneTurn)
items =
    (item 1 none, ripping (RipResult.ok result))
    ∷ (item 2 (some (record { codec = alac; message_id = 9 })), ripping (RipResult.ok result))
    ∷ (item 3 none, ripping (RipResult.err (RipError.track_unavailable [])))
    ∷ (record (item 4 none) { is_streamable = some false }, ripping (RipResult.ok result))
    ∷ []

abbrev empty_lane : LaneState
empty_lane = record { failed_tracks = []; failed_count = 0; logs = [] }

lane_test :
    (slot_ids (run_lane_one [] items empty_lane).0 ≡ 1 ∷ 2 ∷ [])
    × (failed_ids (run_lane_one [] items empty_lane).1.failed_tracks ≡ 3 ∷ 4 ∷ [])
    × ((run_lane_one [] items empty_lane).1.failed_count ≡ 2)
unfolding run_lane_one
lane_test = (refl, refl, refl)

run_lane_one-IsAccounted_example :
    count 3 (slot_ids (run_lane_one [] items empty_lane).0)
      + count 3 (failed_ids (run_lane_one [] items empty_lane).1.failed_tracks)
    ≡ count 3 (item_ids items) + count 3 (failed_ids empty_lane.failed_tracks)
run_lane_one-IsAccounted_example = run_lane_one-IsAccounted 3 [] items empty_lane (
  (refl, refl, refl, refl),
  ((refl, refl, refl, refl), ((refl, refl, refl, refl), ((refl, refl, refl, refl), tt))),
)

-- A cached copy that is gone, replaced by a rip, while later slots arrive.
abbrev replacing : DispatchTurn
replacing = record {
  cancelled_at_head = false;
  pushed = true;
  cancelled_unpushed = false;
  drained = 2;
  cache_wait = answered rerip;
  rerip_drained = 3;
  cancelled_waiting = false;
  completion = outcome RipLaneOutcome.finished;
  cancelled_completed = false;
  fallback_pushed = true;
  cancelled_fallback = false;
}

run_lane_one-IsSettled_example : IsSettled (works (run_lane_one [] items empty_lane).0) (
    run_ordered_dispatch
      (ordered_slot_capacity 4)
      (λ i. replacing)
      false
      (run_lane_one [] items empty_lane).0)
run_lane_one-IsSettled_example =
    run_lane_one-IsSettled [] items empty_lane (λ i. replacing) false (omega arith)

abbrev slots : List OrderedSlot
slots =
    OrderedSlot.cached_slot (item 2 none) record { codec = alac; message_id = 9 }
    ∷ OrderedSlot.fresh record { track_id = 1; rip_result = result; rendition = primary }
    ∷ OrderedSlot.finished_slot
    ∷ []

replacing-IsSmooth : (j : ℕ) → IsSmooth replacing
replacing-IsSmooth j = record {
  head = refl;
  pushed = refl;
  cache = inr (refl, (RipLaneOutcome.finished, refl, tt), refl, refl);
}

run_ordered_dispatch-IsComplete_example :
    IsComplete (works slots) (run_ordered_dispatch 16 (λ i. replacing) false slots)
run_ordered_dispatch-IsComplete_example =
    run_ordered_dispatch-IsComplete 16 (λ i. replacing) false slots replacing-IsSmooth refl
      (omega arith)

abbrev meets : Meets
meets = record {
  cancelled_first = false;
  copy = copy_failed [];
  cancelled_copied = false;
  log_cancelled = false;
  cancelled_logged = false;
  filename = codes "01.m4a";
  materialized = stored;
  file_removed = true;
  cancelled_stored = false;
  metadata = some 1000;
  cancelled_last = false;
}

abbrev nothing_cached : CacheState
nothing_cached = record {
  delivered = [];
  delete_calls = 0;
  logs = 0;
  files = [];
  sources = [];
  codec = none;
  first_delivered_msg_id = none;
  cached_count = 0;
}

abbrev cached_alac : CachedTrack
cached_alac = record { codec = alac; message_id = 9 }

-- In an album the copy is not asked for, and the file is staged.
cached_test :
    resolve_cached_item
      (job_context true false (λ r. false) (λ r. true))
      meets
      (item 1 none)
      cached_alac
      nothing_cached
    ≡ (
      hit,
      record nothing_cached {
        logs = 1;
        files = codes "01.m4a" ∷ [];
        sources = (codes "01.m4a", 1000) ∷ [];
        codec = some alac;
        cached_count = 1;
      },
    )
unfolding resolve_cached_item job_context
cached_test = refl

resolve_cached_item-IsResolved_example :
    let x =
      resolve_cached_item
        (job_context false false (λ r. false) (λ r. true))
        meets
        (item 1 none)
        cached_alac
        nothing_cached in
    IsResolved meets
      (copies false false)
      (staged false (λ r. false) (λ r. true) primary)
      (counted primary)
      x.0
      nothing_cached
      x.1
resolve_cached_item-IsResolved_example =
    resolve_cached_item-IsResolved false false (λ r. false) (λ r. true) meets (item 1 none)
      cached_alac nothing_cached refl

-- The track cache is unavailable twice and then answers; after three attempts no other is made.
abbrev pub busy_twice : ℕ → Reply ℕ
busy_twice zero = error (unavailable TrackCacheOperation.find [])
busy_twice (suc zero) = error (unavailable TrackCacheOperation.find [])
busy_twice (suc (suc n)) = value 7

abbrev pub default_policy : StorageRetryPolicy
default_policy = record { total_attempts = 3; base_delay_ms = 500 }

busy_test :
    find_cached_tracks_with_retry default_policy busy_twice ≡ some (value 7, 500 ∷ 1000 ∷ [])
unfolding find_cached_tracks_with_retry
busy_test = refl

find_cached_tracks_with_retry-IsAnswered_example :
    IsAnswered default_policy busy_twice 0 2
      (find_cached_tracks_with_retry default_policy busy_twice)
find_cached_tracks_with_retry-IsAnswered_example =
    find_cached_tracks_with_retry-IsAnswered default_policy busy_twice
