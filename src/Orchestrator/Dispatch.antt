-- ===== src/Orchestrator/Dispatch.antt =====
-- crates/engine/src/orchestrator/mod.rs: `run_ordered_dispatch`, which takes the slots of lane one in
-- order, hands their work to the global lane, and while it waits for a cached copy or for a rip that
-- replaces it keeps the later slots in a buffer. The channel is the list of the slots still to come,
-- and closes after them. What the lane, the queue and the signals do is a turn for each slot; how many
-- slots arrive during a wait is part of it.
pub mod Waits
pub mod Order
pub mod Loop
pub mod Pipeline
pub mod Smooth
use alac_bot.Prelude.{
  ℕ, zero, suc, ◌+◌, ◌≡◌, Bool, true, false, not, ◌&&◌, ◌||◌, Option, none, some, List, [], ◌∷◌,
  ◌++◌, if◌then◌else◌, length, ltb,
}
use alac_bot.Prelude.Text.{Text, codes}
use alac_bot.Orchestrator.Lane.{
  CachedTrack, PipelineItem, PipelineRipResult, RipLaneOutcome, ripped, OrderedSlot, cached_slot,
  fresh, finished_slot,
}

pub data CacheResolution : Type 0 where
  hit rerip cancelled : CacheResolution
  failed : Text → CacheResolution

-- What comes of the wait for a cached copy.
pub data CacheWait : Type 0 where
  answered : CacheResolution → CacheWait
  channel_closed job_cancelled : CacheWait

-- What the queue sends for a rip that replaces a cached copy.
pub data Completion : Type 0 where
  outcome : RipLaneOutcome → Completion
  invalid queue_gone : Completion
  queue_error : Text → Completion

-- What the dispatcher asks of the other parts, in order.
pub data Call : Type 0 where
  upload fallback_upload : PipelineRipResult → Call
  resolve_cached : PipelineItem → CachedTrack → Call
  submit_rerip : PipelineItem → Call

pub record Dispatch : Type 0 where
  pub slots : List OrderedSlot
  pub buffered : List OrderedSlot
  pub received_finished : Bool
  pub stop_dispatch : Bool
  pub fatal_error : Option Text
  pub calls : List Call

pub record DispatchTurn : Type 0 where
  pub cancelled_at_head : Bool
  -- the upload, or the cached copy, reaches the lane; the job is cancelled when it does not
  pub pushed : Bool
  pub cancelled_unpushed : Bool
  -- the wait for the cached copy, and how many slots arrive during it
  pub drained : ℕ
  pub cache_wait : CacheWait
  -- the wait for the rip, whether the job is cancelled during it, and whether it is when it ends
  pub rerip_drained : ℕ
  pub cancelled_waiting : Bool
  pub completion : Completion
  pub cancelled_completed : Bool
  -- the upload of that rip
  pub fallback_pushed : Bool
  pub cancelled_fallback : Bool

unfoldable pub set_fatal_error : Text → Option Text → Option Text
set_fatal_error text none = some text
set_fatal_error text (some first) = some first

-- What a wait makes of the channel and the buffer; `closed` if the channel closes before its marker.
pub record Drain : Type 0 where
  pub slots : List OrderedSlot
  pub buffered : List OrderedSlot
  pub received_finished : Bool
  pub fatal_error : Option Text
  pub closed : Bool

module _ (ordered_capacity : ℕ) where
  -- `n` slots arrive; none is asked for after the marker.
  unfoldable pub drain : Text → ℕ → Bool → List OrderedSlot → List OrderedSlot → Option Text → Drain
  unfolding set_fatal_error
  drain text zero received slots buffered fatal = record {
    slots = slots;
    buffered = buffered;
    received_finished = received;
    fatal_error = fatal;
    closed = false;
  }
  drain text (suc n) true slots buffered fatal = record {
    slots = slots;
    buffered = buffered;
    received_finished = true;
    fatal_error = fatal;
    closed = false;
  }
  drain text (suc n) false [] buffered fatal = record {
    slots = [];
    buffered = buffered;
    received_finished = false;
    fatal_error = fatal;
    closed = true;
  }
  drain text (suc n) false (finished_slot ∷ slots) buffered fatal =
      drain text n true slots buffered fatal
  drain text (suc n) false (x ∷ slots) buffered fatal =
      drain text n false slots
        (if ltb (length buffered) ordered_capacity then buffered ++ (x ∷ []) else buffered)
        (if ltb (length buffered) ordered_capacity then fatal else set_fatal_error text fatal)

  abbrev drained_state : Drain → Dispatch → Dispatch
  drained_state d s = record s {
    slots = d.slots;
    buffered = d.buffered;
    received_finished = d.received_finished;
    fatal_error = d.fatal_error;
  }

  abbrev fatal : Text → Dispatch → Dispatch
  fatal text s = record s { fatal_error = set_fatal_error text s.fatal_error }

  abbrev stopped : Dispatch → Dispatch
  stopped s = record s { stop_dispatch = true }

  abbrev called : Call → Dispatch → Dispatch
  called c s = record s { calls = s.calls ++ (c ∷ []) }

  -- `wait_for_cache_resolution`
  abbrev pub cache_answer : Bool → CacheWait → CacheResolution
  cache_answer true w = failed (codes "ordered dispatcher stopped before its finish marker")
  cache_answer false (answered r) = r
  cache_answer false channel_closed = failed (codes "cached result channel closed unexpectedly")
  cache_answer false job_cancelled = CacheResolution.cancelled

  abbrev pub cache_full : Text
  cache_full = codes "ordered dispatcher buffer exhausted while resolving cache"

  abbrev pub rerip_full : Text
  rerip_full = codes "ordered dispatcher buffer exhausted while reripping"

  abbrev pub cache_drain : DispatchTurn → Dispatch → Drain
  cache_drain t s = drain cache_full t.drained s.received_finished s.slots s.buffered s.fatal_error

  abbrev pub rerip_drain : DispatchTurn → Dispatch → Drain
  rerip_drain t s =
      drain rerip_full t.rerip_drained s.received_finished s.slots s.buffered s.fatal_error

  -- `ordered_rerip_result`: the outcome, and the error that becomes fatal.
  unfoldable pub ordered_rerip_result : Completion → Bool → RipLaneOutcome × Option Text
  ordered_rerip_result (outcome o) cancelled_now = (o, none)
  ordered_rerip_result invalid cancelled_now =
      (RipLaneOutcome.stop, some (codes "ordered fallback rip returned an invalid result"))
  ordered_rerip_result (queue_error text) cancelled_now =
      if cancelled_now
      then (RipLaneOutcome.cancelled, none)
      else (RipLaneOutcome.stop, some (codes "ordered fallback rip failed: " ++ text))
  ordered_rerip_result queue_gone cancelled_now =
      if cancelled_now
      then (RipLaneOutcome.cancelled, none)
      else (RipLaneOutcome.stop, some (codes "ordered fallback rip queue stopped unexpectedly"))

  -- `wait_for_ordered_rerip`, after what it has drained
  unfoldable pub rerip_answer : DispatchTurn → Bool → RipLaneOutcome × Option Text
  unfolding ordered_rerip_result
  rerip_answer t true =
      if t.cancelled_waiting
      then (RipLaneOutcome.cancelled, none)
      else (RipLaneOutcome.stop, some (codes "ordered dispatcher stopped before its finish marker"))
  rerip_answer t false =
      let (o, error) = ordered_rerip_result t.completion t.cancelled_completed in
      (if t.cancelled_waiting then RipLaneOutcome.cancelled else o, error)

  abbrev fatal_if : Option Text → Dispatch → Dispatch
  fatal_if none s = s
  fatal_if (some text) s = fatal text s

  -- After an upload that was, or was not, pushed.
  abbrev pub after_push : Text → Bool → Bool → Dispatch → Dispatch
  after_push text pushed cancelled_now s =
      if pushed then s else stopped (if cancelled_now then s else fatal text s)

  unfoldable pub after_rerip : DispatchTurn → RipLaneOutcome → Dispatch → Dispatch
  unfolding set_fatal_error
  after_rerip t (ripped r) s =
      after_push (codes "ordered fallback upload could not be queued") t.fallback_pushed
        t.cancelled_fallback (called (fallback_upload r) s)
  after_rerip t RipLaneOutcome.finished s = s
  after_rerip t RipLaneOutcome.cancelled s = stopped s
  after_rerip t RipLaneOutcome.stop s = stopped s

  unfoldable pub rerip_item : DispatchTurn → PipelineItem → Dispatch → Dispatch
  unfolding drain set_fatal_error rerip_answer after_rerip
  rerip_item t item s =
      let asked = called (submit_rerip (record item { cached = none })) s in
      let d = rerip_drain t asked in
      let answer = rerip_answer t d.closed in
      after_rerip t answer.0 (fatal_if answer.1 (drained_state d asked))

  unfoldable pub after_cache : DispatchTurn → PipelineItem → CacheResolution → Dispatch → Dispatch
  unfolding set_fatal_error rerip_item
  after_cache t item hit s = s
  after_cache t item (failed text) s = fatal text s
  after_cache t item CacheResolution.cancelled s = stopped s
  after_cache t item rerip s = rerip_item t item s

  -- `enqueue_cached_lane_task`, the wait, and what follows it
  unfoldable pub handle_cached : DispatchTurn → PipelineItem → Dispatch → Dispatch
  unfolding drain after_cache
  handle_cached t item s =
      if t.pushed
      then after_cache t item (cache_answer (cache_drain t s).closed t.cache_wait)
          (drained_state (cache_drain t s) s)
      else after_cache t item
          (if t.cancelled_unpushed
            then CacheResolution.cancelled
            else failed (codes "cached lane task could not be queued"))
          s

  unfoldable pub handle : DispatchTurn → OrderedSlot → Dispatch → Dispatch
  unfolding set_fatal_error handle_cached
  handle t (fresh r) s =
      after_push (codes "ordered upload could not be queued") t.pushed t.cancelled_unpushed
        (called (upload r) s)
  handle t (cached_slot item c) s = handle_cached t item (called (resolve_cached item c) s)
  handle t finished_slot s = s

  unfoldable pub on_slot : DispatchTurn → OrderedSlot → Dispatch → Dispatch
  unfolding handle
  on_slot t finished_slot s = record s { received_finished = true }
  on_slot t x s = if s.stop_dispatch || t.cancelled_at_head then stopped s else handle t x s

  -- The next slot: of the buffer first, then of the channel, unless its marker has been received.
  abbrev pub next_slot :
      List OrderedSlot → Bool → List OrderedSlot → Dispatch → Option (OrderedSlot × Dispatch)
  next_slot (x ∷ buffered) received slots s = some (x, record s { buffered = buffered })
  next_slot [] true slots s = none
  next_slot [] false [] s = none
  next_slot [] false (x ∷ slots) s = some (x, record s { slots = slots })

  abbrev pub loop_step :
      Option (OrderedSlot × Dispatch)
      → DispatchTurn
      → Dispatch
      → (Dispatch → Option Dispatch)
      → Option Dispatch
  loop_step none t s again = some s
  loop_step (some (x, after)) t s again = again (on_slot t x after)

  -- The loop, on fuel: `none` when it is used up.
  unfoldable pub dispatch_loop : ℕ → (ℕ → DispatchTurn) → ℕ → Dispatch → Option Dispatch
  unfolding on_slot
  dispatch_loop zero turns i s = none
  dispatch_loop (suc fuel) turns i s =
      loop_step (next_slot s.buffered s.received_finished s.slots s) (turns i) s
        (λ after. dispatch_loop fuel turns (i + 1) after)

abbrev pub start_dispatch : List OrderedSlot → Dispatch
start_dispatch slots = record {
  slots = slots;
  buffered = [];
  received_finished = false;
  stop_dispatch = false;
  fatal_error = none;
  calls = [];
}

-- How the dispatcher settles the job: by the marker, which finalizes it, or at once with an error.
pub data Settlement : Type 0 where
  marker_enqueued : Dispatch → Settlement
  stopped_unexpectedly out_of_fuel : Settlement

unfoldable pub end_dispatch : Bool → Option Dispatch → Settlement
end_dispatch cancelled_now none = out_of_fuel
end_dispatch cancelled_now (some s) =
    if not s.received_finished && not cancelled_now then stopped_unexpectedly else marker_enqueued s

unfoldable pub run_ordered_dispatch : ℕ → (ℕ → DispatchTurn) → Bool → List OrderedSlot → Settlement
unfolding dispatch_loop end_dispatch
run_ordered_dispatch capacity turns cancelled_at_end slots =
    end_dispatch cancelled_at_end
      (dispatch_loop capacity (length slots + 1) turns 0 (start_dispatch slots))
