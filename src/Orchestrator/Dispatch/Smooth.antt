-- ===== src/Orchestrator/Dispatch/Smooth.antt =====
-- crates/engine/src/orchestrator/mod.rs: a dispatcher to which nothing bad happens.
use alac_bot.Prelude.{
  ℕ, zero, suc, ◌+◌, ◌≤◌, ◌≡◌, refl, ap, sym, ◌∙◌, Bool, true, false, ◌||◌, Option, none, some,
  List, ◌++◌, append-nil, if◌then◌else◌, length, arith, inl, inr, ◌⊎◌,
}
use alac_bot.Orchestrator.Lane.{
  PipelineItem, RipLaneOutcome, ripped, OrderedSlot, cached_slot, fresh, finished_slot,
}
use alac_bot.Orchestrator.Lane.Shape.{works, IsClosed}
use alac_bot.Orchestrator.Dispatch.{
  Dispatch, DispatchTurn, resolve_cached, submit_rerip, answered, outcome, cache_full, rerip_full,
  ordered_rerip_result, hit, rerip, drained_state, called, cache_drain, rerip_drain, rerip_answer,
  after_rerip, rerip_item, after_cache, handle_cached, handle, on_slot, loop_step, dispatch_loop,
  start_dispatch, run_ordered_dispatch, end_dispatch, Settlement, marker_enqueued,
  stopped_unexpectedly, out_of_fuel,
}
use alac_bot.Orchestrator.Dispatch.Order.{
  begun, IsWhole, called-Moves, after_wait-Moves, after_wait-IsDrained,
}
use alac_bot.Orchestrator.Dispatch.Loop.{
  IsInOrder, IsTaken, IsDone, on_slot-IsDone, Ended, Next, next_slot-Next, dispatch_loop-Ended,
}

abbrev pub IsQuiet : Dispatch → Type 0
IsQuiet s = (s.stop_dispatch ≡ false) × (s.fatal_error ≡ none)

abbrev pub IsGood : RipLaneOutcome → Type 0
IsGood (ripped r) = Unit
IsGood RipLaneOutcome.finished = Unit
IsGood o = ⊥

-- Nothing is cancelled, what is pushed is taken, and a cached copy is delivered, or replaced by a rip
-- that comes to its end.
pub record IsSmooth (t : DispatchTurn) : Type 0 where
  pub head : t.cancelled_at_head ≡ false
  pub pushed : t.pushed ≡ true
  pub cache :
      (t.cache_wait ≡ answered hit)
      ⊎ ((t.cache_wait ≡ answered rerip)
          × ((o : RipLaneOutcome) × (t.completion ≡ outcome o) × IsGood o)
          × (t.cancelled_waiting ≡ false)
          × (t.fallback_pushed ≡ true))

module _ (capacity : ℕ) where
  after_rerip-IsQuiet :
      (t : DispatchTurn) (o : RipLaneOutcome) (s : Dispatch)
      → IsGood o
      → t.fallback_pushed ≡ true
      → IsQuiet s
      → IsQuiet (after_rerip capacity t o s)
  unfolding after_rerip
  after_rerip-IsQuiet t (ripped r) s g p q = rw p q
  after_rerip-IsQuiet t RipLaneOutcome.finished s g p q = q
  after_rerip-IsQuiet t RipLaneOutcome.cancelled s g p q = absurd g
  after_rerip-IsQuiet t RipLaneOutcome.stop s g p q = absurd g

  rerip_item-IsQuiet :
      (t : DispatchTurn) (item : PipelineItem) (s : Dispatch) (o : RipLaneOutcome)
      → t.completion ≡ outcome o
      → IsGood o
      → t.cancelled_waiting ≡ false
      → t.fallback_pushed ≡ true
      → IsWhole capacity s
      → IsQuiet s
      → IsQuiet (rerip_item capacity t item s)
  unfolding rerip_item rerip_answer ordered_rerip_result
  rerip_item-IsQuiet t item s o c g n p w q =
      let asked : Dispatch = called capacity (submit_rerip (record item { cached = none })) s in
      let d =
        after_wait-IsDrained capacity (rerip_full capacity) t.rerip_drained asked
          ((called-Moves capacity (submit_rerip (record item { cached = none })) s refl).whole w) in
      rw (d.open_channel, c, n)
        (after_rerip-IsQuiet t o (drained_state capacity (rerip_drain capacity t asked) asked) g p
          (q.0, d.error ∙ q.1))

  handle_cached-IsQuiet :
      (t : DispatchTurn) (item : PipelineItem) (s : Dispatch)
      → IsSmooth t
      → IsWhole capacity s
      → IsQuiet s
      → IsQuiet (handle_cached capacity t item s)
  unfolding handle_cached after_cache
  handle_cached-IsQuiet t item s m w q =
      let d = after_wait-IsDrained capacity (cache_full capacity) t.drained s w in
      elim m.cache [
        | inl h ↦ rw (m.pushed, d.open_channel, h) (q.0, d.error ∙ q.1)
        | inr (h, (o, c, g), n, p) ↦
            rw (m.pushed, d.open_channel, h)
              (rerip_item-IsQuiet t item (drained_state capacity (cache_drain capacity t s) s) o c g
                n p ((after_wait-Moves capacity (cache_full capacity) t.drained s).whole w)
                (q.0, d.error ∙ q.1))
      ]

  not_stopped :
      (a b : Bool) (x y : Dispatch)
      → a ≡ false
      → b ≡ false
      → IsQuiet y
      → IsQuiet (if a || b then x else y)
  not_stopped false false x y h k q = q
  not_stopped false true x y h k q = ground arith
  not_stopped true b x y h k q = ground arith

  on_slot-IsQuiet :
      (t : DispatchTurn) (s after : Dispatch) (x : OrderedSlot)
      → IsSmooth t
      → IsTaken capacity s x after
      → IsQuiet after
      → IsQuiet (on_slot capacity t x after)
  unfolding on_slot handle
  on_slot-IsQuiet t s after finished_slot m k q = q
  on_slot-IsQuiet t s after (fresh r) m k q =
      not_stopped after.stop_dispatch t.cancelled_at_head _ _ q.0 m.head (rw m.pushed q)
  on_slot-IsQuiet t s after (cached_slot i c) m k q =
      not_stopped after.stop_dispatch t.cancelled_at_head _ _ q.0 m.head (
        handle_cached-IsQuiet t i (called capacity (resolve_cached i c) after) m
          record { work = k.work; ending = k.ending refl; room = k.room } q)

  -- A quiet end.
  abbrev AllQuiet : Option Dispatch → Type 0
  AllQuiet none = Unit
  AllQuiet (some s) = IsQuiet s

  taken-IsQuiet :
      (s after : Dispatch) (x : OrderedSlot)
      → IsTaken capacity s x after
      → IsQuiet s
      → IsQuiet after
  taken-IsQuiet s after x k q = (k.stop ∙ q.0, k.fatal ∙ q.1)

  loop_step-IsQuiet :
      (whole : List OrderedSlot) (s : Dispatch) (x : Option (OrderedSlot × Dispatch))
      (t : DispatchTurn) (again : Dispatch → Option Dispatch)
      → IsSmooth t
      → Next capacity s x
      → IsInOrder whole s
      → IsQuiet s
      → ((after : Dispatch)
          → IsDone capacity whole s after
          → IsQuiet after
          → AllQuiet (again after))
      → AllQuiet (loop_step capacity x t s again)
  loop_step-IsQuiet whole s none t again m n o q h = q
  loop_step-IsQuiet whole s (some (x, after)) t again m n o q h =
      h (on_slot capacity t x after) (on_slot-IsDone capacity t whole s after x n o)
        (on_slot-IsQuiet t s after x m n (taken-IsQuiet s after x n q))

  dispatch_loop-IsQuiet :
      (fuel : ℕ) (turns : ℕ → DispatchTurn) (i : ℕ) (whole : List OrderedSlot) (s : Dispatch)
      → ((j : ℕ) → IsSmooth (turns j))
      → IsWhole capacity s
      → IsInOrder whole s
      → IsQuiet s
      → AllQuiet (dispatch_loop capacity fuel turns i s)
  unfolding dispatch_loop
  dispatch_loop-IsQuiet zero turns i whole s m w o q = tt
  dispatch_loop-IsQuiet (suc fuel) turns i whole s m w o q =
      loop_step-IsQuiet whole s _ (turns i) _ (m i)
        (next_slot-Next capacity s s.buffered s.received_finished s.slots refl refl refl w) o q
        λ after d. dispatch_loop-IsQuiet fuel turns (i + 1) whole after m d.whole_state d.in_order

-- All the work was begun, in order, and nothing is recorded as fatal.
abbrev pub IsComplete : List OrderedSlot → Settlement → Type 0
IsComplete whole (marker_enqueued s) = (begun s.calls ≡ whole) × (s.fatal_error ≡ none)
IsComplete whole stopped_unexpectedly = ⊥
IsComplete whole out_of_fuel = ⊥

end_dispatch-IsComplete :
    (capacity : ℕ) (whole : List OrderedSlot) (c : Bool) (x : Option Dispatch)
    → Ended capacity whole x
    → AllQuiet capacity x
    → IsComplete whole (end_dispatch c x)
unfolding end_dispatch
end_dispatch-IsComplete capacity whole c none h q = absurd h
end_dispatch-IsComplete capacity whole c (some s) ((rest, sum, still), nothing, finished) q =
    rw finished (
      sym (append-nil (begun s.calls))
          ∙ ap (λ l. begun s.calls ++ l) (sym (still q.0 ∙ nothing))
          ∙ sum,
      q.1,
    )

-- If nothing is cancelled and nothing fails, whatever number of slots arrives during each wait, a
-- dispatcher whose slots end with the marker and are not more than its capacity begins the work of all
-- of them in their order and records no fatal error: the buffer is never full.
pub run_ordered_dispatch-IsComplete :
    (capacity : ℕ) (turns : ℕ → DispatchTurn) (c : Bool) (slots : List OrderedSlot)
    → ((j : ℕ) → IsSmooth (turns j))
    → IsClosed slots
    → length (works slots) ≤ capacity
    → IsComplete (works slots) (run_ordered_dispatch capacity turns c slots)
unfolding run_ordered_dispatch
run_ordered_dispatch-IsComplete capacity turns c slots m closed room =
    end_dispatch-IsComplete capacity (works slots) c _
      (dispatch_loop-Ended capacity (length slots + 1) turns 0 (works slots) (start_dispatch slots)
        (omega arith) first (works slots, refl, λ _. refl))
      (dispatch_loop-IsQuiet capacity (length slots + 1) turns 0 (works slots)
        (start_dispatch slots) m first (works slots, refl, λ _. refl) (refl, refl))
  where
    first : IsWhole capacity (start_dispatch slots)
    first = record { work = tt; ending = closed; room = room }
