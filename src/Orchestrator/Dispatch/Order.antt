-- ===== src/Orchestrator/Dispatch/Order.antt =====
-- crates/engine/src/orchestrator/mod.rs: what the handling of one slot leaves of the other slots.
use alac_bot.Prelude.{
  ℕ, ◌+◌, ◌≤◌, ◌≡◌, refl, ap, ◌∙◌, Bool, true, false, Option, none, some, List, [], ◌∷◌, ◌++◌,
  append-nil, length, length-append, arith, Bool-cases, inl, inr,
}
use alac_bot.Prelude.Text.{Text}
use alac_bot.Orchestrator.Lane.{
  PipelineItem, RipLaneOutcome, ripped, OrderedSlot, cached_slot, fresh,
}
use alac_bot.Orchestrator.Lane.Shape.{works}
use alac_bot.Orchestrator.Dispatch.{
  Dispatch, DispatchTurn, drain, Call, upload, fallback_upload, resolve_cached, submit_rerip,
  CacheResolution, hit, rerip, failed, drained_state, fatal, stopped, called, cache_drain,
  rerip_drain, rerip_answer, fatal_if, after_push, after_rerip, rerip_item, after_cache,
  handle_cached,
}
use alac_bot.Orchestrator.Dispatch.Waits.{IsEnding, AllWork, IsDrained, drain-IsDrained}

-- The slots whose work was begun, in order.
abbrev pub begun : List Call → List OrderedSlot
begun [] = []
begun (upload r ∷ calls) = fresh r ∷ begun calls
begun (resolve_cached item c ∷ calls) = cached_slot item c ∷ begun calls
begun (fallback_upload r ∷ calls) = begun calls
begun (submit_rerip item ∷ calls) = begun calls

pub begun-append : (a b : List Call) → begun (a ++ b) ≡ begun a ++ begun b
begun-append [] b = refl
begun-append (upload r ∷ a) b = ap (λ l. fresh r ∷ l) (begun-append a b)
begun-append (resolve_cached i c ∷ a) b = ap (λ l. cached_slot i c ∷ l) (begun-append a b)
begun-append (fallback_upload r ∷ a) b = begun-append a b
begun-append (submit_rerip i ∷ a) b = begun-append a b

-- The slots that are still to be handled.
abbrev pub ahead : Dispatch → List OrderedSlot
ahead s = s.buffered ++ works s.slots

pub record IsWhole (capacity : ℕ) (s : Dispatch) : Type 0 where
  pub work : AllWork s.buffered
  pub ending : IsEnding s.received_finished s.slots
  pub room : length (ahead s) ≤ capacity

-- From `s` to `t` no slot is lost, and the dispatcher does not start again.
pub record Moves (capacity : ℕ) (s t : Dispatch) : Type 0 where
  pub whole : IsWhole capacity s → IsWhole capacity t
  pub order : IsWhole capacity s → ahead t ≡ ahead s
  pub count :
      IsWhole capacity s → length t.buffered + length t.slots ≤ length s.buffered + length s.slots
  pub calls : begun t.calls ≡ begun s.calls
  pub going : t.stop_dispatch ≡ false → s.stop_dispatch ≡ false

module _ (capacity : ℕ) where
  Moves-refl : (s : Dispatch) → Moves capacity s s
  Moves-refl s = record {
    whole = λ w. w;
    order = λ w. refl;
    count = λ w. omega arith;
    calls = refl;
    going = λ g. g;
  }

  Moves-trans : (s t u : Dispatch) → Moves capacity s t → Moves capacity t u → Moves capacity s u
  Moves-trans s t u a b = record {
    whole = λ w. b.whole (a.whole w);
    order = λ w. b.order (a.whole w) ∙ a.order w;
    count = λ w. omega (arith, a.count w, b.count (a.whole w));
    calls = b.calls ∙ a.calls;
    going = λ g. a.going (b.going g);
  }

  fatal-Moves : (text : Text) (s : Dispatch) → Moves capacity s (fatal capacity text s)
  fatal-Moves text s = record {
    whole = λ w. record { work = w.work; ending = w.ending; room = w.room };
    order = λ w. refl;
    count = λ w. omega arith;
    calls = refl;
    going = λ g. g;
  }

  pub stopped-Moves : (s : Dispatch) → Moves capacity s (stopped capacity s)
  stopped-Moves s = record {
    whole = λ w. record { work = w.work; ending = w.ending; room = w.room };
    order = λ w. refl;
    count = λ w. omega arith;
    calls = refl;
    going = λ g. ground arith;
  }

  pub called-Moves :
      (c : Call) (s : Dispatch) → begun (c ∷ []) ≡ [] → Moves capacity s (called capacity c s)
  called-Moves c s h = record {
    whole = λ w. record { work = w.work; ending = w.ending; room = w.room };
    order = λ w. refl;
    count = λ w. omega arith;
    calls =
        begun-append s.calls (c ∷ []) ∙ ap (λ l. begun s.calls ++ l) h ∙ append-nil (begun s.calls);
    going = λ g. g;
  }

  pub after_wait-IsDrained :
      (text : Text) (n : ℕ) (s : Dispatch)
      → IsWhole capacity s
      → IsDrained
          (drain capacity text n s.received_finished s.slots s.buffered s.fatal_error)
          s.slots
          s.buffered
          s.fatal_error
  after_wait-IsDrained text n s w =
      drain-IsDrained capacity text n s.received_finished s.slots s.buffered s.fatal_error w.work
        w.ending (omega (arith, w.room, length-append s.buffered (works s.slots)))

  pub after_wait-Moves :
      (text : Text) (n : ℕ) (s : Dispatch)
      → Moves capacity s (
          drained_state capacity
            (drain capacity text n s.received_finished s.slots s.buffered s.fatal_error)
            s)
  after_wait-Moves text n s = record {
    whole = λ w.
        let k = after_wait-IsDrained text n s w in
        record { work = k.work; ending = k.ending; room = rw k.order w.room };
    order = λ w. (after_wait-IsDrained text n s w).order;
    count = λ w. (after_wait-IsDrained text n s w).count;
    calls = refl;
    going = λ g. g;
  }

  fatal_if-Moves :
      (error : Option Text) (s : Dispatch) → Moves capacity s (fatal_if capacity error s)
  fatal_if-Moves none s = Moves-refl s
  fatal_if-Moves (some text) s = fatal-Moves text s

  pub after_push-Moves :
      (text : Text) (pushed cancelled_now : Bool) (s : Dispatch)
      → Moves capacity s (after_push capacity text pushed cancelled_now s)
  after_push-Moves text true c s = Moves-refl s
  after_push-Moves text false true s = stopped-Moves s
  after_push-Moves text false false s =
      Moves-trans s (fatal capacity text s) _ (fatal-Moves text s)
        (stopped-Moves (fatal capacity text s))

  after_rerip-Moves :
      (t : DispatchTurn) (o : RipLaneOutcome) (s : Dispatch)
      → Moves capacity s (after_rerip capacity t o s)
  unfolding after_rerip
  after_rerip-Moves t (ripped r) s =
      Moves-trans s (called capacity (fallback_upload r) s) _
        (called-Moves (fallback_upload r) s refl)
        (after_push-Moves _ t.fallback_pushed t.cancelled_fallback
          (called capacity (fallback_upload r) s))
  after_rerip-Moves t RipLaneOutcome.finished s = Moves-refl s
  after_rerip-Moves t RipLaneOutcome.cancelled s = stopped-Moves s
  after_rerip-Moves t RipLaneOutcome.stop s = stopped-Moves s

  rerip_item-Moves :
      (t : DispatchTurn) (item : PipelineItem) (s : Dispatch)
      → Moves capacity s (rerip_item capacity t item s)
  unfolding rerip_item
  rerip_item-Moves t item s =
      Moves-trans s asked _ (called-Moves (submit_rerip (record item { cached = none })) s refl) (
        Moves-trans asked drained _ (after_wait-Moves _ t.rerip_drained asked) (
          Moves-trans drained told _ (fatal_if-Moves answer.1 drained)
            (after_rerip-Moves t answer.0 told)))
    where
      asked : Dispatch
      asked = called capacity (submit_rerip (record item { cached = none })) s

      drained : Dispatch
      drained = drained_state capacity (rerip_drain capacity t asked) asked

      answer : RipLaneOutcome × Option Text
      answer = rerip_answer capacity t (rerip_drain capacity t asked).closed

      told : Dispatch
      told = fatal_if capacity answer.1 drained

  after_cache-Moves :
      (t : DispatchTurn) (item : PipelineItem) (r : CacheResolution) (s : Dispatch)
      → Moves capacity s (after_cache capacity t item r s)
  unfolding after_cache
  after_cache-Moves t item hit s = Moves-refl s
  after_cache-Moves t item (failed text) s = fatal-Moves text s
  after_cache-Moves t item CacheResolution.cancelled s = stopped-Moves s
  after_cache-Moves t item rerip s = rerip_item-Moves t item s

  pub handle_cached-Moves :
      (t : DispatchTurn) (item : PipelineItem) (s : Dispatch)
      → Moves capacity s (handle_cached capacity t item s)
  unfolding handle_cached
  handle_cached-Moves t item s = elim (Bool-cases t.pushed) [
    | inl h ↦ rw h (
        Moves-trans s (drained_state capacity (cache_drain capacity t s) s) _
          (after_wait-Moves _ t.drained s) (after_cache-Moves t item _ _))
    | inr h ↦ rw h (after_cache-Moves t item _ s)
  ]
