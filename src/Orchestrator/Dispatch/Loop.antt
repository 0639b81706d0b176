-- ===== src/Orchestrator/Dispatch/Loop.antt =====
-- crates/engine/src/orchestrator/mod.rs: the loop of `run_ordered_dispatch`.
use alac_bot.Prelude.{
  ℕ, zero, suc, ◌+◌, ◌≤◌, ◌<◌, ◌≡◌, refl, ap, sym, ◌∙◌, Bool, true, false, ◌||◌, Option, none, some,
  List, [], ◌∷◌, ◌++◌, append_assoc, length, arith, Bool-cases, inl, inr,
}
use alac_bot.Orchestrator.Lane.{OrderedSlot, cached_slot, fresh, finished_slot}
use alac_bot.Orchestrator.Lane.Shape.{works, IsClosed, is_work}
use alac_bot.Orchestrator.Dispatch.{
  Dispatch, DispatchTurn, Call, upload, resolve_cached, stopped, called, handle, on_slot, next_slot,
  loop_step, dispatch_loop,
}
use alac_bot.Orchestrator.Dispatch.Waits.{IsEnding, AllWork}
use alac_bot.Orchestrator.Dispatch.Order.{
  begun, begun-append, ahead, IsWhole, Moves, after_push-Moves, handle_cached-Moves,
}

-- What was begun is the beginning of `whole`, and all of it that is not to come, unless the dispatcher
-- has stopped.
abbrev pub IsInOrder : List OrderedSlot → Dispatch → Type 0
IsInOrder whole s =
    (rest : List OrderedSlot) × (begun s.calls ++ rest ≡ whole)
    × (s.stop_dispatch ≡ false → rest ≡ ahead s)

module _ (capacity : ℕ) where
  -- The state from which `x` was taken: what is to come, and how many slots there are.
  pub record IsTaken (s : Dispatch) (x : OrderedSlot) (after : Dispatch) : Type 0 where
    pub work : AllWork after.buffered
    pub ending : is_work x ≡ true → IsEnding after.received_finished after.slots
    pub last : is_work x ≡ false → after.slots ≡ []
    pub room : length (ahead after) ≤ capacity
    pub order : ahead s ≡ works (x ∷ []) ++ ahead after
    pub count :
        suc (length after.buffered + length after.slots) ≡ length s.buffered + length s.slots
    pub calls : after.calls ≡ s.calls
    pub stop : after.stop_dispatch ≡ s.stop_dispatch
    pub fatal : after.fatal_error ≡ s.fatal_error

  abbrev pub Next : Dispatch → Option (OrderedSlot × Dispatch) → Type 0
  Next s none = (ahead s ≡ []) × (s.received_finished ≡ true)
  Next s (some (x, after)) = IsTaken s x after

  from_buffer :
      (s : Dispatch) (x : OrderedSlot) (b : List OrderedSlot)
      → s.buffered ≡ x ∷ b
      → works (x ∷ []) ≡ x ∷ []
      → is_work x ≡ true
      → IsWhole capacity s
      → IsTaken s x (record s { buffered = b })
  from_buffer s x b p q h w = record {
    work = (rw p at w.work).1;
    ending = λ _. w.ending;
    last = λ f. ground arith;
    room = omega (arith, w.room, ap length order);
    order = rw q order;
    count = rw p (omega arith);
    calls = refl;
    stop = refl;
    fatal = refl;
  }
    where
      order : ahead s ≡ x ∷ (b ++ works s.slots)
      order = rw p refl

  from_channel :
      (s : Dispatch) (x : OrderedSlot) (l : List OrderedSlot)
      → s.buffered ≡ []
      → s.received_finished ≡ false
      → s.slots ≡ x ∷ l
      → works (x ∷ l) ≡ works (x ∷ []) ++ works l
      → (is_work x ≡ true → IsClosed l)
      → (is_work x ≡ false → l ≡ [])
      → length (works l) ≤ length (works (x ∷ l))
      → IsWhole capacity s
      → IsTaken s x (record s { slots = l })
  from_channel s x l p r q h c last less w = record {
    work = w.work;
    ending = λ f. rw r (c f);
    last = last;
    room = rw p (omega (arith, rw (p, q) at w.room, less));
    order = rw (p, q) h;
    count = rw (p, q) (omega arith);
    calls = refl;
    stop = refl;
    fatal = refl;
  }

  pub next_slot-Next :
      (s : Dispatch) (buffered : List OrderedSlot) (received : Bool) (slots : List OrderedSlot)
      → s.buffered ≡ buffered
      → s.received_finished ≡ received
      → s.slots ≡ slots
      → IsWhole capacity s
      → Next s (next_slot capacity buffered received slots s)
  next_slot-Next s (cached_slot i c ∷ b) r l p q k w =
      from_buffer s (cached_slot i c) b p refl refl w
  next_slot-Next s (fresh x ∷ b) r l p q k w = from_buffer s (fresh x) b p refl refl w
  next_slot-Next s (finished_slot ∷ b) r l p q k w = absurd (not_work (rw p at w.work).0)
    where
      not_work : is_work finished_slot ≡ true → ⊥
      not_work h = ground arith
  next_slot-Next s [] true l p q k w = (rw (p, rw q at w.ending) refl, q)
  next_slot-Next s [] false [] p q k w = absurd (rw (q, k) at w.ending)
  next_slot-Next s [] false (cached_slot i c ∷ l) p q k w =
      from_channel s (cached_slot i c) l p q k refl (λ _. rw (q, k) at w.ending) (λ f. ground arith)
        (omega arith) w
  next_slot-Next s [] false (fresh x ∷ l) p q k w =
      from_channel s (fresh x) l p q k refl (λ _. rw (q, k) at w.ending) (λ f. ground arith)
        (omega arith) w
  next_slot-Next s [] false (finished_slot ∷ l) p q k w =
      from_channel s finished_slot l p q k refl (λ f. ground arith) (λ _. rw (q, k) at w.ending)
        (omega arith) w

  -- After a slot was handled, or passed over.
  pub record IsDone (whole : List OrderedSlot) (s after : Dispatch) : Type 0 where
    pub whole_state : IsWhole capacity after
    pub in_order : IsInOrder whole after
    pub less : suc (length after.buffered + length after.slots) ≤ length s.buffered + length s.slots

  handled-IsDone :
      (whole : List OrderedSlot) (s after begin end : Dispatch) (x : OrderedSlot)
      → works (x ∷ []) ≡ x ∷ []
      → is_work x ≡ true
      → IsTaken s x after
      → IsInOrder whole s
      → after.stop_dispatch ≡ false
      → (IsWhole capacity after → IsWhole capacity begin)
      → ahead begin ≡ ahead after
      → length begin.buffered + length begin.slots ≡ length after.buffered + length after.slots
      → begun begin.calls ≡ begun after.calls ++ (x ∷ [])
      → Moves capacity begin end
      → IsDone whole s end
  handled-IsDone whole s after begin end x one work k (rest, sum, still) going w same n c m =
      record {
        whole_state = m.whole (w here);
        in_order = (
          ahead after,
          ap (λ l. l ++ ahead after) (m.calls ∙ c ∙ ap (λ l. begun l ++ (x ∷ [])) k.calls)
              ∙ append_assoc (begun s.calls) (x ∷ []) (ahead after)
              ∙ ap (λ l. begun s.calls ++ l) (sym to_come)
              ∙ sum,
          λ _. sym (m.order (w here) ∙ same),
        );
        less = omega (arith, k.count, n, m.count (w here));
      }
    where
      here : IsWhole capacity after
      here = record { work = k.work; ending = k.ending work; room = k.room }

      to_come : rest ≡ x ∷ ahead after
      to_come = still (sym k.stop ∙ going) ∙ k.order ∙ ap (λ l. l ++ ahead after) one

  passed-IsDone :
      (whole : List OrderedSlot) (s after : Dispatch) (x : OrderedSlot)
      → is_work x ≡ true
      → IsTaken s x after
      → IsInOrder whole s
      → IsDone whole s (stopped capacity after)
  passed-IsDone whole s after x work k (rest, sum, still) = record {
    whole_state = record { work = k.work; ending = k.ending work; room = k.room };
    in_order = (rest, rw k.calls sum, λ g. ground arith);
    less = omega (arith, k.count);
  }

  finished-IsDone :
      (whole : List OrderedSlot) (s after : Dispatch)
      → IsTaken s finished_slot after
      → IsInOrder whole s
      → IsDone whole s (record after { received_finished = true })
  finished-IsDone whole s after k (rest, sum, still) = record {
    whole_state = record { work = k.work; ending = k.last refl; room = k.room };
    in_order = (rest, rw k.calls sum, λ g. still (sym k.stop ∙ g) ∙ k.order);
    less = omega (arith, k.count);
  }

  called-begun :
      (c : Call) (x : OrderedSlot) (s : Dispatch)
      → begun (c ∷ []) ≡ x ∷ []
      → begun (called capacity c s).calls ≡ begun s.calls ++ (x ∷ [])
  called-begun c x s h = begun-append s.calls (c ∷ []) ∙ ap (λ l. begun s.calls ++ l) h

  called-IsWhole :
      (c : Call) (s : Dispatch) → IsWhole capacity s → IsWhole capacity (called capacity c s)
  called-IsWhole c s w = record { work = w.work; ending = w.ending; room = w.room }

  or_false : (a b : Bool) → (a || b) ≡ false → a ≡ false
  or_false true b h = h
  or_false false b h = refl

  pub on_slot-IsDone :
      (t : DispatchTurn) (whole : List OrderedSlot) (s after : Dispatch) (x : OrderedSlot)
      → IsTaken s x after
      → IsInOrder whole s
      → IsDone whole s (on_slot capacity t x after)
  unfolding on_slot handle
  on_slot-IsDone t whole s after finished_slot k o = finished-IsDone whole s after k o
  on_slot-IsDone t whole s after (fresh r) k o =
      elim (Bool-cases (after.stop_dispatch || t.cancelled_at_head)) [
        | inl h ↦ rw h (passed-IsDone whole s after (fresh r) refl k o)
        | inr h ↦ rw h (
            handled-IsDone whole s after (called capacity (upload r) after) _ (fresh r) refl refl k
              o (or_false _ _ h) (called-IsWhole (upload r) after) refl refl
              (called-begun (upload r) (fresh r) after refl)
              (after_push-Moves capacity _ t.pushed t.cancelled_unpushed _))
      ]
  on_slot-IsDone t whole s after (cached_slot i c) k o =
      elim (Bool-cases (after.stop_dispatch || t.cancelled_at_head)) [
        | inl h ↦ rw h (passed-IsDone whole s after (cached_slot i c) refl k o)
        | inr h ↦ rw h (
            handled-IsDone whole s after (called capacity (resolve_cached i c) after) _
              (cached_slot i c) refl refl k o (or_false _ _ h)
              (called-IsWhole (resolve_cached i c) after) refl refl
              (called-begun (resolve_cached i c) (cached_slot i c) after refl)
              (handle_cached-Moves capacity t i _))
      ]

  -- A loop with enough fuel ends after the marker, in order, with nothing to come.
  abbrev pub Ended : List OrderedSlot → Option Dispatch → Type 0
  Ended whole none = ⊥
  Ended whole (some s) = IsInOrder whole s × (ahead s ≡ []) × (s.received_finished ≡ true)

  loop_step-Ended :
      (whole : List OrderedSlot) (s : Dispatch) (x : Option (OrderedSlot × Dispatch))
      (t : DispatchTurn) (again : Dispatch → Option Dispatch)
      → Next s x
      → IsInOrder whole s
      → ((after : Dispatch) → IsDone whole s after → Ended whole (again after))
      → Ended whole (loop_step capacity x t s again)
  loop_step-Ended whole s none t again n o h = (o, n.0, n.1)
  loop_step-Ended whole s (some (x, after)) t again n o h =
      h (on_slot capacity t x after) (on_slot-IsDone t whole s after x n o)

  pub dispatch_loop-Ended :
      (fuel : ℕ) (turns : ℕ → DispatchTurn) (i : ℕ) (whole : List OrderedSlot) (s : Dispatch)
      → length s.buffered + length s.slots < fuel
      → IsWhole capacity s
      → IsInOrder whole s
      → Ended whole (dispatch_loop capacity fuel turns i s)
  unfolding dispatch_loop
  dispatch_loop-Ended zero turns i whole s f w o = omega (arith, f)
  dispatch_loop-Ended (suc fuel) turns i whole s f w o =
      loop_step-Ended whole s _ (turns i) _
        (next_slot-Next s s.buffered s.received_finished s.slots refl refl refl w) o
        λ after d.
          dispatch_loop-Ended fuel turns (i + 1) whole after (omega (arith, f, d.less))
            d.whole_state d.in_order
