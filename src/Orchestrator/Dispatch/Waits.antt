-- ===== src/Orchestrator/Dispatch/Waits.antt =====
-- crates/engine/src/orchestrator/mod.rs: no slot is lost while the dispatcher waits.
use alac_bot.Prelude.{
  ℕ, zero, suc, ◌+◌, ◌≤◌, ◌≡◌, refl, ap, sym, ◌∙◌, Bool, true, false, Option, List, [], ◌∷◌, ◌++◌,
  append_assoc, if◌then◌else◌, length, length-append, ltb, arith, All, All-append,
}
use alac_bot.Prelude.Text.{Text}
use alac_bot.Orchestrator.Lane.{OrderedSlot, cached_slot, fresh, finished_slot}
use alac_bot.Orchestrator.Lane.Shape.{works, IsClosed, is_work}
use alac_bot.Orchestrator.Dispatch.{Drain, drain, set_fatal_error}

-- What is to come: nothing after the marker, and before it slots that it ends.
abbrev pub IsEnding : Bool → List OrderedSlot → Type 0
IsEnding true slots = slots ≡ []
IsEnding false slots = IsClosed slots

abbrev pub AllWork : List OrderedSlot → Type 0
AllWork = All (λ x. is_work x ≡ true)

-- After a wait that began with these slots, this buffer and this error.
pub record IsDrained (d : Drain) (slots buffered : List OrderedSlot) (fatal : Option Text)
    : Type 0 where
  pub work : AllWork d.buffered
  pub ending : IsEnding d.received_finished d.slots
  pub order : d.buffered ++ works d.slots ≡ buffered ++ works slots
  pub error : d.fatal_error ≡ fatal
  pub open_channel : d.closed ≡ false
  pub count : length d.buffered + length d.slots ≤ length buffered + length slots

module _ (capacity : ℕ) (text : Text) where
  push-IsDrained :
      (n : ℕ) (x : OrderedSlot) (slots buffered : List OrderedSlot) (fatal : Option Text)
      → works (x ∷ slots) ≡ x ∷ works slots
      → IsDrained
          (drain capacity text n false slots (buffered ++ (x ∷ [])) fatal)
          slots
          (buffered ++ (x ∷ []))
          fatal
      → length buffered + length (works (x ∷ slots)) ≤ capacity
      → IsDrained
          (drain capacity text n false slots
            (if ltb (length buffered) capacity then buffered ++ (x ∷ []) else buffered)
            (if ltb (length buffered) capacity then fatal else set_fatal_error text fatal))
          (x ∷ slots)
          buffered
          fatal
  push-IsDrained n x slots buffered fatal w k room = rw fits record {
    work = k.work;
    ending = k.ending;
    order =
        k.order ∙ append_assoc buffered (x ∷ []) (works slots) ∙ ap (λ l. buffered ++ l) (sym w);
    error = k.error;
    open_channel = k.open_channel;
    count = omega (arith, k.count, length-append buffered (x ∷ []));
  }
    where
      fits : ltb (length buffered) capacity ≡ true
      fits = ground (arith, room, ap length w)

  pub drain-IsDrained :
      (n : ℕ) (received : Bool) (slots buffered : List OrderedSlot) (fatal : Option Text)
      → AllWork buffered
      → IsEnding received slots
      → length buffered + length (works slots) ≤ capacity
      → IsDrained (drain capacity text n received slots buffered fatal) slots buffered fatal
  unfolding drain
  drain-IsDrained zero received slots buffered fatal w e r = record {
    work = w;
    ending = e;
    order = refl;
    error = refl;
    open_channel = refl;
    count = omega arith;
  }
  drain-IsDrained (suc n) true slots buffered fatal w e r = record {
    work = w;
    ending = e;
    order = refl;
    error = refl;
    open_channel = refl;
    count = omega arith;
  }
  drain-IsDrained (suc n) false [] buffered fatal w e r = absurd e
  drain-IsDrained (suc n) false (finished_slot ∷ slots) buffered fatal w e r =
      let k = drain-IsDrained n true slots buffered fatal w e r in
      record {
        work = k.work;
        ending = k.ending;
        order = k.order;
        error = k.error;
        open_channel = k.open_channel;
        count = omega (arith, k.count);
      }
  drain-IsDrained (suc n) false (cached_slot i c ∷ slots) buffered fatal w e r =
      push-IsDrained n (cached_slot i c) slots buffered fatal refl
        (drain-IsDrained n false slots (buffered ++ (cached_slot i c ∷ [])) fatal
          (All-append _ buffered _ w (refl, tt)) e
          (omega (arith, r, length-append buffered (cached_slot i c ∷ []))))
        r
  drain-IsDrained (suc n) false (fresh x ∷ slots) buffered fatal w e r =
      push-IsDrained n (fresh x) slots buffered fatal refl
        (drain-IsDrained n false slots (buffered ++ (fresh x ∷ [])) fatal
          (All-append _ buffered _ w (refl, tt)) e
          (omega (arith, r, length-append buffered (fresh x ∷ []))))
        r
