-- ===== src/Stream/Breaker/History.antt =====
-- crates/stream/src/circuit_breaker.rs: which workers are available, by what was recorded last.
use alac_bot.Prelude.{
  ℕ, zero, suc, ◌+◌, ◌≡◌, refl, ap, sym, ◌∙◌, Bool, true, false, ◌&&◌, none, some, List, [], ◌∷◌,
  arith, leb, ltb, ◌==◌, if◌then◌else◌, get_elem?, set, length, length-set, Option-cases, inl, inr,
}
use alac_bot.Stream.Breaker.{
  WorkerState, healthy, quarantined, Breaker, new, is_up, is_available, quarantine, record_success,
  recovered,
}

-- A call that changes the breaker: a quarantine of a worker at an instant, for a while, or a success.
pub data Record : Type 0 where
  flooded : ℕ → ℕ → ℕ → Record
  succeeded : ℕ → Record

-- The breaker of `n` workers after the calls, the last one first.
unfoldable pub breaker_after : ℕ → List Record → Breaker
unfolding new quarantine record_success
breaker_after n [] = new n
breaker_after n (flooded id now duration ∷ rest) = quarantine (breaker_after n rest) id now duration
breaker_after n (succeeded id ∷ rest) = record_success (breaker_after n rest) id

-- A worker is free when the last call about it was a success, or a quarantine that has ended.
abbrev pub is_free : ℕ → ℕ → List Record → Bool
is_free id now [] = true
is_free id now (flooded other since duration ∷ rest) =
    if other == id then leb (since + duration) now else is_free id now rest
is_free id now (succeeded other ∷ rest) = if other == id then true else is_free id now rest

module _ {ℓ} {A : Type ℓ} where
  get_elem?-set :
      (xs : List A) (i j : ℕ) (v : A)
      → get_elem? (set xs i v) j
        ≡ (if i == j then (if ltb i (length xs) then some v else none) else get_elem? xs j)
  get_elem?-set [] i j v = ground arith
  get_elem?-set (x ∷ xs) zero zero v = ground arith
  get_elem?-set (x ∷ xs) zero (suc j) v = ground arith
  get_elem?-set (x ∷ xs) (suc i) zero v = ground arith
  get_elem?-set (x ∷ xs) (suc i) (suc j) v = ground (arith, get_elem?-set xs i j v)

  get_elem?-none : (xs : List A) (i : ℕ) → ltb i (length xs) ≡ false → get_elem? xs i ≡ none
  get_elem?-none [] i h = refl
  get_elem?-none (x ∷ xs) zero h = ground arith
  get_elem?-none (x ∷ xs) (suc i) h = get_elem?-none xs i (ground arith)

set-missing :
    (states : Breaker) (i : ℕ) (v : WorkerState)
    → get_elem? states i ≡ none
    → set states i v ≡ states
set-missing [] i v h = refl
set-missing (x ∷ xs) zero v h = ground arith
set-missing (x ∷ xs) (suc i) v h = ap (λ l. x ∷ l) (set-missing xs i v h)

recovered_lem : (s : WorkerState) → recovered s ≡ healthy
unfolding recovered
recovered_lem healthy = refl
recovered_lem (quarantined until) = refl

record_success-set : (states : Breaker) (id : ℕ) → record_success states id ≡ set states id healthy
unfolding record_success
record_success-set states id = elim (Option-cases (get_elem? states id)) [
  | inl e ↦ rw (e, record_success) (sym (set-missing states id healthy e))
  | inr e ↦ rw (e.1, record_success, recovered_lem e.0) refl
]

length-new : (n : ℕ) → length (new n) ≡ n
unfolding new
length-new zero = refl
length-new (suc n) = ap suc (length-new n)

length-breaker_after : (n : ℕ) (records : List Record) → length (breaker_after n records) ≡ n
unfolding breaker_after quarantine
length-breaker_after n [] = length-new n
length-breaker_after n (flooded id now duration ∷ rest) =
    length-set _ id _ ∙ length-breaker_after n rest
length-breaker_after n (succeeded id ∷ rest) =
    rw (record_success-set (breaker_after n rest) id)
      (length-set _ id _ ∙ length-breaker_after n rest)

is_available-new : (n id now : ℕ) → is_available (new n) id now ≡ ltb id n
unfolding is_available new is_up
is_available-new zero id now = ground arith
is_available-new (suc n) zero now = ground arith
is_available-new (suc n) (suc id) now = ground (arith, is_available-new n id now)

is_available-quarantine :
    (states : Breaker) (other since duration id now : ℕ)
    → is_available (quarantine states other since duration) id now ≡ (
        if other == id
        then ltb id (length states) && leb (since + duration) now
        else is_available states id now)
unfolding is_available quarantine is_up
is_available-quarantine states other since duration id now =
    ground (arith, get_elem?-set states other id (quarantined (since + duration)))

is_available-record_success :
    (states : Breaker) (other id now : ℕ)
    → is_available (record_success states other) id now
      ≡ (if other == id then ltb id (length states) else is_available states id now)
unfolding is_available is_up
is_available-record_success states other id now =
    rw (record_success-set states other) (ground (arith, get_elem?-set states other id healthy))

-- Whatever was recorded, in whatever order, a worker is available at an instant exactly when it is
-- one of the pool's and the last record about it is none, a success, or a quarantine that is over.
pub is_available-breaker_after :
    (n id now : ℕ) (records : List Record)
    → is_available (breaker_after n records) id now ≡ ltb id n && is_free id now records
unfolding breaker_after
is_available-breaker_after n id now [] = ground (arith, is_available-new n id now)
is_available-breaker_after n id now (flooded other since duration ∷ rest) = ground (
  arith,
  is_available-quarantine (breaker_after n rest) other since duration id now,
  is_available-breaker_after n id now rest,
  length-breaker_after n rest,
)
is_available-breaker_after n id now (succeeded other ∷ rest) = ground (
  arith,
  is_available-record_success (breaker_after n rest) other id now,
  is_available-breaker_after n id now rest,
  length-breaker_after n rest,
)
