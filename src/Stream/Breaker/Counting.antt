-- ===== src/Stream/Breaker/Counting.antt =====
-- crates/stream/src/circuit_breaker.rs: the operations that read the breaker agree.
use alac_bot.Prelude.{
  ℕ, zero, suc, ◌+◌, ◌≡◌, ◌↔◌, refl, true, false, none, some, [], ◌∷◌, arith, leb, ltb,
  if◌then◌else◌, get_elem?, length,
}
use alac_bot.Stream.Breaker.{
  WorkerState, Breaker, is_up, is_available, quarantine_remaining, available_count,
}

-- How many of the next `left` workers from `id` on are available.
abbrev pub count_available : Breaker → ℕ → ℕ → ℕ → ℕ
count_available states now id zero = 0
count_available states now id (suc left) =
    (if is_available states id now then 1 else 0) + count_available states now (suc id) left

count_available-cons :
    (s : WorkerState) (states : Breaker) (now id left : ℕ)
    → count_available (s ∷ states) now (suc id) left ≡ count_available states now id left
unfolding is_available
count_available-cons s states now id zero = refl
count_available-cons s states now id (suc left) =
    ground (arith, count_available-cons s states now (suc id) left)

-- The number of available workers is the number of worker ids that are available one by one.
available_count-count_available :
    (states : Breaker) (now : ℕ)
    → available_count states now ≡ count_available states now 0 (length states)
unfolding available_count is_available
available_count-count_available [] now = refl
available_count-count_available (s ∷ states) now = ground (
  arith,
  available_count-count_available states now,
  count_available-cons s states now 0 (length states),
)

get_elem?-missing :
    (states : Breaker) (id : ℕ) → get_elem? states id ≡ none → ltb id (length states) ≡ false
get_elem?-missing [] id h = ground arith
get_elem?-missing (s ∷ states) zero h = ground arith
get_elem?-missing (s ∷ states) (suc id) h = ground (arith, get_elem?-missing states id h)

-- A worker of the pool is available exactly when no quarantine of it remains, and one that remains
-- ends at the first instant at which the worker is available again.
pub quarantine_remaining-is_available :
    (states : Breaker) (id now : ℕ)
    → ltb id (length states) ≡ true
    → (is_available states id now ≡ true ↔ quarantine_remaining states id now ≡ none)
      × ((rest at : ℕ)
          → quarantine_remaining states id now ≡ some rest
          → is_available states id at ≡ leb (now + rest) at)
unfolding is_available quarantine_remaining is_up
quarantine_remaining-is_available states id now l =
    let m = get_elem?-missing states id in
    ((λ h. ground arith, λ h. ground (arith, m)), λ rest at h. ground arith)
