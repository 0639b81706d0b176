-- ===== src/Stream/Breaker.antt =====
-- crates/stream/src/circuit_breaker.rs: `CircuitBreaker`. An instant is a number, read from the
-- clock by each operation, and so an argument here.
pub mod History
pub mod Counting
use alac_bot.Prelude.{
  ℕ, zero, suc, ◌+◌, ◌-◌, Bool, true, false, Option, none, some, List, [], ◌∷◌, leb, ltb,
  if◌then◌else◌, get_elem?, set,
}

pub data WorkerState : Type 0 where
  healthy : WorkerState
  quarantined : ℕ → WorkerState

abbrev pub Breaker : Type 0
Breaker = List WorkerState

unfoldable pub new : ℕ → Breaker
new zero = []
new (suc worker_count) = healthy ∷ new worker_count

unfoldable pub is_up : WorkerState → ℕ → Bool
is_up healthy now = true
is_up (quarantined until) now = leb until now

unfoldable pub is_available : Breaker → ℕ → ℕ → Bool
unfolding is_up
is_available states worker_id now = elim (get_elem? states worker_id) [
  | some s ↦ is_up s now
  | none ↦ false
]

-- `now` and the duration make the instant until which it lasts; a worker out of range is ignored.
unfoldable pub quarantine : Breaker → ℕ → ℕ → ℕ → Breaker
quarantine states worker_id now duration = set states worker_id (quarantined (now + duration))

unfoldable pub recovered : WorkerState → WorkerState
recovered healthy = healthy
recovered (quarantined until) = healthy

unfoldable pub record_success : Breaker → ℕ → Breaker
unfolding recovered
record_success states worker_id = elim (get_elem? states worker_id) [
  | some s ↦ set states worker_id (recovered s)
  | none ↦ states
]

unfoldable pub quarantine_remaining : Breaker → ℕ → ℕ → Option ℕ
quarantine_remaining states worker_id now = elim (get_elem? states worker_id) [
  | some (quarantined until) ↦ if ltb now until then some (until - now) else none
  | some healthy ↦ none
  | none ↦ none
]

unfoldable pub available_count : Breaker → ℕ → ℕ
unfolding is_up
available_count [] now = 0
available_count (s ∷ states) now = (if is_up s now then 1 else 0) + available_count states now
