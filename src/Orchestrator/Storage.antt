-- ===== src/Orchestrator/Storage.antt =====
-- crates/engine/src/orchestrator/mod.rs and deps/mod.rs: the calls of the track cache that are tried
-- again, `find_cached_tracks_with_retry` and `save_track_with_retry`. The two loops are one text, so
-- that they are one function of what the cache answers at each attempt. The delays are returned.
pub mod Attempts
use alac_bot.Prelude.{
  ℕ, zero, suc, ◌+◌, ◌*◌, ◌^◌, ◌-◌, Bool, true, false, ◌&&◌, Option, none, some, List, [], ◌∷◌, ltb,
  if◌then◌else◌, max, min,
}
use alac_bot.Prelude.Text.{Text}
use alac_bot.Prelude.Words.{saturating_mul}

pub record StorageRetryPolicy : Type 0 where
  pub total_attempts : ℕ
  pub base_delay_ms : ℕ

pub data TrackCacheOperation : Type 0 where
  find save delete : TrackCacheOperation

pub data TrackCacheError : Type 0 where
  unavailable failed : TrackCacheOperation → Text → TrackCacheError

pub data Reply {ℓ} (A : Type ℓ) : Type ℓ where
  value : A → Reply A
  error : TrackCacheError → Reply A

unfoldable pub delay_before_retry : StorageRetryPolicy → ℕ → ℕ
delay_before_retry policy retry_index = saturating_mul policy.base_delay_ms (2 ^ min retry_index 31)

abbrev pub is_unavailable {ℓ} : {A : Type ℓ} → Reply A → Bool
is_unavailable (value x) = false
is_unavailable (error (unavailable operation detail)) = true
is_unavailable (error (failed operation detail)) = false

abbrev pub attempts_of : StorageRetryPolicy → ℕ
attempts_of policy = max policy.total_attempts 1

abbrev pub after_delay {ℓ} :
    {A : Type ℓ} → ℕ → Option (Reply A × List ℕ) → Option (Reply A × List ℕ)
after_delay delay none = none
after_delay delay (some (reply, delays)) = some (reply, delay ∷ delays)

-- The loop, on fuel: `none` when it is used up.
unfoldable pub retry_loop {ℓ} :
    {A : Type ℓ} → StorageRetryPolicy → (ℕ → Reply A) → ℕ → ℕ → Option (Reply A × List ℕ)
unfolding delay_before_retry
retry_loop policy call zero attempt = none
retry_loop policy call (suc fuel) attempt =
    let rest = retry_loop policy call fuel (attempt + 1) in
    if is_unavailable (call attempt) && ltb (attempt + 1) (attempts_of policy)
    then after_delay (delay_before_retry policy attempt) rest
    else some (call attempt, [])

unfoldable pub find_cached_tracks_with_retry {ℓ} :
    {A : Type ℓ} → StorageRetryPolicy → (ℕ → Reply A) → Option (Reply A × List ℕ)
unfolding retry_loop
find_cached_tracks_with_retry policy call = retry_loop policy call (attempts_of policy) 0

unfoldable pub save_track_with_retry {ℓ} :
    {A : Type ℓ} → StorageRetryPolicy → (ℕ → Reply A) → Option (Reply A × List ℕ)
unfolding retry_loop
save_track_with_retry policy call = retry_loop policy call (attempts_of policy) 0
