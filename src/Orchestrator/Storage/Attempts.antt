-- ===== src/Orchestrator/Storage/Attempts.antt =====
-- crates/engine/src/orchestrator/mod.rs: how often the calls of the track cache are tried again.
use alac_bot.Prelude.{
  ℕ, zero, suc, ◌+◌, ◌*◌, ◌^◌, ◌-◌, ◌≤◌, ◌≡◌, refl, Bool, true, false, ◌&&◌, Option, none, some,
  List, [], ◌∷◌, ltb, if◌then◌else◌, min, arith, subst,
}
use cubical.Cubical.Data.Empty.Base.{⊥*}
use alac_bot.Prelude.Words.{u64_mod}
use alac_bot.Orchestrator.Storage.{
  StorageRetryPolicy, Reply, delay_before_retry, is_unavailable, attempts_of, after_delay,
  retry_loop, find_cached_tracks_with_retry, save_track_with_retry,
}

-- From attempt `n` on, with `left` attempts after it: each delay follows an unavailable answer and is
-- the base delay times a power of two, no more than u64 holds. The answer returned is that of the last
-- attempt, and is unavailable only if no attempt is left.
abbrev pub IsRetried {ℓ} :
    {A : Type ℓ} → StorageRetryPolicy → (ℕ → Reply A) → ℕ → ℕ → Reply A → List ℕ → Type ℓ
IsRetried policy call n left reply [] = (reply ≡ call n) × (is_unavailable reply ≡ true → left ≡ 0)
IsRetried policy call n left reply (d ∷ delays) =
    (is_unavailable (call n) ≡ true)
    × (1 ≤ left)
    × (d ≡ min (policy.base_delay_ms * 2 ^ min n 31) (u64_mod - 1))
    × IsRetried policy call (n + 1) (left - 1) reply delays

-- The loop has ended with an answer.
abbrev pub IsAnswered {ℓ} :
    {A : Type ℓ} → StorageRetryPolicy → (ℕ → Reply A) → ℕ → ℕ → Option (Reply A × List ℕ) → Type ℓ
IsAnswered policy call n left none = ⊥*
IsAnswered policy call n left (some (reply, delays)) = IsRetried policy call n left reply delays

attempt_left : (n left total : ℕ) → n + left + 1 ≡ total → ltb (n + 1) total ≡ true → 1 ≤ left
attempt_left n left total h more = ground arith

no_attempt_left : (n left total : ℕ) → n + left + 1 ≡ total → ltb (n + 1) total ≡ false → left ≡ 0
no_attempt_left n left total h over = ground arith

suc_sub_one : (n : ℕ) → n ≡ suc n - 1
suc_sub_one n = omega arith

no_attempt : 1 ≤ 0 → ⊥
no_attempt h = omega (arith, h)

after_delay-IsAnswered {ℓ} :
    {A : Type ℓ} (policy : StorageRetryPolicy) (call : ℕ → Reply A) (n left : ℕ)
    (r : Option (Reply A × List ℕ))
    → is_unavailable (call n) ≡ true
    → 1 ≤ left
    → IsAnswered policy call (n + 1) (left - 1) r
    → IsAnswered policy call n left (after_delay (delay_before_retry policy n) r)
unfolding delay_before_retry
after_delay-IsAnswered policy call n left none u l h = h
after_delay-IsAnswered policy call n left (some (reply, delays)) u l h = (u, l, refl, h)

-- The loop goes on only after an unavailable answer that is not the last one.
if-IsAnswered {ℓ} :
    {A : Type ℓ} (policy : StorageRetryPolicy) (call : ℕ → Reply A) (n left : ℕ) (u more : Bool)
    (r : Option (Reply A × List ℕ))
    → is_unavailable (call n) ≡ u
    → ltb (n + 1) (attempts_of policy) ≡ more
    → n + left + 1 ≡ attempts_of policy
    → (u ≡ true → more ≡ true → IsAnswered policy call n left r)
    → IsAnswered policy call n left (if u && more then r else some (call n, []))
if-IsAnswered policy call n left true true r is_u is_more m h = h refl refl
if-IsAnswered policy call n left true false r is_u is_more m h =
    (refl, λ t. no_attempt_left n left (attempts_of policy) m is_more)
if-IsAnswered policy call n left false more r is_u is_more m h = (refl, λ t. cc)

retry_loop-IsAnswered {ℓ} :
    {A : Type ℓ} (policy : StorageRetryPolicy) (call : ℕ → Reply A) (left n : ℕ)
    → n + left + 1 ≡ attempts_of policy
    → IsAnswered policy call n left (retry_loop policy call (suc left) n)
unfolding retry_loop
retry_loop-IsAnswered policy call zero n m =
    if-IsAnswered policy call n zero (is_unavailable (call n)) (ltb (n + 1) (attempts_of policy)) _
      refl refl m
      λ u more. record {
        lower = elim (no_attempt (attempt_left n 0 (attempts_of policy) m more)) [ ];
      }
retry_loop-IsAnswered policy call (suc left) n m =
    if-IsAnswered policy call n (suc left) (is_unavailable (call n))
      (ltb (n + 1) (attempts_of policy)) _ refl refl m
      λ u more. after_delay-IsAnswered policy call n (suc left) _ u (omega arith) (
        subst (λ l. IsAnswered policy call (n + 1) l (retry_loop policy call (suc left) (n + 1)))
          (suc_sub_one left) (retry_loop-IsAnswered policy call left (n + 1) (omega (arith, m))))

fuel_enough : (policy : StorageRetryPolicy) → suc (attempts_of policy - 1) ≡ attempts_of policy
fuel_enough policy = omega arith

attempts_after_first :
    (policy : StorageRetryPolicy) → 0 + (attempts_of policy - 1) + 1 ≡ attempts_of policy
attempts_after_first policy = omega arith

attempts-IsAnswered {ℓ} :
    {A : Type ℓ} (policy : StorageRetryPolicy) (call : ℕ → Reply A)
    → IsAnswered policy call 0
        (attempts_of policy - 1)
        (retry_loop policy call (attempts_of policy) 0)
attempts-IsAnswered policy call =
    subst
      (λ fuel. IsAnswered policy call 0 (attempts_of policy - 1) (retry_loop policy call fuel 0))
      (fuel_enough policy)
      (retry_loop-IsAnswered policy call (attempts_of policy - 1) 0 (attempts_after_first policy))

-- Whatever the cache answers, the call comes back, after at most the attempts that the policy allows,
-- and at least one. It is tried again after unavailable answers only, and each time it has waited for
-- the base delay times two to the number of the attempt, which no longer grows after the 31st, and
-- is at most the largest value of u64. What it returns is the answer of its last attempt, which is
-- unavailable only if the attempts are used up.
pub find_cached_tracks_with_retry-IsAnswered {ℓ} :
    {A : Type ℓ} (policy : StorageRetryPolicy) (call : ℕ → Reply A)
    → IsAnswered policy call 0 (attempts_of policy - 1) (find_cached_tracks_with_retry policy call)
unfolding find_cached_tracks_with_retry
find_cached_tracks_with_retry-IsAnswered policy call = attempts-IsAnswered policy call

-- A track is saved in the same way.
save_track_with_retry-IsAnswered {ℓ} :
    {A : Type ℓ} (policy : StorageRetryPolicy) (call : ℕ → Reply A)
    → IsAnswered policy call 0 (attempts_of policy - 1) (save_track_with_retry policy call)
unfolding save_track_with_retry
save_track_with_retry-IsAnswered policy call = attempts-IsAnswered policy call
