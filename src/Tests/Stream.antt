-- ===== src/Tests/Stream.antt =====
-- crates/stream on a file of ten bytes and a breaker of three workers.
use alac_bot.Prelude.{
  ℕ, zero, suc, ◌+◌, ◌≤◌, ◌<◌, ◌≡◌, refl, inr, true, false, ◌&&◌, none, some, List, [], ◌∷◌, arith,
  length, ltb, take, drop, ◌*◌,
}
use alac_bot.Prelude.Text.{codes, text_eq, trim, split_on}
use alac_bot.Prelude.Decimal.{parse}
use alac_bot.Stream.Range
use alac_bot.Stream.Range.{
  ByteRange, RangeResult, ok, parse_range, parse_parts, parse_ends, parse_num, clamp, strip_bytes,
}
use alac_bot.Stream.Range.Bounds.{IsWithin, parse_range-IsWithin}
use alac_bot.Stream.Pipe.{
  Bytes, chunk_size, FetchResult, Attempt, ChunkEnv, bytes_of, create_stream_pipe, pipe_loop,
  on_chunk, send_chunk, chunk_result, chunk_on_miss, fetch_loop, fetch_after,
}
use alac_bot.Stream.Pipe.Segment.{segment}
use alac_bot.Stream.Pipe.Delivery.{sent, chunk, IsFaithful, IsPrefix, sent-IsPrefix}
use alac_bot.Stream.Pipe.Complete.{IsServed, sent-segment}
use alac_bot.Stream.Pipe.Caching.{body_length}
use alac_bot.Stream.Breaker.{Breaker, WorkerState, is_available}
use alac_bot.Stream.Breaker.History.{
  Record, flooded, succeeded, breaker_after, is_free, is_available-breaker_after,
}
use WorkerState.{healthy, quarantined}
use FetchResult.{fetched, reference_expired, fetch_error}

abbrev ten_bytes : Bytes
ten_bytes = 10 ∷ 11 ∷ 12 ∷ 13 ∷ 14 ∷ 15 ∷ 16 ∷ 17 ∷ 18 ∷ 19 ∷ []

-- The first round fails, the second finds the reference expired and fetches after a refresh.
abbrev rounds : ℕ → ℕ → ℕ → Attempt
rounds o l zero = record {
  closed = false;
  first = fetch_error;
  refreshed = false;
  second = fetch_error;
}
rounds o l (suc i) = record {
  closed = false;
  first = reference_expired;
  refreshed = true;
  second = fetched (take l (drop o ten_bytes));
}

abbrev env : ℕ → ChunkEnv
env k = record {
  closed_at_head = false;
  cached = none;
  closed_on_miss = false;
  attempts = rounds;
  receiver_gone = false;
}

env-IsFaithful : (k : ℕ) → IsFaithful ten_bytes k (env k)
env-IsFaithful k = ((λ b h. ground arith), first_round, second_round)
  where
    first_round :
        (o l i : ℕ) (b : Bytes)
        → bytes_of (rounds o l i).first ≡ some b
        → b ≡ take l (drop o ten_bytes)
    first_round o l zero b h = ground arith
    first_round o l (suc i) b h = ground arith

    second_round :
        (o l i : ℕ) (b : Bytes)
        → bytes_of (rounds o l i).second ≡ some b
        → b ≡ take l (drop o ten_bytes)
    second_round o l zero b h = ground arith
    second_round o l (suc i) b h = ground arith

env-IsServed : (k : ℕ) → IsServed true k (env k)
env-IsServed k = (
  refl,
  refl,
  inr (refl, (1, omega arith, open_rounds, inr (chunk ten_bytes k, refl, refl, refl, refl))),
)
  where
    open_rounds : (j : ℕ) → j ≤ 1 → (rounds (k * chunk_size) chunk_size j).closed ≡ false
    open_rounds zero h = refl
    open_rounds (suc j) h = refl

abbrev middle : ByteRange
middle = record { start = 2; end = 4 }

sent-middle : sent (create_stream_pipe true middle env) ≡ 12 ∷ 13 ∷ 14 ∷ []
unfolding create_stream_pipe pipe_loop on_chunk send_chunk chunk_result chunk_on_miss fetch_loop
    fetch_after
sent-middle = refl

sent-IsPrefix_example :
    IsPrefix
      (sent (create_stream_pipe true middle env))
      (segment middle.start (middle.end + 1) ten_bytes)
sent-IsPrefix_example =
    sent-IsPrefix true middle ten_bytes env (omega arith) (omega arith) env-IsFaithful

sent-segment_example :
    sent (create_stream_pipe true middle env) ≡ segment middle.start (middle.end + 1) ten_bytes
sent-segment_example =
    sent-segment true middle ten_bytes env (omega arith) (omega arith) env-IsFaithful
      (λ k s t. env-IsServed k)

middle_header : parse_range (codes "bytes=2-4") (length ten_bytes) ≡ ok middle
unfolding parse_range parse_parts parse_ends parse_num clamp strip_bytes text_eq trim split_on parse
middle_header = refl

body_length_example : length (sent (create_stream_pipe true middle env)) ≡ Range.length middle
body_length_example =
    body_length true (codes "bytes=2-4") middle ten_bytes env middle_header env-IsFaithful
      (λ k s t. env-IsServed k)

parse_range-IsWithin_example :
    IsWithin (length ten_bytes) middle
    × (0 < Range.length middle)
    × (Range.length middle ≤ length ten_bytes)
parse_range-IsWithin_example =
    parse_range-IsWithin (codes "bytes=2-4") (length ten_bytes) middle middle_header

-- Worker 1 was told to wait at 100 for 30, worker 0 at 90 for 500 and had a success since.
abbrev records : List Record
records = succeeded 0 ∷ flooded 1 100 30 ∷ flooded 0 90 500 ∷ []

is_available-breaker_after_example :
    is_available (breaker_after 3 records) 1 120 ≡ ltb 1 3 && is_free 1 120 records
is_available-breaker_after_example = is_available-breaker_after 3 1 120 records

abbrev two_workers : Breaker
two_workers = healthy ∷ quarantined 130 ∷ []
