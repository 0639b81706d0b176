-- ===== src/Stream/Pipe.antt =====
-- crates/stream/src/pipe.rs: the task that `create_stream_pipe` spawns. What the cache, the worker
-- pool, the refresher and the receiver do is the environment of each chunk; the output is what is
-- put into the cache and sent to the receiver, in order. The location that a refresh stores shows in
-- what the later fetches return. Logging and the waits between attempts are left out.
pub mod Segment
pub mod Delivery
pub mod Complete
pub mod Caching
use alac_bot.Prelude.{
  ℕ, zero, suc, ◌+◌, ◌-◌, ◌*◌, ◌/◌, Bool, true, false, ◌&&◌, Option, none, some, List, [], ◌∷◌, ltb,
  leb, ◌==◌, if◌then◌else◌, length, take, drop, min,
}
use alac_bot.Stream.Range.{ByteRange}

abbrev pub Bytes : Type 0
Bytes = List ℕ

-- crates/stream/src/cache.rs: `CHUNK_SIZE`
abbrev pub chunk_size : ℕ
chunk_size = 512 * 1024

-- What `fetch_chunk` returns, as far as the task tells results apart.
pub data FetchResult : Type 0 where
  fetched : Bytes → FetchResult
  reference_expired fetch_error : FetchResult

-- One round of the retry loop: whether the receiver is gone, the fetch, whether a refresh of the
-- location would succeed, and the fetch after it.
pub record Attempt : Type 0 where
  pub closed : Bool
  pub first : FetchResult
  pub refreshed : Bool
  pub second : FetchResult

pub record ChunkEnv : Type 0 where
  pub closed_at_head : Bool
  pub cached : Option Bytes
  pub closed_on_miss : Bool
  -- the rounds, by the offset and the limit that they ask for
  pub attempts : ℕ → ℕ → ℕ → Attempt
  pub receiver_gone : Bool

pub data PipeEffect : Type 0 where
  insert : ℕ → Bytes → PipeEffect
  send : Bytes → PipeEffect
  -- the I/O error that ends the stream
  fail : ℕ → PipeEffect

abbrev pub bytes_of : FetchResult → Option Bytes
bytes_of (fetched b) = some b
bytes_of reference_expired = none
bytes_of fetch_error = none

unfoldable pub fetch_after : Bool → FetchResult → Attempt → Option Bytes
fetch_after has_refresh (fetched b) a = some b
fetch_after has_refresh reference_expired a =
    if has_refresh && a.refreshed then bytes_of a.second else none
fetch_after has_refresh fetch_error a = none

-- `for attempt in 0..3`, by the rounds left.
unfoldable pub fetch_loop : Bool → (ℕ → Attempt) → ℕ → ℕ → Option Bytes
unfolding fetch_after
fetch_loop has_refresh attempts zero attempt = none
fetch_loop has_refresh attempts (suc left) attempt =
    let later = fetch_loop has_refresh attempts left (attempt + 1) in
    let a = attempts attempt in
    if a.closed
    then none
    else elim (fetch_after has_refresh a.first a) [ some b ↦ some b | none ↦ later ]

pub data ChunkResult : Type 0 where
  stopped failed : ChunkResult
  cached_chunk fresh_chunk : Bytes → ChunkResult

-- The offset of a chunk is far below 2 ^ 63.
unfoldable pub chunk_on_miss : Bool → ℕ → ChunkEnv → ChunkResult
unfolding fetch_loop
chunk_on_miss has_refresh idx e =
    if e.closed_on_miss
    then stopped
    else elim (fetch_loop has_refresh (e.attempts (idx * chunk_size) chunk_size) 3 0) [
      | some b ↦ fresh_chunk b
      | none ↦ failed
    ]

unfoldable pub chunk_result : Bool → ℕ → ChunkEnv → ChunkResult
unfolding chunk_on_miss
chunk_result has_refresh idx e =
    if e.closed_at_head
    then stopped
    else elim e.cached [ some b ↦ cached_chunk b | none ↦ chunk_on_miss has_refresh idx e ]

-- `data.slice(from..to)`
abbrev pub slice : ℕ → ℕ → Bytes → Bytes
slice from to b = take (to - from) (drop from b)

abbrev pub slice_start : ByteRange → ℕ → ℕ
slice_start r idx = if idx == r.start / chunk_size then r.start - idx * chunk_size else 0

abbrev pub slice_end : ByteRange → ℕ → Bytes → ℕ
slice_end r idx b = if idx == r.end / chunk_size then r.end - idx * chunk_size + 1 else length b

-- A chunk that is there: its slice is sent, or passed over if it begins behind the chunk's end.
unfoldable pub send_chunk : ByteRange → ℕ → ChunkEnv → Bytes → List PipeEffect → List PipeEffect
send_chunk r idx e b later =
    if ltb (slice_start r idx) (length b)
    then (if e.receiver_gone
        then []
        else send (slice (slice_start r idx) (min (slice_end r idx b) (length b)) b) ∷ later)
    else later

-- The rest of a round, and the rounds after it unless the loop is left.
unfoldable pub on_chunk : ByteRange → ℕ → ChunkEnv → ChunkResult → List PipeEffect → List PipeEffect
unfolding send_chunk
on_chunk r idx e stopped later = []
on_chunk r idx e failed later = fail idx ∷ []
on_chunk r idx e (cached_chunk b) later = send_chunk r idx e b later
on_chunk r idx e (fresh_chunk b) later = insert idx b ∷ send_chunk r idx e b later

-- `for chunk_idx in start_chunk..=end_chunk`, by the chunks left.
unfoldable pub pipe_loop : Bool → ByteRange → (ℕ → ChunkEnv) → ℕ → ℕ → List PipeEffect
unfolding chunk_result on_chunk
pipe_loop has_refresh r env zero idx = []
pipe_loop has_refresh r env (suc left) idx =
    let later = pipe_loop has_refresh r env left (idx + 1) in
    on_chunk r idx (env idx) (chunk_result has_refresh idx (env idx)) later

unfoldable pub create_stream_pipe : Bool → ByteRange → (ℕ → ChunkEnv) → List PipeEffect
unfolding pipe_loop
create_stream_pipe has_refresh r env =
    pipe_loop has_refresh r env (r.end / chunk_size + 1 - r.start / chunk_size)
      (r.start / chunk_size)
