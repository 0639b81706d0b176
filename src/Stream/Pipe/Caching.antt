-- ===== src/Stream/Pipe/Caching.antt =====
-- crates/stream/src/pipe.rs: what a pipe puts into the cache, and the length of a body.
use alac_bot.Prelude.{
  ℕ, zero, suc, ◌+◌, ◌-◌, ◌/◌, ◌≤◌, ◌<◌, ◌≡◌, refl, Bool, true, false, some, List, [], ◌∷◌, arith,
  length, drop, All, if◌then◌else◌, ltb, length-take, length-drop,
}
use alac_bot.Prelude.Text.{Text}
use alac_bot.Stream.Range
use alac_bot.Stream.Range.{ByteRange, RangeResult, ok, parse_range}
use alac_bot.Stream.Range.Bounds.{parse_range-IsWithin}
use alac_bot.Stream.Pipe.{
  Bytes, chunk_size, ChunkEnv, PipeEffect, ChunkResult, chunk_result, on_chunk, send_chunk,
  pipe_loop, create_stream_pipe, slice_start,
}
use alac_bot.Stream.Pipe.Delivery.{sent, chunk, IsFaithful, data_of, chunk_result-IsFaithful}
use alac_bot.Stream.Pipe.Complete.{IsServed, sent-segment}
use PipeEffect.{insert, send, fail}
use ChunkResult.{stopped, failed, cached_chunk, fresh_chunk}

-- A chunk put into the cache is one of the range, with the file's bytes.
abbrev pub IsOwn : ByteRange → Bytes → PipeEffect → Type 0
IsOwn r file (insert k b) =
    (r.start / chunk_size ≤ k) × (k ≤ r.end / chunk_size) × (b ≡ chunk file k)
IsOwn r file (send b) = Unit
IsOwn r file (fail k) = Unit

module _ (r : ByteRange) (file : Bytes) where
  sent_or_not-IsOwn :
      (x g : Bool) (b : Bytes) (later : List PipeEffect)
      → All (IsOwn r file) later
      → All (IsOwn r file) (if x then (if g then [] else send b ∷ later) else later)
  sent_or_not-IsOwn true true b later p = tt
  sent_or_not-IsOwn true false b later p = (tt, p)
  sent_or_not-IsOwn false g b later p = p

  send_chunk-IsOwn :
      (k : ℕ) (e : ChunkEnv) (b : Bytes) (later : List PipeEffect)
      → All (IsOwn r file) later
      → All (IsOwn r file) (send_chunk r k e b later)
  unfolding send_chunk
  send_chunk-IsOwn k e b later p =
      sent_or_not-IsOwn (ltb (slice_start r k) (length b)) e.receiver_gone _ later p

  on_chunk-IsOwn :
      (k : ℕ) (e : ChunkEnv) (c : ChunkResult) (later : List PipeEffect)
      → r.start / chunk_size ≤ k
      → k ≤ r.end / chunk_size
      → ((b : Bytes) → data_of c ≡ some b → b ≡ chunk file k)
      → All (IsOwn r file) later
      → All (IsOwn r file) (on_chunk r k e c later)
  unfolding on_chunk
  on_chunk-IsOwn k e stopped later s t g p = tt
  on_chunk-IsOwn k e failed later s t g p = (tt, tt)
  on_chunk-IsOwn k e (cached_chunk b) later s t g p = send_chunk-IsOwn k e b later p
  on_chunk-IsOwn k e (fresh_chunk b) later s t g p =
      ((s, t, g b refl), send_chunk-IsOwn k e b later p)

  module _ (has_refresh : Bool) (env : ℕ → ChunkEnv) (f : (k : ℕ) → IsFaithful file k (env k)) where
    pipe_loop-IsOwn :
        (left k : ℕ)
        → r.start / chunk_size ≤ k
        → k + left ≤ r.end / chunk_size + 1
        → All (IsOwn r file) (pipe_loop has_refresh r env left k)
    unfolding pipe_loop
    pipe_loop-IsOwn zero k s t = tt
    pipe_loop-IsOwn (suc left) k s t =
        on_chunk-IsOwn k (env k) (chunk_result has_refresh k (env k)) _ s (omega arith)
          (chunk_result-IsFaithful has_refresh file k (env k) (f k))
          (pipe_loop-IsOwn left (k + 1) (omega arith) (omega arith))

-- Whatever happens, each chunk that the pipe puts into the cache is one of the range's, under its
-- own index and with the file's bytes, for a range that does not end before it starts and data
-- that is the file's.
pub inserts-IsOwn :
    (has_refresh : Bool) (r : ByteRange) (file : Bytes) (env : ℕ → ChunkEnv)
    → r.start ≤ r.end
    → ((k : ℕ) → IsFaithful file k (env k))
    → All (IsOwn r file) (create_stream_pipe has_refresh r env)
unfolding create_stream_pipe
inserts-IsOwn has_refresh r file env h f =
    pipe_loop-IsOwn r file has_refresh env f _ (r.start / chunk_size) (omega arith) (omega arith)

-- A header that is accepted for the file's size gives a range of which, with the receiver there and
-- every chunk served, as many bytes are sent as the range's length says.
pub body_length :
    (has_refresh : Bool) (header : Text) (r : ByteRange) (file : Bytes) (env : ℕ → ChunkEnv)
    → parse_range header (length file) ≡ ok r
    → ((k : ℕ) → IsFaithful file k (env k))
    → ((k : ℕ) → r.start / chunk_size ≤ k → k ≤ r.end / chunk_size → IsServed has_refresh k (env k))
    → length (sent (create_stream_pipe has_refresh r env)) ≡ Range.length r
unfolding Range.length
body_length has_refresh header r file env y f served =
    let w = parse_range-IsWithin header (length file) r y in
    let u : r.start ≤ r.end = w.0.ordered in
    let v : r.end < length file = w.0.inside in
    let e = sent-segment has_refresh r file env u v f served in
    let n = length-take (r.end + 1 - r.start) (drop r.start file) in
    let d = length-drop r.start file in rw e (omega (arith, n, d))
