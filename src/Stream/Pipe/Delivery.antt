-- ===== src/Stream/Pipe/Delivery.antt =====
-- crates/stream/src/pipe.rs: the bytes sent for a range, against the file's own.
use alac_bot.Prelude.{
  ℕ, zero, suc, ◌+◌, ◌-◌, ◌*◌, ◌/◌, ◌≤◌, ◌<◌, ◌≡◌, refl, ap, sym, subst, ◌∙◌, Bool, true, false,
  Option, none, some, List, [], ◌∷◌, ◌++◌, append_assoc, arith, ◌==◌, if◌then◌else◌, lt→ltb, length,
  take, drop, min, length-take, length-drop,
}
use alac_bot.Stream.Range.{ByteRange}
use alac_bot.Stream.Pipe.{
  Bytes, chunk_size, Attempt, ChunkEnv, PipeEffect, bytes_of, fetch_after, fetch_loop, ChunkResult,
  chunk_on_miss, chunk_result, slice, slice_start, slice_end, send_chunk, on_chunk, pipe_loop,
  create_stream_pipe,
}
use alac_bot.Stream.Pipe.Segment.{segment, segment-cover, slice-block}
use PipeEffect.{insert, send, fail}
use ChunkResult.{stopped, failed, cached_chunk, fresh_chunk}

-- The bytes that the receiver gets.
abbrev pub sent : List PipeEffect → Bytes
sent [] = []
sent (insert k b ∷ rest) = sent rest
sent (send b ∷ rest) = b ++ sent rest
sent (fail k ∷ rest) = sent rest

abbrev pub chunk : Bytes → ℕ → Bytes
chunk file k = take chunk_size (drop (k * chunk_size) file)

-- Where chunk `k` of the range begins and ends in the file.
abbrev pub from_of : ByteRange → ℕ → ℕ
from_of r k = if k == r.start / chunk_size then r.start else k * chunk_size

abbrev pub to_of : ByteRange → ℕ → ℕ
to_of r k = if k == r.end / chunk_size then r.end + 1 else k * chunk_size + chunk_size

-- What is left of the range from chunk `k` on.
abbrev pub left_from : ByteRange → Bytes → ℕ → Bytes
left_from r file k = segment (from_of r k) (r.end + 1) file

pub from_of-first : (r : ByteRange) → from_of r (r.start / chunk_size) ≡ r.start
from_of-first r = ground arith

start_of-sum :
    (start k : ℕ)
    → start / chunk_size ≤ k
    → k * chunk_size + (if k == start / chunk_size then start - k * chunk_size else 0)
      ≡ (if k == start / chunk_size then start else k * chunk_size)
start_of-sum start k s = ground arith

end_of-sum :
    (end k len total : ℕ)
    → len ≡ min chunk_size (total - k * chunk_size)
    → end < total
    → k ≤ end / chunk_size
    → k * chunk_size + min (if k == end / chunk_size then end - k * chunk_size + 1 else len) len
      ≡ (if k == end / chunk_size then end + 1 else k * chunk_size + chunk_size)
end_of-sum end k len total d l e = ground arith

to_of-min :
    (end k : ℕ)
    → k ≤ end / chunk_size
    → (if k == end / chunk_size then end + 1 else k * chunk_size + chunk_size)
      ≡ min (k * chunk_size + chunk_size) (end + 1)
to_of-min end k e = ground arith

next_from :
    (start k : ℕ)
    → start / chunk_size ≤ k
    → (if k + 1 == start / chunk_size then start else (k + 1) * chunk_size)
      ≡ k * chunk_size + chunk_size
next_from start k s = ground arith

from_of-le :
    (start k : ℕ)
    → start / chunk_size ≤ k
    → (if k == start / chunk_size then start else k * chunk_size) ≤ k * chunk_size + chunk_size
from_of-le start k s = ground arith

module _ (r : ByteRange) (file : Bytes) (h : r.start ≤ r.end) (l : r.end < length file) where
  length-chunk : (k : ℕ) → length (chunk file k) ≡ min chunk_size (length file - k * chunk_size)
  length-chunk k = length-take _ _ ∙ ap (min chunk_size) (length-drop _ _)

  slice_start-fit :
      (k : ℕ)
      → r.start / chunk_size ≤ k
      → k ≤ r.end / chunk_size
      → slice_start r k < length (chunk file k)
  slice_start-fit k s e = rw (length-chunk k) (ground arith)

  sliced-chunk :
      (k : ℕ)
      → r.start / chunk_size ≤ k
      → k ≤ r.end / chunk_size
      → slice
          (slice_start r k)
          (min (slice_end r k (chunk file k)) (length (chunk file k)))
          (chunk file k)
        ≡ segment (from_of r k) (to_of r k) file
  sliced-chunk k s e =
      let to = min (slice_end r k (chunk file k)) (length (chunk file k)) in
      let fit : to ≤ chunk_size = rw (length-chunk k) (omega arith) in
      let f : k * chunk_size + slice_start r k ≡ from_of r k = start_of-sum r.start k s in
      let t : k * chunk_size + to ≡ to_of r k =
        end_of-sum r.end k (length (chunk file k)) (length file) (length-chunk k) l e in
      rw (sym f, sym t) (slice-block (k * chunk_size) chunk_size (slice_start r k) to file fit)

  -- What is left from a chunk on is the chunk's part and what is left from the next on.
  pub left_from-step :
      (k : ℕ)
      → r.start / chunk_size ≤ k
      → k ≤ r.end / chunk_size
      → segment (from_of r k) (to_of r k) file ++ left_from r file (k + 1) ≡ left_from r file k
  left_from-step k s e =
      let t : to_of r k ≡ min (k * chunk_size + chunk_size) (r.end + 1) = to_of-min r.end k e in
      let n : from_of r (k + 1) ≡ k * chunk_size + chunk_size = next_from r.start k s in
      rw (t, n)
        (segment-cover (from_of r k) (k * chunk_size + chunk_size) (r.end + 1) file
          (from_of-le r.start k s))

-- What the cache holds for a chunk is the file's, and what the workers fetch is as many of the file's
-- bytes from the offset on as the limit says.
abbrev pub IsFaithful : Bytes → ℕ → ChunkEnv → Type 0
IsFaithful file k e =
    ((b : Bytes) → e.cached ≡ some b → b ≡ chunk file k)
    × ((o l i : ℕ) (b : Bytes)
        → bytes_of (e.attempts o l i).first ≡ some b
        → b ≡ take l (drop o file))
    × ((o l i : ℕ) (b : Bytes)
        → bytes_of (e.attempts o l i).second ≡ some b
        → b ≡ take l (drop o file))

abbrev pub data_of : ChunkResult → Option Bytes
data_of stopped = none
data_of failed = none
data_of (cached_chunk b) = some b
data_of (fresh_chunk b) = some b

module _ (has_refresh : Bool) (c : Bytes) (rounds : ℕ → Attempt)
    (f : (i : ℕ) (b : Bytes) → bytes_of (rounds i).first ≡ some b → b ≡ c)
    (g : (i : ℕ) (b : Bytes) → bytes_of (rounds i).second ≡ some b → b ≡ c) where
  fetch_after-IsFaithful :
      (i : ℕ) (b : Bytes) → fetch_after has_refresh (rounds i).first (rounds i) ≡ some b → b ≡ c
  unfolding fetch_after
  fetch_after-IsFaithful i b y = ground (arith, f i b, g i b)

  fetch_loop-IsFaithful :
      (left i : ℕ) (b : Bytes) → fetch_loop has_refresh rounds left i ≡ some b → b ≡ c
  unfolding fetch_loop
  fetch_loop-IsFaithful zero i b y = ground arith
  fetch_loop-IsFaithful (suc left) i b y =
      ground (arith, fetch_after-IsFaithful i b, fetch_loop-IsFaithful left (i + 1) b)

found-IsFaithful :
    (has_refresh : Bool) (c : Bytes) (k : ℕ) (e : ChunkEnv) (b : Bytes)
    → (e.cached ≡ some b → b ≡ c)
    → (fetch_loop has_refresh (e.attempts (k * chunk_size) chunk_size) 3 0 ≡ some b → b ≡ c)
    → data_of (chunk_result has_refresh k e) ≡ some b
    → b ≡ c
unfolding chunk_result chunk_on_miss
found-IsFaithful has_refresh c k e b f g y = ground (arith, f, g)

pub chunk_result-IsFaithful :
    (has_refresh : Bool) (file : Bytes) (k : ℕ) (e : ChunkEnv)
    → IsFaithful file k e
    → (b : Bytes) → data_of (chunk_result has_refresh k e) ≡ some b
    → b ≡ chunk file k
chunk_result-IsFaithful has_refresh file k e f b =
    found-IsFaithful has_refresh (chunk file k) k e b (f.0 b) (
      fetch_loop-IsFaithful has_refresh (chunk file k) (e.attempts (k * chunk_size) chunk_size)
        (f.1 (k * chunk_size) chunk_size) (f.2 (k * chunk_size) chunk_size) 3 0 b)

abbrev pub IsPrefix : Bytes → Bytes → Type 0
IsPrefix xs ys = (rest : Bytes) × (xs ++ rest ≡ ys)

sent-gone :
    (g : Bool) (b : Bytes) (later : List PipeEffect)
    → sent (if g then [] else send b ∷ later) ≡ (if g then [] else b ++ sent later)
sent-gone true b later = refl
sent-gone false b later = refl

gone-IsPrefix :
    (g : Bool) (a later next whole : Bytes)
    → a ++ next ≡ whole
    → IsPrefix later next
    → IsPrefix (if g then [] else a ++ later) whole
gone-IsPrefix true a later next whole e p = (whole, refl)
gone-IsPrefix false a later next whole e p =
    (p.0, append_assoc a later p.0 ∙ ap (λ x. a ++ x) p.1 ∙ e)

module _ (r : ByteRange) (file : Bytes) (h : r.start ≤ r.end) (l : r.end < length file) where
  -- The chunk that is there is sent, unless the receiver is gone.
  pub send_chunk-chunk :
      (k : ℕ) (e : ChunkEnv) (later : List PipeEffect)
      → r.start / chunk_size ≤ k
      → k ≤ r.end / chunk_size
      → sent (send_chunk r k e (chunk file k) later)
        ≡ (if e.receiver_gone then [] else segment (from_of r k) (to_of r k) file ++ sent later)
  unfolding send_chunk
  send_chunk-chunk k e later s t =
      rw (lt→ltb _ _ (slice_start-fit r file h l k s t), sym (sliced-chunk r file h l k s t))
        (sent-gone e.receiver_gone _ later)

  send_chunk-IsPrefix :
      (k : ℕ) (e : ChunkEnv) (later : List PipeEffect)
      → r.start / chunk_size ≤ k
      → k ≤ r.end / chunk_size
      → IsPrefix (sent later) (left_from r file (k + 1))
      → IsPrefix (sent (send_chunk r k e (chunk file k) later)) (left_from r file k)
  send_chunk-IsPrefix k e later s t p = rw (send_chunk-chunk k e later s t) (
      gone-IsPrefix e.receiver_gone _ (sent later) (left_from r file (k + 1)) _
        (left_from-step r file h l k s t) p)

  on_chunk-IsPrefix :
      (k : ℕ) (e : ChunkEnv) (c : ChunkResult) (later : List PipeEffect)
      → r.start / chunk_size ≤ k
      → k ≤ r.end / chunk_size
      → ((b : Bytes) → data_of c ≡ some b → b ≡ chunk file k)
      → IsPrefix (sent later) (left_from r file (k + 1))
      → IsPrefix (sent (on_chunk r k e c later)) (left_from r file k)
  unfolding on_chunk
  on_chunk-IsPrefix k e stopped later s t g p = (left_from r file k, refl)
  on_chunk-IsPrefix k e failed later s t g p = (left_from r file k, refl)
  on_chunk-IsPrefix k e (cached_chunk b) later s t g p =
      rw (g b refl) (send_chunk-IsPrefix k e later s t p)
  on_chunk-IsPrefix k e (fresh_chunk b) later s t g p =
      rw (g b refl) (send_chunk-IsPrefix k e later s t p)

  module _ (has_refresh : Bool) (env : ℕ → ChunkEnv) (f : (k : ℕ) → IsFaithful file k (env k)) where
    pipe_loop-IsPrefix :
        (left k : ℕ)
        → r.start / chunk_size ≤ k
        → k + left ≡ r.end / chunk_size + 1
        → IsPrefix (sent (pipe_loop has_refresh r env left k)) (left_from r file k)
    unfolding pipe_loop
    pipe_loop-IsPrefix zero k s t = (left_from r file k, refl)
    pipe_loop-IsPrefix (suc left) k s t =
        on_chunk-IsPrefix k (env k) (chunk_result has_refresh k (env k)) _ s (omega arith)
          (chunk_result-IsFaithful has_refresh file k (env k) (f k))
          (pipe_loop-IsPrefix left (k + 1) (omega arith) (omega arith))

-- Whatever the receiver, the cache and the workers do, what is sent is the file's bytes from the
-- range's start on, as far as it goes: with data that is the file's, and a range inside the file.
pub sent-IsPrefix :
    (has_refresh : Bool) (r : ByteRange) (file : Bytes) (env : ℕ → ChunkEnv)
    → r.start ≤ r.end
    → r.end < length file
    → ((k : ℕ) → IsFaithful file k (env k))
    → IsPrefix (sent (create_stream_pipe has_refresh r env)) (segment r.start (r.end + 1) file)
unfolding create_stream_pipe
sent-IsPrefix has_refresh r file env h l f =
    subst (λ x. IsPrefix (sent (create_stream_pipe has_refresh r env)) (segment x (r.end + 1) file))
      (from_of-first r)
      (pipe_loop-IsPrefix r file h l has_refresh env f _ (r.start / chunk_size) (omega arith)
        (omega arith))
