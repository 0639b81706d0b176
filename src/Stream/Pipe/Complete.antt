-- ===== src/Stream/Pipe/Complete.antt =====
-- crates/stream/src/pipe.rs: when the whole range is sent, and what the cache is given.
use alac_bot.Prelude.{
  ℕ, zero, suc, ◌+◌, ◌-◌, ◌*◌, ◌/◌, ◌≤◌, ◌<◌, ◌≡◌, refl, ap, sym, ◌∙◌, inl, inr, ◌⊎◌, Bool, true,
  false, Option, Option-cases, none, some, List, [], arith, length, if◌then◌else◌, ◌==◌,
}
use alac_bot.Stream.Range.{ByteRange}
use alac_bot.Stream.Pipe.{
  Bytes, chunk_size, FetchResult, Attempt, ChunkEnv, PipeEffect, bytes_of, fetch_after, fetch_loop,
  ChunkResult, chunk_on_miss, chunk_result, on_chunk, send_chunk, pipe_loop, create_stream_pipe,
}
use alac_bot.Stream.Pipe.Segment.{segment}
use alac_bot.Stream.Pipe.Delivery.{
  sent, chunk, IsFaithful, data_of, from_of-first, left_from, left_from-step,
  chunk_result-IsFaithful, send_chunk-chunk,
}
use FetchResult.{reference_expired}
use ChunkResult.{stopped, failed, cached_chunk, fresh_chunk}

-- A round that yields bytes: the fetch does, or it says that the reference expired and the one
-- after a refresh does.
abbrev pub IsFruitful : Bool → Attempt → Type 0
IsFruitful has_refresh a =
    ((b : Bytes) × (bytes_of a.first ≡ some b))
    ⊎ ((b : Bytes) × (a.first ≡ reference_expired)
        × (has_refresh ≡ true)
        × (a.refreshed ≡ true)
        × (bytes_of a.second ≡ some b))

-- One of the three rounds yields bytes, with the receiver there until then.
abbrev pub IsFetched : Bool → ℕ → ChunkEnv → Type 0
IsFetched has_refresh k e =
    (i : ℕ) × (i < 3)
    × ((j : ℕ) → j ≤ i → (e.attempts (k * chunk_size) chunk_size j).closed ≡ false)
    × IsFruitful has_refresh (e.attempts (k * chunk_size) chunk_size i)

-- The receiver is there, and the chunk is in the cache or is fetched.
abbrev pub IsServed : Bool → ℕ → ChunkEnv → Type 0
IsServed has_refresh k e =
    (e.receiver_gone ≡ false)
    × (e.closed_at_head ≡ false)
    × (((b : Bytes) × (e.cached ≡ some b))
        ⊎ ((e.closed_on_miss ≡ false) × IsFetched has_refresh k e))

module _ (has_refresh : Bool) where
  fetch_after-bytes :
      (f : FetchResult) (a : Attempt) (b : Bytes)
      → bytes_of f ≡ some b
      → fetch_after has_refresh f a ≡ some b
  unfolding fetch_after
  fetch_after-bytes f a b y = ground arith

  fetch_after-some :
      (a : Attempt)
      → IsFruitful has_refresh a
      → (b : Bytes) × (fetch_after has_refresh a.first a ≡ some b)
  unfolding fetch_after
  fetch_after-some a (inl y) = (y.0, fetch_after-bytes a.first a y.0 y.1)
  fetch_after-some a (inr y) = (y.0, rw (y.1, y.2, y.3) y.4)

  abbrev IsFound : Option Bytes → Type 0
  IsFound o = (b : Bytes) × (o ≡ some b)

  -- A round that finds nothing leaves it to the later ones.
  either-IsFound :
      (c : Bool) (first later : Option Bytes)
      → c ≡ false
      → IsFound first ⊎ IsFound later
      → IsFound (if c then none else elim first [ some b ↦ some b | none ↦ later ])
  either-IsFound c (some x) later e y = (x, rw e refl)
  either-IsFound c none later e (inl y) = let z = y.1 in (y.0, ground arith)
  either-IsFound c none later e (inr y) = (y.0, rw e y.1)

  fetch_loop-IsFound :
      (attempts : ℕ → Attempt) (left start i : ℕ)
      → i < left
      → ((j : ℕ) → j ≤ i → (attempts (start + j)).closed ≡ false)
      → IsFruitful has_refresh (attempts (start + i))
      → IsFound (fetch_loop has_refresh attempts left start)
  unfolding fetch_loop
  fetch_loop-IsFound attempts zero start i l c y = ([], ground arith)
  fetch_loop-IsFound attempts (suc left) start zero l c y =
      let e : start + 0 ≡ start = omega arith in
      either-IsFound (attempts start).closed _ _ (rw (sym e) (c 0 (omega arith)))
        (inl (fetch_after-some (attempts start) (rw (sym e) y)))
  fetch_loop-IsFound attempts (suc left) start (suc i) l c y =
      let e : start + 0 ≡ start = omega arith in
      let f : (j : ℕ) → start + 1 + j ≡ start + suc j = λ j. omega arith in
      either-IsFound (attempts start).closed _ _ (rw (sym e) (c 0 (omega arith))) (
        inr (
          fetch_loop-IsFound attempts left (start + 1) i (omega arith)
            (λ j k. rw (f j) (c (suc j) (omega arith))) (rw (f i) y)))

  attempts-IsFound :
      (k : ℕ) (e : ChunkEnv)
      → IsFetched has_refresh k e
      → IsFound (fetch_loop has_refresh (e.attempts (k * chunk_size) chunk_size) 3 0)
  attempts-IsFound k e y =
      let f : (j : ℕ) → 0 + j ≡ j = λ j. omega arith in
      fetch_loop-IsFound (e.attempts (k * chunk_size) chunk_size) 3 0 y.0 y.1
        (λ j x. rw (f j) (y.2 j x)) (rw (f y.0) y.3)

  missed-some :
      (k : ℕ) (e : ChunkEnv) (b : Bytes)
      → e.closed_at_head ≡ false
      → e.cached ≡ none
      → e.closed_on_miss ≡ false
      → fetch_loop has_refresh (e.attempts (k * chunk_size) chunk_size) 3 0 ≡ some b
      → data_of (chunk_result has_refresh k e) ≡ some b
  unfolding chunk_result chunk_on_miss
  missed-some k e b h n m y = ground arith

  cached-some :
      (k : ℕ) (e : ChunkEnv) (b : Bytes)
      → e.closed_at_head ≡ false
      → e.cached ≡ some b
      → data_of (chunk_result has_refresh k e) ≡ some b
  unfolding chunk_result
  cached-some k e b h y = ground arith

  chunk_result-IsServed :
      (k : ℕ) (e : ChunkEnv)
      → IsServed has_refresh k e
      → IsFound (data_of (chunk_result has_refresh k e))
  chunk_result-IsServed k e y = elim (Option-cases e.cached) [
    | inr s ↦ (s.0, cached-some k e s.0 y.1 s.1)
    | inl n ↦ elim y.2 [
      | inl c ↦ (c.0, cached-some k e c.0 y.1 c.1)
      | inr c ↦ (let g = attempts-IsFound k e c.1 in (g.0, missed-some k e g.0 y.1 n c.0 g.1))
    ]
  ]

-- A chunk that is there is handled as `send_chunk` says.
on_chunk-data :
    (r : ByteRange) (k : ℕ) (e : ChunkEnv) (c : ChunkResult) (later : List PipeEffect) (b : Bytes)
    → data_of c ≡ some b
    → sent (on_chunk r k e c later) ≡ sent (send_chunk r k e b later)
unfolding on_chunk
on_chunk-data r k e stopped later b d = ground arith
on_chunk-data r k e failed later b d = ground arith
on_chunk-data r k e (cached_chunk c) later b d = ground arith
on_chunk-data r k e (fresh_chunk c) later b d = ground arith

from_of-last :
    (start end k : ℕ)
    → start ≤ end
    → k + 0 ≡ end / chunk_size + 1
    → end + 1 - (if k == start / chunk_size then start else k * chunk_size) ≡ 0
from_of-last start end k h t = ground arith

module _ (r : ByteRange) (file : Bytes) (h : r.start ≤ r.end) (l : r.end < length file) where
  send_chunk-all :
      (k : ℕ) (e : ChunkEnv) (later : List PipeEffect)
      → r.start / chunk_size ≤ k
      → k ≤ r.end / chunk_size
      → e.receiver_gone ≡ false
      → sent later ≡ left_from r file (k + 1)
      → sent (send_chunk r k e (chunk file k) later) ≡ left_from r file k
  send_chunk-all k e later s t g p =
      let q = send_chunk-chunk r file h l k e later s t in
      q ∙ rw (g, p) (left_from-step r file h l k s t)

  module _ (has_refresh : Bool) (env : ℕ → ChunkEnv) (f : (k : ℕ) → IsFaithful file k (env k))
      (served : (k : ℕ)
        → r.start / chunk_size ≤ k
        → k ≤ r.end / chunk_size
        → IsServed has_refresh k (env k)) where
    round_data :
        (k : ℕ)
        → r.start / chunk_size ≤ k
        → k ≤ r.end / chunk_size
        → data_of (chunk_result has_refresh k (env k)) ≡ some (chunk file k)
    round_data k s t =
        let g = chunk_result-IsServed has_refresh k (env k) (served k s t) in
        g.1 ∙ ap some (chunk_result-IsFaithful has_refresh file k (env k) (f k) g.0 g.1)

    pipe_loop-all :
        (left k : ℕ)
        → r.start / chunk_size ≤ k
        → k + left ≡ r.end / chunk_size + 1
        → sent (pipe_loop has_refresh r env left k) ≡ left_from r file k
    unfolding pipe_loop
    pipe_loop-all zero k s t = let e = from_of-last r.start r.end k h t in rw e refl
    pipe_loop-all (suc left) k s t =
        let u : k ≤ r.end / chunk_size = omega arith in
        on_chunk-data r k (env k) (chunk_result has_refresh k (env k)) _ (chunk file k)
          (round_data k s u)
        ∙ send_chunk-all k (env k) _ s u (served k s u).0
            (pipe_loop-all left (k + 1) (omega arith) (omega arith))

-- With the receiver there, and every chunk of the range either cached or fetched in one of the three
-- rounds, exactly the bytes of the range are sent: for a range inside the file, and data that is
-- the file's.
pub sent-segment :
    (has_refresh : Bool) (r : ByteRange) (file : Bytes) (env : ℕ → ChunkEnv)
    → r.start ≤ r.end
    → r.end < length file
    → ((k : ℕ) → IsFaithful file k (env k))
    → ((k : ℕ) → r.start / chunk_size ≤ k → k ≤ r.end / chunk_size → IsServed has_refresh k (env k))
    → sent (create_stream_pipe has_refresh r env) ≡ segment r.start (r.end + 1) file
unfolding create_stream_pipe
sent-segment has_refresh r file env h l f served =
    pipe_loop-all r file h l has_refresh env f served _ (r.start / chunk_size) (omega arith)
      (omega arith)
    ∙ ap (λ x. segment x (r.end + 1) file) (from_of-first r)
