-- ===== src/Stream/Pool.antt =====
-- crates/stream/src/worker_pool.rs: the choice of a worker, and `fetch_chunk`. The id of a worker is
-- its place in the pool. An instant is a number of milliseconds. Logging is left out.
pub mod Choice
pub mod Outcome
use alac_bot.Prelude.{
  ℕ, zero, suc, ◌+◌, ◌-◌, ◌*◌, ◌%◌, max, Bool, true, false, not, ◌&&◌, ◌||◌, Option, none, some,
  List, [], ◌∷◌, ◌++◌, ltb, leb, ◌==◌, if◌then◌else◌,
}
use alac_bot.Prelude.Words.{u64_mod}
use alac_bot.Prelude.Text.{Text, codes, text_eq}
use alac_bot.Stream.Pipe.{Bytes}
use alac_bot.Stream.Breaker.{Breaker, is_available, quarantine, record_success, available_count}

-- crates/stream/src/lib.rs: `StreamError`, those of a fetch.
pub data StreamError : Type 0 where
  file_reference_expired all_workers_unavailable unsupported_cdn_redirect : StreamError
  flood_wait : ℕ → StreamError
  telegram : Text → StreamError

pub data StreamResult {ℓ} (A : Type ℓ) : Type ℓ where
  ok : A → StreamResult A
  err : StreamError → StreamResult A

-- How a request ends: the file, or the kind of the error, with its text.
pub data Response : Type 0 where
  file : Bytes → Response
  cdn_redirect timed_out : Response
  flood_wait : ℕ → Response
  migration : ℕ → Text → Response
  rpc : Text → Text → Response
  network other : Text → Response

-- What the clock and the other fetches show to a pass of the loop: when each worker is asked about and
-- its load, the response, and when a quarantine starts and the available workers are counted.
pub record Turn : Type 0 where
  pub asked_at : ℕ → ℕ
  pub in_flight : ℕ → ℕ
  pub response : Response
  pub quarantined_at : ℕ
  pub counted_at : ℕ

pub record Pool : Type 0 where
  pub worker_count : ℕ
  pub breaker : Breaker
  pub rr_cursor : ℕ
  pub has_primary : Bool

abbrev pub usize_max : ℕ
usize_max = u64_mod - 1

-- The best worker so far and its load.
abbrev pub Best : Type 0
Best = Option ℕ × ℕ

unfoldable pub visit : Breaker → Turn → ℕ → Best → Best
unfolding is_available
visit states t idx best =
    if is_available states idx (t.asked_at idx)
    then (if ltb (t.in_flight idx) best.1 then (some idx, t.in_flight idx) else best)
    else best

-- `for offset in 0..n`, by the offsets that are left.
unfoldable pub visit_from : Breaker → Turn → ℕ → ℕ → ℕ → ℕ → Best → Best
unfolding visit
visit_from states t n start offset zero best = best
visit_from states t n start offset (suc left) best =
    visit_from states t n start (offset + 1) left (visit states t ((start + offset) % n) best)

-- The least loaded worker, and the pool with its cursor moved.
unfoldable pub pick_least_loaded : Pool → Turn → Option ℕ × Pool
unfolding visit_from
pick_least_loaded p t = if p.worker_count == 0 then (none, p) else (
  (visit_from p.breaker t p.worker_count (p.rr_cursor % p.worker_count) 0 p.worker_count
      (none, usize_max)).0,
  record p { rr_cursor = (p.rr_cursor + 1) % u64_mod },
)

-- A worker of the pool, or the primary one.
pub data Chosen : Type 0 where
  worker : ℕ → Chosen
  primary : Chosen

pub data PoolEffect : Type 0 where
  request : Chosen → ℕ → PoolEffect
  sleep : ℕ → PoolEffect

abbrev pub fallback_worker : Pool → Option (Chosen × List PoolEffect)
fallback_worker p =
    if p.has_primary
    then some (primary, [])
    else if not (p.worker_count == 0)
    then some (worker 0, sleep 500 ∷ [])
    else none

-- With what is slept before the request; `none` is the error that no worker is available.
unfoldable pub choose : Pool → Turn → Option (Chosen × List PoolEffect) × Pool
unfolding pick_least_loaded
choose p t =
    let (picked, after) = pick_least_loaded p t in
    (elim picked [ some id ↦ some (worker id, []) | none ↦ fallback_worker p ], after)

-- The records of the breaker are for the workers of the pool alone.
unfoldable pub note_success : Chosen → Pool → Pool
unfolding record_success
note_success (worker id) p = record p { breaker = record_success p.breaker id }
note_success primary p = p

unfoldable pub note_flood : Chosen → ℕ → ℕ → Pool → Pool
unfolding quarantine
note_flood (worker id) now secs p = record p {
  breaker = quarantine p.breaker id now ((secs + 1) * 1000);
}
note_flood primary now secs p = p

-- What the loop does after a response: it returns, leaves the loop, or goes on, with the attempts made
-- and the data centre.
pub data Next : Type 0 where
  return : StreamResult Bytes → Next
  leave : Next
  again : ℕ → ℕ → Next

abbrev pub again_unless : ℕ → ℕ → ℕ → Next
again_unless max_attempts attempts dc =
    if leb max_attempts attempts then leave else again attempts dc

abbrev pub sleeps_through : Pool → Turn → Bool
sleeps_through p t = leb p.worker_count 1 || available_count p.breaker t.counted_at == 0

abbrev pub after_flood : Chosen → Turn → ℕ → ℕ → ℕ → ℕ → Pool → Next × Pool × List PoolEffect
after_flood c t secs max_attempts attempts dc p =
    if sleeps_through p t
    then (again attempts dc, note_success c p, sleep ((secs + 1) * 1000) ∷ [])
    else (again_unless max_attempts attempts dc, p, [])

unfoldable pub respond : Chosen → Turn → ℕ → ℕ → ℕ → Pool → Response → Next × Pool × List PoolEffect
unfolding note_success note_flood available_count text_eq
respond c t max_attempts attempts dc p (file b) = (return (ok b), note_success c p, [])
respond c t max_attempts attempts dc p cdn_redirect = (return (err unsupported_cdn_redirect), p, [])
respond c t max_attempts attempts dc p timed_out =
    (again_unless max_attempts (attempts + 1) dc, p, sleep (200 * (attempts + 1)) ∷ [])
respond c t max_attempts attempts dc p (flood_wait secs) =
    after_flood c t secs max_attempts (attempts + 1) dc (note_flood c t.quarantined_at secs p)
respond c t max_attempts attempts dc p (migration new_dc detail) = (again attempts new_dc, p, [])
respond c t max_attempts attempts dc p (rpc name detail) =
    if text_eq name (codes "FILE_REFERENCE_EXPIRED")
    then (return (err file_reference_expired), p, [])
    else if text_eq name (codes "CONNECTION_NOT_INITED")
    then (again_unless max_attempts (attempts + 1) dc, p, sleep 500 ∷ [])
    else (return (err (telegram detail)), p, [])
respond c t max_attempts attempts dc p (network detail) =
    (again_unless max_attempts (attempts + 1) dc, p, sleep (200 * (attempts + 1)) ∷ [])
respond c t max_attempts attempts dc p (other detail) = (return (err (telegram detail)), p, [])

-- The last request, of the primary worker.
unfoldable pub last_response : Response → StreamResult Bytes
unfolding text_eq
last_response (file b) = ok b
last_response cdn_redirect = err unsupported_cdn_redirect
last_response timed_out = err all_workers_unavailable
last_response (flood_wait secs) = err (flood_wait secs)
last_response (migration new_dc detail) = err (telegram detail)
last_response (rpc name detail) =
    if text_eq name (codes "FILE_REFERENCE_EXPIRED")
    then err file_reference_expired
    else err (telegram detail)
last_response (network detail) = err (telegram detail)
last_response (other detail) = err (telegram detail)

-- What a fetch returns, the pool and the data centre after it, and what it did. `unfinished` is a loop
-- that is still going when the fuel is used up.
pub data Fetched : Type 0 where
  finished : StreamResult Bytes → Pool → ℕ → List PoolEffect → Fetched
  unfinished : Fetched

abbrev pub after_effects : List PoolEffect → Fetched → Fetched
after_effects done (finished r p dc effects) = finished r p dc (done ++ effects)
after_effects done unfinished = unfinished

-- After the loop.
unfoldable pub give_up : Response → Pool → ℕ → Fetched
unfolding last_response
give_up last p dc =
    if p.has_primary
    then finished (last_response last) p dc (request primary dc ∷ [])
    else finished (err all_workers_unavailable) p dc []

abbrev pub go_on : Response → Next × Pool × List PoolEffect → ℕ → (ℕ → ℕ → Pool → Fetched) → Fetched
go_on last (return r, p, done) dc rest = finished r p dc done
go_on last (leave, p, done) dc rest = after_effects done (give_up last p dc)
go_on last (again attempts next_dc, p, done) dc rest = after_effects done (rest attempts next_dc p)

-- A pass of the loop, `rest` being the passes after it.
unfoldable pub pass : Turn → Response → ℕ → ℕ → ℕ → Pool → (ℕ → ℕ → Pool → Fetched) → Fetched
unfolding choose respond give_up
pass t last max_attempts attempts dc p rest =
    let (chosen, picked) = choose p t in
    elim chosen [
      | none ↦ finished (err all_workers_unavailable) picked dc []
      | some c ↦
          after_effects (c.1 ++ request c.0 dc ∷ [])
            (go_on last (respond c.0 t max_attempts attempts dc picked t.response) dc rest)
    ]

-- `while attempts < max_attempts`, from the pass of number `n` on.
unfoldable pub chunk_loop : (ℕ → Turn) → Response → ℕ → ℕ → ℕ → ℕ → ℕ → Pool → Fetched
unfolding pass
chunk_loop turns last max_attempts zero n attempts dc p = unfinished
chunk_loop turns last max_attempts (suc fuel) n attempts dc p =
    if ltb attempts max_attempts
    then pass (turns n) last max_attempts attempts dc p
        (λ attempts' dc' after. chunk_loop turns last max_attempts fuel (n + 1) attempts' dc' after)
    else give_up last p dc

abbrev pub max_attempts_of : Pool → ℕ
max_attempts_of p = max p.worker_count 3

unfoldable pub fetch_chunk : ℕ → (ℕ → Turn) → Response → ℕ → Pool → Fetched
unfolding chunk_loop
fetch_chunk fuel turns last dc p = chunk_loop turns last (max_attempts_of p) fuel 0 0 dc p
