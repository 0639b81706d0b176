-- ===== src/Stream/Pool/Outcome.antt =====
-- crates/stream/src/worker_pool.rs: what a fetch returns is decided by the responses alone, and it ends
-- when its attempts and the migrations are used up.
use alac_bot.Prelude.{
  ℕ, zero, suc, ◌+◌, ◌*◌, ◌≤◌, ◌≡◌, refl, ap, sym, ◌∙◌, Bool, true, false, not, ◌||◌, Option, none,
  some, List, [], ◌∷◌, ◌++◌, arith, ltb, leb, ◌==◌, if◌then◌else◌, Bool-cases, inl, inr, subst,
}
use alac_bot.Prelude.Text.{Text, codes, text_eq}
use alac_bot.Stream.Pipe.{Bytes}
use alac_bot.Stream.Pool.{
  StreamError, StreamResult, ok, err, Response, Turn, Pool, Chosen, PoolEffect, Fetched, finished,
  unfinished, return, leave, again, worker, primary, after_effects, give_up, go_on, respond, pass,
  chunk_loop, fetch_chunk, max_attempts_of, choose, pick_least_loaded, note_success, note_flood,
  again_unless, sleep, file, cdn_redirect, timed_out, migration, rpc, network, other, request,
  after_flood, sleeps_through, fallback_worker,
}

-- What a response means: the end, an attempt less, or the same request at another data centre.
pub data Verdict : Type 0 where
  ends : StreamResult Bytes → Verdict
  counts redirects : Verdict

abbrev pub verdict : Response → Verdict
verdict (file b) = ends (ok b)
verdict cdn_redirect = ends (err StreamError.unsupported_cdn_redirect)
verdict timed_out = counts
verdict (Response.flood_wait secs) = counts
verdict (migration dc detail) = redirects
verdict (rpc name detail) =
    if text_eq name (codes "FILE_REFERENCE_EXPIRED")
    then ends (err StreamError.file_reference_expired)
    else if text_eq name (codes "CONNECTION_NOT_INITED")
    then counts
    else ends (err (StreamError.telegram detail))
verdict (network detail) = counts
verdict (other detail) = ends (err (StreamError.telegram detail))

-- The error that a response which ends nothing becomes when no attempt is left.
abbrev pub last_error : Response → StreamError
last_error timed_out = StreamError.all_workers_unavailable
last_error (Response.flood_wait secs) = StreamError.flood_wait secs
last_error (migration dc detail) = StreamError.telegram detail
last_error (rpc name detail) = StreamError.telegram detail
last_error (network detail) = StreamError.telegram detail
last_error _ = StreamError.all_workers_unavailable

-- What is left when the attempts are used up: what one more response of the primary worker means.
abbrev pub ending : Bool → Response → StreamResult Bytes
ending has_primary last =
    if has_primary
    then elim (verdict last) [
      | ends x ↦ x
      | counts ↦ err (last_error last)
      | redirects ↦ err (last_error last)
    ]
    else err StreamError.all_workers_unavailable

abbrev pub resolve : StreamResult Bytes → ℕ → List Response → StreamResult Bytes
resolve e zero rs = e
resolve e (suc left) [] = e
resolve e (suc left) (r ∷ rs) = elim (verdict r) [
  | ends x ↦ x
  | counts ↦ resolve e left rs
  | redirects ↦ resolve e (suc left) rs
]

-- The responses of the next `k` passes.
abbrev pub responses : (ℕ → Turn) → ℕ → ℕ → List Response
responses turns n zero = []
responses turns n (suc k) = (turns n).response ∷ responses turns (n + 1) k

abbrev pub redirect_count : List Response → ℕ
redirect_count [] = 0
redirect_count (r ∷ rs) =
    (elim (verdict r) [ ends x ↦ 0 | counts ↦ 0 | redirects ↦ 1 ]) + redirect_count rs

abbrev pub result_of : Fetched → Option (StreamResult Bytes)
result_of (finished r p dc effects) = some r
result_of unfinished = none

abbrev IsLike : Bool → ℕ → Pool → Type 0
IsLike has_primary worker_count p = (p.has_primary ≡ has_primary) × (p.worker_count ≡ worker_count)

result_of-after_effects :
    (done : List PoolEffect) (f : Fetched) → result_of (after_effects done f) ≡ result_of f
result_of-after_effects done (finished r p dc effects) = refl
result_of-after_effects done unfinished = refl

result_of-give_up :
    (last : Response) (p : Pool) (dc : ℕ)
    → result_of (give_up last p dc) ≡ some (ending p.has_primary last)
unfolding give_up
result_of-give_up last p dc = ground arith

note_success-IsLike :
    (b : Bool) (k : ℕ) (c : Chosen) (p : Pool) → IsLike b k p → IsLike b k (note_success c p)
unfolding note_success
note_success-IsLike b k (worker id) p h = h
note_success-IsLike b k primary p h = h

note_flood-IsLike :
    (b : Bool) (k : ℕ) (c : Chosen) (now secs : ℕ) (p : Pool)
    → IsLike b k p
    → IsLike b k (note_flood c now secs p)
unfolding note_flood
note_flood-IsLike b k (worker id) now secs p h = h
note_flood-IsLike b k primary now secs p h = h

pick_least_loaded-IsLike :
    (b : Bool) (k : ℕ) (p : Pool) (t : Turn) → IsLike b k p → IsLike b k (pick_least_loaded p t).1
unfolding pick_least_loaded
pick_least_loaded-IsLike b k p t h = elim (Bool-cases (p.worker_count == 0)) [
  | inl e ↦ rw e h
  | inr e ↦ rw e h
]

-- A pool with a worker or a primary one always chooses.
abbrev pub is_served : Pool → Bool
is_served p = p.has_primary || not (p.worker_count == 0)

abbrev IsSome {ℓ} : {A : Type ℓ} → Option A → Type 0
IsSome none = ⊥
IsSome (some a) = Unit

fallback_worker-IsSome : (p : Pool) → is_served p ≡ true → IsSome (fallback_worker p)
fallback_worker-IsSome p h = elim (Bool-cases p.has_primary) [
  | inl e ↦ rw e tt
  | inr e ↦ elim (Bool-cases (p.worker_count == 0)) [ inl z ↦ ground arith | inr z ↦ rw (e, z) tt ]
]

choose-IsSome : (p : Pool) (t : Turn) → is_served p ≡ true → IsSome (choose p t).0
unfolding choose
choose-IsSome p t h = go (pick_least_loaded p t).0
  where
    go :
        (o : Option ℕ)
        → IsSome (elim o [ some id ↦ some (worker id, []) | none ↦ fallback_worker p ])
    go none = fallback_worker-IsSome p h
    go (some id) = tt

-- The passes after one that made an attempt, or was redirected, are those of the specification.
abbrev IsRest : Bool → ℕ → Response → ℕ → ℕ → List Response → (ℕ → ℕ → Pool → Fetched) → Type 0
IsRest b k last attempts left rs rest =
    (dc : ℕ) (p : Pool)
    → IsLike b k p
    → result_of (rest attempts dc p) ≡ some (resolve (ending b last) left rs)

go_on-again :
    (b : Bool) (k : ℕ) (last : Response) (attempts left dc dc0 : ℕ) (p : Pool)
    (done : List PoolEffect) (rs : List Response) (rest : ℕ → ℕ → Pool → Fetched)
    → IsLike b k p
    → IsRest b k last attempts left rs rest
    → result_of (go_on last (again attempts dc, p, done) dc0 rest)
      ≡ some (resolve (ending b last) left rs)
go_on-again b k last attempts left dc dc0 p done rs rest l h =
    result_of-after_effects done (rest attempts dc p) ∙ h dc p l

resolve-zero :
    (e : StreamResult Bytes) (left : ℕ) (rs : List Response) → left ≡ 0 → e ≡ resolve e left rs
resolve-zero e left rs h = subst (λ n. e ≡ resolve e n rs) (sym h) refl

go_on-leave :
    (b : Bool) (k : ℕ) (last : Response) (left dc0 : ℕ) (p : Pool) (done : List PoolEffect)
    (rs : List Response) (rest : ℕ → ℕ → Pool → Fetched)
    → IsLike b k p
    → left ≡ 0
    → result_of (go_on last (leave, p, done) dc0 rest) ≡ some (resolve (ending b last) left rs)
go_on-leave b k last left dc0 p done rs rest l h =
    result_of-after_effects done (give_up last p dc0)
    ∙ result_of-give_up last p dc0
    ∙ ap (λ c. some (ending c last)) l.0
    ∙ ap some (resolve-zero (ending b last) left rs h)

go_on-again_unless :
    (b : Bool) (k : ℕ) (last : Response) (max_attempts attempts left dc dc0 : ℕ) (p : Pool)
    (done : List PoolEffect) (rs : List Response) (rest : ℕ → ℕ → Pool → Fetched)
    → max_attempts ≡ attempts + left
    → IsLike b k p
    → IsRest b k last attempts left rs rest
    → result_of (go_on last (again_unless max_attempts attempts dc, p, done) dc0 rest)
      ≡ some (resolve (ending b last) left rs)
go_on-again_unless b k last max_attempts attempts left dc dc0 p done rs rest m l h =
    elim (Bool-cases (leb max_attempts attempts)) [
      | inl e ↦ rw e (
          go_on-leave b k last left dc0 p done rs rest l (none_left max_attempts attempts left m e))
      | inr e ↦ rw e (go_on-again b k last attempts left dc dc0 p done rs rest l h)
    ]
  where
    none_left : (m a l : ℕ) → m ≡ a + l → leb m a ≡ true → l ≡ 0
    none_left m a l h k = ground arith

after_flood-result :
    (b : Bool) (k : ℕ) (c : Chosen) (t : Turn) (secs : ℕ) (last : Response)
    (max_attempts attempts left dc : ℕ) (p : Pool) (rs : List Response)
    (rest : ℕ → ℕ → Pool → Fetched)
    → max_attempts ≡ attempts + left
    → IsLike b k p
    → IsRest b k last attempts left rs rest
    → result_of (go_on last (after_flood c t secs max_attempts attempts dc p) dc rest)
      ≡ some (resolve (ending b last) left rs)
after_flood-result b k c t secs last max_attempts attempts left dc p rs rest m l h =
    elim (Bool-cases (sleeps_through p t)) [
      | inl e ↦ rw e (
          go_on-again b k last attempts left dc dc (note_success c p)
            (sleep ((secs + 1) * 1000) ∷ []) rs rest (note_success-IsLike b k c p l) h)
      | inr e ↦
          rw e (go_on-again_unless b k last max_attempts attempts left dc dc p [] rs rest m l h)
    ]

-- An error of the server, by the tests of its name.
rpc-result :
    (b : Bool) (k : ℕ) (last : Response) (detail : Text) (max_attempts attempts left dc : ℕ)
    (p : Pool) (rs : List Response) (rest : ℕ → ℕ → Pool → Fetched) (expired not_inited : Bool)
    → max_attempts ≡ attempts + 1 + left
    → IsLike b k p
    → IsRest b k last (attempts + 1) left rs rest
    → result_of (
        go_on last
          (if expired
            then (return (err StreamError.file_reference_expired), p, [])
            else if not_inited
            then (again_unless max_attempts (attempts + 1) dc, p, sleep 500 ∷ [])
            else (return (err (StreamError.telegram detail)), p, []))
          dc
          rest)
      ≡ some
          (elim (if expired
            then ends (err StreamError.file_reference_expired)
            else if not_inited
            then counts
            else ends (err (StreamError.telegram detail))) [
              | ends x ↦ x
              | counts ↦ resolve (ending b last) left rs
              | redirects ↦ resolve (ending b last) (suc left) rs
            ])
rpc-result b k last detail max_attempts attempts left dc p rs rest true not_inited m l h = refl
rpc-result b k last detail max_attempts attempts left dc p rs rest false true m l h =
    go_on-again_unless b k last max_attempts (attempts + 1) left dc dc p (sleep 500 ∷ []) rs rest m
      l h
rpc-result b k last detail max_attempts attempts left dc p rs rest false false m l h = refl

respond-result :
    (b : Bool) (k : ℕ) (c : Chosen) (t : Turn) (last : Response) (max_attempts attempts left dc : ℕ)
    (p : Pool) (rs : List Response) (rest : ℕ → ℕ → Pool → Fetched) (r : Response)
    → max_attempts ≡ attempts + 1 + left
    → IsLike b k p
    → IsRest b k last (attempts + 1) left rs rest
    → (verdict r ≡ redirects → IsRest b k last attempts (suc left) rs rest)
    → result_of (go_on last (respond c t max_attempts attempts dc p r) dc rest)
      ≡ some (resolve (ending b last) (suc left) (r ∷ rs))
unfolding respond
respond-result b k c t last max_attempts attempts left dc p rs rest (file x) m l h g = refl
respond-result b k c t last max_attempts attempts left dc p rs rest cdn_redirect m l h g = refl
respond-result b k c t last max_attempts attempts left dc p rs rest timed_out m l h g =
    go_on-again_unless b k last max_attempts (attempts + 1) left dc dc p
      (sleep (200 * (attempts + 1)) ∷ []) rs rest m l h
respond-result b k c t last max_attempts attempts left dc p rs rest (Response.flood_wait secs) m l h
      g =
    after_flood-result b k c t secs last max_attempts (attempts + 1) left dc
      (note_flood c t.quarantined_at secs p) rs rest m
      (note_flood-IsLike b k c t.quarantined_at secs p l) h
respond-result b k c t last max_attempts attempts left dc p rs rest (migration new_dc detail) m l h
      g =
    go_on-again b k last attempts (suc left) new_dc dc p [] rs rest l (g refl)
respond-result b k c t last max_attempts attempts left dc p rs rest (rpc name detail) m l h g =
    rpc-result b k last detail max_attempts attempts left dc p rs rest
      (text_eq name (codes "FILE_REFERENCE_EXPIRED")) (text_eq name (codes "CONNECTION_NOT_INITED"))
      m l h
respond-result b k c t last max_attempts attempts left dc p rs rest (network detail) m l h g =
    go_on-again_unless b k last max_attempts (attempts + 1) left dc dc p
      (sleep (200 * (attempts + 1)) ∷ []) rs rest m l h
respond-result b k c t last max_attempts attempts left dc p rs rest (other detail) m l h g = refl

pass-result :
    (b : Bool) (k : ℕ) (t : Turn) (last : Response) (max_attempts attempts left dc : ℕ) (p : Pool)
    (rs : List Response) (rest : ℕ → ℕ → Pool → Fetched)
    → is_served p ≡ true
    → max_attempts ≡ attempts + 1 + left
    → IsLike b k p
    → IsRest b k last (attempts + 1) left rs rest
    → (verdict t.response ≡ redirects → IsRest b k last attempts (suc left) rs rest)
    → result_of (pass t last max_attempts attempts dc p rest)
      ≡ some (resolve (ending b last) (suc left) (t.response ∷ rs))
unfolding pass choose
pass-result b k t last max_attempts attempts left dc p rs rest served m l h g =
    go (choose p t).0 (choose-IsSome p t served)
  where
    picked : Pool
    picked = (pick_least_loaded p t).1

    go :
        (o : Option (Chosen × List PoolEffect))
        → IsSome o
        → result_of (elim o [
          | none ↦ finished (err StreamError.all_workers_unavailable) picked dc []
          | some c ↦
              after_effects
                (c.1 ++ request c.0 dc ∷ [])
                (go_on last (respond c.0 t max_attempts attempts dc picked t.response) dc rest)
        ])
          ≡ some (resolve (ending b last) (suc left) (t.response ∷ rs))
    go none e = elim e [ ]
    go (some c) e =
        result_of-after_effects (c.1 ++ request c.0 dc ∷ [])
          (go_on last (respond c.0 t max_attempts attempts dc picked t.response) dc rest)
        ∙ respond-result b k c.0 t last max_attempts attempts left dc picked rs rest t.response m
            (pick_least_loaded-IsLike b k p t l) h g

is_served-like :
    (b : Bool) (k : ℕ) (p : Pool) → b || not (k == 0) ≡ true → IsLike b k p → is_served p ≡ true
is_served-like b k p h l =
    ap (λ c. c || not (p.worker_count == 0)) l.0 ∙ ap (λ n. b || not (n == 0)) l.1 ∙ h

rest_bound :
    (v : Verdict) (count left f : ℕ)
    → (elim v [ ends x ↦ 0 | counts ↦ 0 | redirects ↦ 1 ]) + count + suc left ≤ suc f
    → (count + left ≤ f) × (v ≡ redirects → count + suc left ≤ f)
rest_bound (ends x) count left f h = (omega (arith, h), λ e. ground arith)
rest_bound counts count left f h = (omega (arith, h), λ e. ground arith)
rest_bound redirects count left f h = (omega (arith, h), λ e. omega (arith, h))

chunk_loop-over :
    (b : Bool) (k : ℕ) (turns : ℕ → Turn) (last : Response) (max_attempts f n attempts dc : ℕ)
    (p : Pool)
    → max_attempts ≡ attempts + 0
    → IsLike b k p
    → result_of (chunk_loop turns last max_attempts (suc f) n attempts dc p) ≡ some (ending b last)
unfolding chunk_loop
chunk_loop-over b k turns last max_attempts f n attempts dc p m l =
    let over : ltb attempts max_attempts ≡ false = ground arith in
    rw over (result_of-give_up last p dc ∙ ap (λ c. some (ending c last)) l.0)

chunk_loop-result :
    (b : Bool) (k : ℕ) (turns : ℕ → Turn) (last : Response) (max_attempts left f n attempts dc : ℕ)
    (p : Pool)
    → b || not (k == 0) ≡ true
    → max_attempts ≡ attempts + left
    → IsLike b k p
    → redirect_count (responses turns n f) + left ≤ f
    → result_of (chunk_loop turns last max_attempts (suc f) n attempts dc p)
      ≡ some (resolve (ending b last) left (responses turns n f))
unfolding chunk_loop
chunk_loop-result b k turns last max_attempts zero f n attempts dc p s m l h =
    chunk_loop-over b k turns last max_attempts f n attempts dc p m l
chunk_loop-result b k turns last max_attempts (suc left) zero n attempts dc p s m l h =
    elim (no_fuel left h) [ ]
  where
    no_fuel : (left : ℕ) → 0 + suc left ≤ 0 → ⊥
    no_fuel left h = omega (arith, h)
chunk_loop-result b k turns last max_attempts (suc left) (suc f) n attempts dc p s m l h =
    let more : ltb attempts max_attempts ≡ true = ground arith in
    let (enough, redirected) =
      rest_bound (verdict (turns n).response) (redirect_count (responses turns (n + 1) f)) left f
        h in
    rw more (
      pass-result b k (turns n) last max_attempts attempts left dc p (responses turns (n + 1) f)
        (λ attempts' dc' after.
          chunk_loop turns last max_attempts (suc f) (n + 1) attempts' dc' after)
        (is_served-like b k p s l) (omega (arith, m)) l
        (λ dc' after like.
          chunk_loop-result b k turns last max_attempts left f (n + 1) (attempts + 1) dc' after s
            (omega (arith, m)) like enough)
        (λ v dc' after like.
          chunk_loop-result b k turns last max_attempts (suc left) f (n + 1) attempts dc' after s m
            like (redirected v)))

-- With a worker or a primary one, and one pass for each attempt and each migration met, a fetch ends,
-- and what it returns is read off the responses in their order: the first that is not tried again
-- decides, and when the attempts are used up, the primary worker's last response, if there is one. The
-- choices, the quarantines and the pauses do not change it.
pub fetch_chunk-resolve :
    (fuel : ℕ) (turns : ℕ → Turn) (last : Response) (dc : ℕ) (p : Pool)
    → is_served p ≡ true
    → redirect_count (responses turns 0 fuel) + max_attempts_of p ≤ fuel
    → result_of (fetch_chunk (suc fuel) turns last dc p)
      ≡ some (resolve (ending p.has_primary last) (max_attempts_of p) (responses turns 0 fuel))
unfolding fetch_chunk
fetch_chunk-resolve fuel turns last dc p s h =
    chunk_loop-result p.has_primary p.worker_count turns last (max_attempts_of p)
      (max_attempts_of p) fuel 0 0 dc p s (omega arith) (refl, refl) h

pass-unfinished :
    (t : Turn) (last : Response) (max_attempts attempts dc new_dc : ℕ) (detail : Text) (p : Pool)
    (rest : ℕ → ℕ → Pool → Fetched)
    → is_served p ≡ true
    → t.response ≡ migration new_dc detail
    → ((dc' : ℕ) (after : Pool) → is_served after ≡ true → rest attempts dc' after ≡ unfinished)
    → pass t last max_attempts attempts dc p rest ≡ unfinished
unfolding pass choose respond
pass-unfinished t last max_attempts attempts dc new_dc detail p rest served r h =
    go (choose p t).0 (choose-IsSome p t served)
  where
    picked : Pool
    picked = (pick_least_loaded p t).1

    still_served : is_served picked ≡ true
    still_served =
        is_served-like p.has_primary p.worker_count picked served
          (pick_least_loaded-IsLike p.has_primary p.worker_count p t (refl, refl))

    redirected :
        (c : Chosen) (done : List PoolEffect) (x : Response)
        → x ≡ migration new_dc detail
        → after_effects done (go_on last (respond c t max_attempts attempts dc picked x) dc rest)
          ≡ unfinished
    redirected c done x e =
        ap
          (λ y.
            after_effects done (go_on last (respond c t max_attempts attempts dc picked y) dc rest))
          e
        ∙ ap (λ f. after_effects done (after_effects [] f)) (h new_dc picked still_served)

    go :
        (o : Option (Chosen × List PoolEffect))
        → IsSome o
        → elim o [
          | none ↦ finished (err StreamError.all_workers_unavailable) picked dc []
          | some c ↦
              after_effects
                (c.1 ++ request c.0 dc ∷ [])
                (go_on last (respond c.0 t max_attempts attempts dc picked t.response) dc rest)
        ]
          ≡ unfinished
    go none e = elim e [ ]
    go (some c) e = redirected c.0 (c.1 ++ request c.0 dc ∷ []) t.response r

chunk_loop-unfinished :
    (turns : ℕ → Turn) (last : Response) (max_attempts fuel n attempts dc : ℕ) (p : Pool)
    (dcs : ℕ → ℕ) (details : ℕ → Text)
    → is_served p ≡ true
    → ltb attempts max_attempts ≡ true
    → ((i : ℕ) → (turns i).response ≡ migration (dcs i) (details i))
    → chunk_loop turns last max_attempts fuel n attempts dc p ≡ unfinished
unfolding chunk_loop
chunk_loop-unfinished turns last max_attempts zero n attempts dc p dcs details s m h = refl
chunk_loop-unfinished turns last max_attempts (suc fuel) n attempts dc p dcs details s m h = rw m (
    pass-unfinished (turns n) last max_attempts attempts dc (dcs n) (details n) p
      (λ attempts' dc' after. chunk_loop turns last max_attempts fuel (n + 1) attempts' dc' after) s
      (h n)
      (λ dc' after s'.
        chunk_loop-unfinished turns last max_attempts fuel (n + 1) attempts dc' after dcs details s'
          m h))

-- A fetch whose every response is a migration makes no end, however many passes it is given: a
-- migration is not counted as an attempt.
pub fetch_chunk-migration :
    (fuel : ℕ) (turns : ℕ → Turn) (last : Response) (dc : ℕ) (p : Pool) (dcs : ℕ → ℕ)
    (details : ℕ → Text)
    → is_served p ≡ true
    → ((i : ℕ) → (turns i).response ≡ migration (dcs i) (details i))
    → fetch_chunk fuel turns last dc p ≡ unfinished
unfolding fetch_chunk
fetch_chunk-migration fuel turns last dc p dcs details s h =
    chunk_loop-unfinished turns last (max_attempts_of p) fuel 0 0 dc p dcs details s (ground arith)
      h
