-- ===== src/Tests/Workers.antt =====
-- crates/stream/src/worker_pool.rs with two workers.
use alac_bot.Prelude.{ℕ, zero, suc, ◌+◌, ◌≡◌, refl, false, some, [], ◌∷◌, arith}
use alac_bot.Prelude.Text.{codes}
use alac_bot.Stream.Breaker.{WorkerState}
use alac_bot.Stream.Pool.{ok, Response, Turn, Pool, fetch_chunk, pick_least_loaded, unfinished}
use alac_bot.Stream.Pool.Choice.{IsPick, pick_least_loaded-IsPick}
use alac_bot.Stream.Pool.Outcome.{
  resolve, ending, responses, result_of, fetch_chunk-resolve, fetch_chunk-migration,
}

abbrev pool : Pool
pool = record {
  worker_count = 2;
  breaker = WorkerState.quarantined 400 ∷ WorkerState.healthy ∷ [];
  rr_cursor = 6;
  has_primary = false;
}

abbrev turn_of : Response → Turn
turn_of r = record {
  asked_at = λ id. 100 + id;
  in_flight = λ id. 3;
  response = r;
  quarantined_at = 120;
  counted_at = 130;
}

-- A migration, a flood, a network error, and the file.
abbrev turns : ℕ → Turn
turns zero = turn_of (Response.migration 4 (codes "FILE_MIGRATE_4"))
turns (suc zero) = turn_of (Response.flood_wait 2)
turns (suc (suc zero)) = turn_of (Response.network (codes "reset"))
turns (suc (suc (suc n))) = turn_of (Response.file (7 ∷ []))

pick_test : (pick_least_loaded pool (turns 0)).0 ≡ some 1
unfolding pick_least_loaded
pick_test = refl

fetch_test : result_of (fetch_chunk 5 turns Response.timed_out 2 pool) ≡ some (ok (7 ∷ []))
unfolding fetch_chunk
fetch_test = refl

pick_least_loaded-IsPick_example :
    IsPick pool (turns 0) (pick_least_loaded pool (turns 0)).0
    × ((pick_least_loaded pool (turns 0)).1.breaker ≡ pool.breaker)
pick_least_loaded-IsPick_example = pick_least_loaded-IsPick pool (turns 0) (λ id. omega arith)

fetch_chunk-resolve_example :
    result_of (fetch_chunk 5 turns Response.timed_out 2 pool)
    ≡ some (resolve (ending false Response.timed_out) 3 (responses turns 0 4))
fetch_chunk-resolve_example =
    fetch_chunk-resolve 4 turns Response.timed_out 2 pool refl (omega arith)

abbrev moving : ℕ → Turn
moving i = turn_of (Response.migration i [])

fetch_chunk-migration_example : fetch_chunk 50 moving Response.timed_out 2 pool ≡ unfinished
fetch_chunk-migration_example =
    fetch_chunk-migration 50 moving Response.timed_out 2 pool (λ i. i) (λ i. []) refl (λ i. refl)
