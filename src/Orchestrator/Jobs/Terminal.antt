-- ===== src/Orchestrator/Jobs/Terminal.antt =====
-- crates/engine/src/orchestrator/mod.rs: each job has its slot, its place in the table and its one
-- terminal event at the right stages.
use alac_bot.Prelude.{ℕ, refl}
use alac_bot.Orchestrator.Jobs.{
  Engine, Step, begins, lists, looks_up, claims, registers, resumes, gives_up_waiting,
  gives_up_woken, finishes, reads, closes, unlists, releases, cancels, Reach, here, next,
  new_engine, new_job,
}
use alac_bot.Orchestrator.Jobs.Record.{Keeps}
use alac_bot.Orchestrator.Jobs.Moves.{
  lookup-Keeps, list_job-Keeps, begin_job-Keeps, claim-Keeps, register-Keeps, resume-Keeps,
  finish_job-Keeps, read_cancelled-Keeps, unlist-Keeps, release_admission-Keeps,
}
use alac_bot.Orchestrator.Jobs.Ending.{close_job-Keeps, give_up_wait-Keeps, cancel_job-Keeps}

Step-Keeps : {e f : Engine} → Step e f → ((i : ℕ) → Keeps e i) → (i : ℕ) → Keeps f i
Step-Keeps {e} (begins id o q) k = begin_job-Keeps e id o q k
Step-Keeps {e} (lists id q) k = list_job-Keeps e id q k
Step-Keeps {e} (looks_up id q) k = lookup-Keeps e id q k
Step-Keeps {e} (claims id q) k = claim-Keeps e id q k
Step-Keeps {e} (registers id w q) k = register-Keeps e id w q k
Step-Keeps {e} (resumes id w q) k = resume-Keeps e id w q k
Step-Keeps {e} (gives_up_waiting id w q c) k = give_up_wait-Keeps e id _ refl refl refl q c k
Step-Keeps {e} (gives_up_woken id w q c) k = give_up_wait-Keeps e id _ refl refl refl q c k
Step-Keeps {e} (finishes id r q) k = finish_job-Keeps e id r q k
Step-Keeps {e} (reads id r q) k = read_cancelled-Keeps e id r q k
Step-Keeps {e} (closes id r c q) k = close_job-Keeps e id r c q k
Step-Keeps {e} (unlists id r q) k = unlist-Keeps e id r q k
Step-Keeps {e} (releases id r q) k = release_admission-Keeps e id r q k
Step-Keeps {e} (cancels id by) k = cancel_job-Keeps e id by k

-- In every state that jobs reach, a job holds a slot from its admission until it returns, stands in
-- the table from its creation until it is settled, and has had no terminal event before it is settled
-- and exactly one after it: `Cancelled` if a cancellation was accepted, and otherwise the one that
-- says what it returns.
pub Reach-Keeps : {e : Engine} → Reach new_engine e → (i : ℕ) → Keeps e i
unfolding new_engine new_job
Reach-Keeps here i = record { slot = refl; listed = refl; ending = (refl, refl, refl); read = tt }
Reach-Keeps (next r s) i = Step-Keeps s (λ j. Reach-Keeps r j) i
