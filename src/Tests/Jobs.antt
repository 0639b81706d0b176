-- ===== src/Tests/Jobs.antt =====
-- crates/engine/src/orchestrator/mod.rs: two requests for one target.
use alac_bot.Prelude.{ℕ, ◌≡◌, ◌⊎◌, refl, arith, ◌==◌, any, true, false, none, some, [], ◌∷◌}
use alac_bot.Prelude.Text.{codes}
use alac_bot.Orchestrator.Jobs.{
  Engine, Stage, RunResult, OrchestratorEvent, Reach, new_engine, begin_job, list_job, lookup,
  claim, register, finish_job, read_cancelled, close_job, unlist, release_admission, RipJobOptions,
  begins, lists, looks_up, claims, registers, finishes, reads, closes, unlists, releases, here,
  next, find_inflight, get_active_jobs,
}
use alac_bot.Orchestrator.Jobs.Admission.{IsLimited, Reach-IsLimited}
use alac_bot.Orchestrator.Jobs.Record.{IsKept, told, admitted}
use alac_bot.Orchestrator.Jobs.Terminal.{Reach-Keeps}
use alac_bot.Orchestrator.Jobs.Inflight.{Owns, Reach-IsOwned}
use alac_bot.Orchestrator.Jobs.Waiting.{Reach-IsStuck, has_begun}
use alac_bot.Orchestrator.Jobs.Exclusive.{FreshReach, start, step, FreshReach-exclusive, claim-both}

abbrev request : RipJobOptions
request = record {
  provider = codes "apple";
  is_supported = true;
  user_id = 5;
  is_admin = false;
  target_keys = 7 ∷ [];
}

-- Both have been listed.
abbrev two_jobs : Engine
two_jobs = list_job 2 (begin_job 2 request (list_job 1 (begin_job 1 request new_engine)))

two_jobs-Reach : Reach new_engine two_jobs
unfolding new_engine begin_job list_job
two_jobs-Reach =
    next (next (next (next here (begins 1 request refl)) (lists 1 refl)) (begins 2 request refl))
      (lists 2 refl)

-- The first one runs.
abbrev one_runs : Engine
one_runs = claim 1 (lookup 1 two_jobs)

one_runs-Reach : Reach new_engine one_runs
unfolding new_engine begin_job list_job lookup find_inflight
one_runs-Reach = next (next two_jobs-Reach (looks_up 1 refl)) (claims 1 refl)

-- It finishes between the other's lookup and its call of `notified`.
abbrev missed : Engine
missed = register 2 1 (finish_job 1 (RunResult.ok 40) (lookup 2 one_runs))

-- The first one returns.
abbrev after_return : Engine
after_return = release_admission 1 (RunResult.ok 40) (
    unlist 1 (RunResult.ok 40)
      (close_job 1 (RunResult.ok 40) false (read_cancelled 1 (RunResult.ok 40) missed)))

missed-Reach : Reach new_engine missed
unfolding new_engine begin_job list_job lookup find_inflight claim finish_job
missed-Reach =
    next (next (next one_runs-Reach (looks_up 2 refl)) (finishes 1 (RunResult.ok 40) refl))
      (registers 2 1 refl)

after_return-Reach : Reach missed after_return
unfolding new_engine begin_job list_job lookup find_inflight claim finish_job register
    read_cancelled close_job unlist
after_return-Reach =
    next
      (next
        (next (next here (reads 1 (RunResult.ok 40) refl)) (closes 1 (RunResult.ok 40) false refl))
        (unlists 1 (RunResult.ok 40) refl))
      (releases 1 (RunResult.ok 40) refl)

returned-Reach : Reach new_engine after_return
unfolding new_engine begin_job list_job lookup find_inflight claim finish_job register
    read_cancelled close_job unlist
returned-Reach =
    next
      (next
        (next (next missed-Reach (reads 1 (RunResult.ok 40) refl))
          (closes 1 (RunResult.ok 40) false refl))
        (unlists 1 (RunResult.ok 40) refl))
      (releases 1 (RunResult.ok 40) refl)

returned_test :
    (told 1 after_return.events ≡ OrchestratorEvent.completed 1 40 ∷ [])
    × (get_active_jobs after_return ≡ 2 ∷ [])
    × (after_return.inflight_items 7 ≡ none)
unfolding new_engine begin_job list_job lookup find_inflight claim finish_job register
    read_cancelled close_job unlist release_admission get_active_jobs
returned_test = (refl, refl, refl)

Reach-IsLimited_example : IsLimited after_return.admissions
Reach-IsLimited_example = Reach-IsLimited returned-Reach

Reach-Keeps_example :
    IsKept
      (admitted 1 after_return.admissions)
      (any (λ j. j == 1) after_return.jobs)
      1
      (after_return.shared 1)
      (told 1 after_return.events)
      (after_return.stage 1)
Reach-Keeps_example = Reach-Keeps returned-Reach 1

Reach-IsOwned_example : Owns one_runs 7 1
unfolding new_engine begin_job list_job lookup find_inflight claim
Reach-IsOwned_example = Reach-IsOwned one_runs-Reach 7 1 refl

-- The second job still waits although the first has returned.
Reach-IsStuck_example :
    (after_return.stage 2 ≡ Stage.waiting 1)
    ⊎ (((after_return.shared 2).is_cancelled ≡ true) × (has_begun (after_return.stage 2) ≡ true))
unfolding new_engine begin_job list_job lookup find_inflight claim finish_job register
Reach-IsStuck_example = Reach-IsStuck 2 1 refl refl after_return-Reach

-- Both have found the key free.
abbrev both_free : Engine
both_free = lookup 2 (lookup 1 two_jobs)

both_free-Reach : Reach new_engine both_free
unfolding new_engine begin_job list_job lookup find_inflight
both_free-Reach = next (next two_jobs-Reach (looks_up 1 refl)) (looks_up 2 refl)

claim-both_example :
    ((claim 2 (claim 1 both_free)).stage 1 ≡ Stage.running)
    × ((claim 2 (claim 1 both_free)).stage 2 ≡ Stage.running)
    × ((claim 2 (claim 1 both_free)).inflight_items 7 ≡ some 2)
unfolding new_engine begin_job list_job lookup find_inflight
claim-both_example = claim-both both_free 1 2 7 (λ p. ground arith) refl refl refl refl

one_runs-FreshReach : FreshReach new_engine one_runs
unfolding new_engine begin_job list_job lookup find_inflight
one_runs-FreshReach =
    step
      (step
        (step
          (step (step (step start (begins 1 request refl) tt) (lists 1 refl) tt)
            (begins 2 request refl) tt)
          (lists 2 refl) tt)
        (looks_up 1 refl) tt)
      (claims 1 refl) refl

FreshReach-exclusive_example : ◌≡◌ {A = ℕ} 1 1
unfolding new_engine begin_job list_job lookup find_inflight claim
FreshReach-exclusive_example = FreshReach-exclusive 1 1 7 one_runs-FreshReach refl refl refl refl
