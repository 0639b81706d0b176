-- ===== src/Orchestrator/Jobs/Ending.antt =====
-- crates/engine/src/orchestrator/mod.rs: `terminalize`, its callers, and `cancel_job`.
use alac_bot.Prelude.{
  ℕ, ◌≡◌, Bool, true, false, Option, none, some, List, [], ◌∷◌, arith, ◌==◌, Bool-cases, inl, inr,
  subst, refl, ◌∙◌,
}
use alac_bot.Prelude.Text.{Text}
use alac_bot.Orchestrator.Jobs.{
  Engine, Stage, JobShared, OrchestratorEvent, RunResult, give_up_wait, close_job, cancel_job,
  terminalize, is_cancellable, TerminalJobState, is_some, OrchestratorError, update, go_to,
  terminal_events, ended_job, final_state,
}
use alac_bot.Orchestrator.Jobs.Record.{
  Keeps, KeptAt, IsTold, IsRead, told, at, moved, update-own, due, is_terminal_of, has_slot,
  is_listed, ended_result,
}

due-is_terminal_of :
    (i id : ℕ) (job : JobShared) (r : RunResult) → is_terminal_of i (due id job r) ≡ (id == i)
due-is_terminal_of i id job (RunResult.ok n) = ground arith
due-is_terminal_of i id job (RunResult.err x) = ground arith

same_sym : (i j : ℕ) → (i == j) ≡ false → (j == i) ≡ false
same_sym i j h = ground arith

told-due_own :
    (id : ℕ) (job : JobShared) (r : RunResult) (events : List OrchestratorEvent)
    → told id events ≡ []
    → told id (due id job r ∷ events) ≡ due id job r ∷ []
told-due_own id job r events h = rw (due-is_terminal_of id id job r, h) (ground arith)

told-due_other :
    (i id : ℕ) (job : JobShared) (r : RunResult) (events : List OrchestratorEvent)
    → (i == id) ≡ false
    → told i (due id job r ∷ events) ≡ told i events
told-due_other i id job r events h = rw (due-is_terminal_of i id job r, same_sym i id h) refl

ended-told :
    (id : ℕ) (r : RunResult) (job : JobShared) (state : TerminalJobState)
    (events : List OrchestratorEvent)
    → is_some job.terminal_state ≡ false
    → events ≡ due id job r ∷ []
    → IsTold id (ended_job state job) events (some r)
ended-told id (RunResult.ok n) job state events h q = rw h (refl, refl, q)
ended-told id (RunResult.err n) job state events h q = rw h (refl, refl, q)

-- The one terminal event of a job that has not ended.
terminalize-Keeps :
    (e : Engine) (id : ℕ) (r : RunResult) (s : Stage) (state : TerminalJobState)
    (summary : Option ℕ) (error : Option OrchestratorError)
    → has_slot s ≡ true
    → is_listed s ≡ true
    → ended_result s ≡ none
    → KeptAt e id s
    → terminal_events id (e.shared id).cancelled_by summary error (final_state state (e.shared id))
      ≡ due id (e.shared id) r ∷ []
    → ((i : ℕ) → Keeps e i)
    → (i : ℕ) → Keeps (go_to id (Stage.settled r) (terminalize id state summary error e)) i
unfolding terminalize
terminalize-Keeps e id r s state summary error has listed open_job k0 q k =
    moved e (go_to id (Stage.settled r) (terminalize id state summary error e)) id (Stage.settled r)
      (update-own id _ e.stage)
      (rw (update-own id (ended_job state (e.shared id)) e.shared) record {
        slot = k0.slot ∙ has;
        listed = k0.listed ∙ listed;
        ending = ended-told id r (e.shared id) state _ none_yet.0 own_events;
        read = tt;
      })
      (λ i h. record {
        slot = refl;
        listed = refl;
        job = rw h refl;
        events = rw (none_yet.0, q) (told-due_other i id (e.shared id) r e.events h);
        stage = rw h refl;
      })
      k
  where
    none_yet : IsTold id (e.shared id) (told id e.events) none
    none_yet = subst (λ x. IsTold id (e.shared id) (told id e.events) x) open_job k0.ending

    own_events : told id (terminalize id state summary error e).events ≡ due id (e.shared id) r ∷ []
    own_events = rw (none_yet.0, q) (told-due_own id (e.shared id) r e.events none_yet.2)

pub close_job-Keeps :
    (e : Engine) (id : ℕ) (r : RunResult) (c : Bool)
    → e.stage id ≡ Stage.closing r c
    → ((i : ℕ) → Keeps e i)
    → (i : ℕ) → Keeps (close_job id r c e) i
unfolding close_job terminal_events
close_job-Keeps e id (RunResult.ok n) true q k =
    let k0 = at e id _ q (k id) in
    terminalize-Keeps e id _ _ TerminalJobState.cancelled none none refl refl refl k0
      (rw k0.read refl) k
close_job-Keeps e id (RunResult.err x) true q k =
    let k0 = at e id _ q (k id) in
    terminalize-Keeps e id _ _ TerminalJobState.cancelled none none refl refl refl k0
      (rw k0.read refl) k
close_job-Keeps e id (RunResult.ok n) false q k =
    terminalize-Keeps e id _ _ TerminalJobState.completed (some n) none refl refl refl
      (at e id _ q (k id)) (ground arith) k
close_job-Keeps e id (RunResult.err x) false q k =
    terminalize-Keeps e id _ _ TerminalJobState.failed none (some x) refl refl refl
      (at e id _ q (k id)) (ground arith) k

pub give_up_wait-Keeps :
    (e : Engine) (id : ℕ) (s : Stage)
    → has_slot s ≡ true
    → is_listed s ≡ true
    → ended_result s ≡ none
    → e.stage id ≡ s
    → (e.shared id).is_cancelled ≡ true
    → ((i : ℕ) → Keeps e i)
    → (i : ℕ) → Keeps (give_up_wait id e) i
unfolding give_up_wait terminal_events
give_up_wait-Keeps e id s has listed open_job q c k =
    terminalize-Keeps e id _ s TerminalJobState.cancelled none none has listed open_job
      (at e id _ q (k id)) (rw c refl) k

always-IsRead : (s : Stage) → IsRead s true
always-IsRead (Stage.closing r true) = refl
always-IsRead s = tt

open-IsTold :
    (id : ℕ) (by : Option Text) (job : JobShared) (events : List OrchestratorEvent)
    (x : Option RunResult)
    → is_some job.terminal_state ≡ false
    → IsTold id job events x
    → IsTold id (record job { is_cancelled = true; cancelled_by = by }) events x
open-IsTold id by job events none h k = k
open-IsTold id by job events (some r) h k = ground (arith, k.0, h)

set_cancelled : (id : ℕ) (by : Option Text) (e : Engine) → Engine
set_cancelled id by e = record e {
  shared = update id (record (e.shared id) { is_cancelled = true; cancelled_by = by }) e.shared;
}

pub cancel_job-Keeps :
    (e : Engine) (id : ℕ) (by : Option Text)
    → ((i : ℕ) → Keeps e i)
    → (i : ℕ) → Keeps (cancel_job id by e).1 i
unfolding cancel_job set_cancelled
cancel_job-Keeps e id by k = elim (Bool-cases (is_cancellable id e)) [
  | inr h ↦ rw h k
  | inl h ↦ rw h (
      moved e (set_cancelled id by e) id (e.stage id) refl
        (rw (update-own id _ e.shared) record {
          slot = (k id).slot;
          listed = (k id).listed;
          ending =
              open-IsTold id by (e.shared id) _ (ended_result (e.stage id)) (ground arith)
                (k id).ending;
          read = always-IsRead (e.stage id);
        })
        (λ i g. record { slot = refl; listed = refl; job = rw g refl; events = refl; stage = refl })
        k)
]
