-- ===== src/Orchestrator/Jobs.antt =====
-- crates/engine/src/orchestrator/mod.rs: `start_job` and `cancel_job`. Each stretch of `start_job`
-- between two locks is a function of the state that the jobs share, and a step applies one of them to
-- a job that stands before it, so that jobs and callers interleave freely. What `run_job` returns is
-- chosen by the step. The id of a job is fresh, a key of a target is named by a number, and a panic
-- outside `run_job` is left out.
pub mod Admission
pub mod Record
pub mod Moves
pub mod Ending
pub mod Terminal
pub mod Inflight
pub mod Waiting
pub mod Exclusive
use alac_bot.Prelude.{
  ℕ, ◌+◌, ◌≡◌, Bool, true, false, not, ◌&&◌, ◌||◌, Option, none, some, List, [], ◌∷◌, leb, ◌==◌,
  if◌then◌else◌, any, ◌++◌,
}
use alac_bot.Prelude.Text.{Text, codes}

pub data OrchestratorError : Type 0 where
  cancelled admission_limit user_admission_limit : OrchestratorError
  message resolution_failed : Text → OrchestratorError

-- A summary is named by a number.
pub data RunResult : Type 0 where
  ok : ℕ → RunResult
  err : OrchestratorError → RunResult

pub data TerminalJobState : Type 0 where
  completed cancelled failed : TerminalJobState

pub data JobPhase : Type 0 where
  resolving waiting_duplicate : JobPhase

pub data OrchestratorEvent : Type 0 where
  created progress : ℕ → OrchestratorEvent
  completed : ℕ → ℕ → OrchestratorEvent
  cancelled : ℕ → Option Text → OrchestratorEvent
  failed : ℕ → OrchestratorError → OrchestratorEvent

pub record RipJobOptions : Type 0 where
  pub provider : Text
  pub is_supported : Bool
  pub user_id : ℕ
  pub is_admin : Bool
  pub target_keys : List ℕ

pub record JobShared : Type 0 where
  pub target_keys : List ℕ
  pub phase : JobPhase
  pub waits_for : Option ℕ
  pub is_cancelled : Bool
  pub cancelled_by : Option Text
  pub completed : Bool
  pub terminal_state : Option TerminalJobState

-- Where the call of `start_job` for a job stands.
pub data Stage : Type 0 where
  absent : Stage
  -- `admit` has returned
  admitted at_lookup at_claim running : Stage
  -- an entry of that job was found; its notification is awaited; it has come
  found waiting woken : ℕ → Stage
  -- the entry of the job itself is removed; `is_cancelled` was read; the terminal event is out; the
  -- job has left the table
  finished : RunResult → Stage
  closing : RunResult → Bool → Stage
  settled unlisted : RunResult → Stage
  -- `start_job` has returned, after the job was admitted or without that
  returned rejected : RunResult → Stage

-- The events are the latest first.
pub record Engine : Type 0 where
  pub admissions : List (ℕ × ℕ × Bool)
  pub jobs : List ℕ
  pub inflight_items : ℕ → Option ℕ
  pub shared : ℕ → JobShared
  pub stage : ℕ → Stage
  pub events : List OrchestratorEvent

abbrev pub update {ℓ} : {A : Type ℓ} → ℕ → A → (ℕ → A) → ℕ → A
update i a f j = if j == i then a else f j

unfoldable pub new_job : List ℕ → JobShared
new_job keys = record {
  target_keys = keys;
  phase = JobPhase.resolving;
  waits_for = none;
  is_cancelled = false;
  cancelled_by = none;
  completed = false;
  terminal_state = none;
}

unfoldable pub new_engine : Engine
unfolding new_job
new_engine = record {
  admissions = [];
  jobs = [];
  inflight_items = λ k. none;
  shared = λ i. new_job [];
  stage = λ i. Stage.absent;
  events = [];
}

abbrev pub emit : OrchestratorEvent → Engine → Engine
emit ev e = record e { events = ev ∷ e.events }

abbrev pub go_to : ℕ → Stage → Engine → Engine
go_to id s e = record e { stage = update id s e.stage }

unfoldable pub remove_admission : ℕ → List (ℕ × ℕ × Bool) → List (ℕ × ℕ × Bool)
remove_admission id [] = []
remove_admission id ((i, user, admin) ∷ rest) =
    let others = remove_admission id rest in if i == id then others else (i, user, admin) ∷ others

unfoldable pub non_admin_jobs : List (ℕ × ℕ × Bool) → ℕ
non_admin_jobs [] = 0
non_admin_jobs ((i, user, admin) ∷ rest) = (if admin then 0 else 1) + non_admin_jobs rest

unfoldable pub user_jobs : ℕ → List (ℕ × ℕ × Bool) → ℕ
user_jobs id [] = 0
user_jobs id ((i, user, admin) ∷ rest) = (if user == id then 1 else 0) + user_jobs id rest

-- `none` is an admission.
unfoldable pub admit : RipJobOptions → List (ℕ × ℕ × Bool) → Option OrchestratorError
unfolding non_admin_jobs user_jobs
admit o jobs =
    if o.is_admin
    then none
    else if leb 16 (non_admin_jobs jobs)
    then some OrchestratorError.admission_limit
    else if leb 4 (user_jobs o.user_id jobs)
    then some OrchestratorError.user_admission_limit
    else none

-- A job that is let in.
unfoldable pub let_in : ℕ → RipJobOptions → Engine → Engine
unfolding new_job remove_admission
let_in id o e = record (go_to id Stage.admitted e) {
  admissions = (id, o.user_id, o.is_admin) ∷ remove_admission id e.admissions;
  shared = update id (new_job o.target_keys) e.shared;
}

abbrev unsupported : Text → OrchestratorError
unsupported provider =
    OrchestratorError.message (codes "provider " ++ provider ++ codes " is not available")

-- The head of `start_job`.
unfoldable pub begin_job : ℕ → RipJobOptions → Engine → Engine
unfolding admit let_in
begin_job id o e =
    if not o.is_supported
    then go_to id (Stage.rejected (RunResult.err (unsupported o.provider))) e
    else elim (admit o e.admissions) [
      | some error ↦ go_to id (Stage.rejected (RunResult.err error)) e
      | none ↦ let_in id o e
    ]

unfoldable pub remove_job : ℕ → List ℕ → List ℕ
remove_job id [] = []
remove_job id (i ∷ rest) = let others = remove_job id rest in if i == id then others else i ∷ others

unfoldable pub list_job : ℕ → Engine → Engine
unfolding remove_job
list_job id e =
    emit (created id) (record (go_to id Stage.at_lookup e) { jobs = id ∷ remove_job id e.jobs })

-- `find_map` over the keys
unfoldable pub find_inflight : List ℕ → (ℕ → Option ℕ) → Option ℕ
find_inflight [] table = none
find_inflight (k ∷ keys) table =
    let rest = find_inflight keys table in elim (table k) [ some w ↦ some w | none ↦ rest ]

abbrev pub after_lookup : Option ℕ → Stage
after_lookup (some w) = Stage.found w
after_lookup none = Stage.at_claim

unfoldable pub lookup : ℕ → Engine → Engine
unfolding find_inflight
lookup id e = go_to id (after_lookup (find_inflight (e.shared id).target_keys e.inflight_items)) e

unfoldable pub insert_all : List ℕ → ℕ → (ℕ → Option ℕ) → ℕ → Option ℕ
insert_all [] id table = table
insert_all (k ∷ keys) id table = insert_all keys id (update k (some id) table)

unfoldable pub claim : ℕ → Engine → Engine
unfolding insert_all
claim id e = record (go_to id Stage.running e) {
  inflight_items = insert_all (e.shared id).target_keys id e.inflight_items;
}

-- The phase, the activity, the progress event, and the call of `notified`.
unfoldable pub register : ℕ → ℕ → Engine → Engine
register id w e = emit (progress id) (record (go_to id (Stage.waiting w) e) {
  shared =
      update id (record (e.shared id) { phase = JobPhase.waiting_duplicate; waits_for = some w })
        e.shared;
})

abbrev pub is_cancelled_state : TerminalJobState → Bool
is_cancelled_state TerminalJobState.cancelled = true
is_cancelled_state _ = false

-- A cancellation that was accepted before wins.
abbrev pub final_state : TerminalJobState → JobShared → TerminalJobState
final_state state job =
    if not (is_cancelled_state state) && job.is_cancelled then TerminalJobState.cancelled else state

unfoldable pub terminal_events :
    ℕ
    → Option Text
    → Option ℕ
    → Option OrchestratorError
    → TerminalJobState
    → List OrchestratorEvent
terminal_events id by (some summary) error TerminalJobState.completed =
    OrchestratorEvent.completed id summary ∷ []
terminal_events id by none error TerminalJobState.completed = []
terminal_events id by summary error TerminalJobState.cancelled =
    OrchestratorEvent.cancelled id by ∷ []
terminal_events id by summary (some e) TerminalJobState.failed = OrchestratorEvent.failed id e ∷ []
terminal_events id by summary none TerminalJobState.failed = []

abbrev pub is_some {ℓ} : {A : Type ℓ} → Option A → Bool
is_some none = false
is_some (some a) = true

-- A job that has ended is left alone.
abbrev pub ended_job : TerminalJobState → JobShared → JobShared
ended_job state job =
    if is_some job.terminal_state
    then job
    else record job { terminal_state = some (final_state state job); completed = true }

unfoldable pub terminalize :
    ℕ → TerminalJobState → Option ℕ → Option OrchestratorError → Engine → Engine
unfolding terminal_events
terminalize id state summary error e =
    let job = e.shared id in
    record e {
      shared = update id (ended_job state job) e.shared;
      events =
          (if is_some job.terminal_state
            then []
            else terminal_events id job.cancelled_by summary error (final_state state job))
          ++ e.events;
    }

-- `InflightGuard.finish`: the keys are removed whoever owns them, and the waiters that have called
-- `notified` on the entry are woken.
unfoldable pub remove_all : List ℕ → (ℕ → Option ℕ) → ℕ → Option ℕ
remove_all [] table = table
remove_all (k ∷ keys) table = remove_all keys (update k none table)

unfoldable pub wake : ℕ → Stage → Stage
wake w (Stage.waiting v) = if v == w then Stage.woken v else Stage.waiting v
wake w s = s

unfoldable pub notify_waiters : ℕ → (ℕ → Stage) → ℕ → Stage
unfolding wake
notify_waiters w stage i = wake w (stage i)

unfoldable pub finish_job : ℕ → RunResult → Engine → Engine
unfolding remove_all notify_waiters
finish_job id result e = record e {
  inflight_items = remove_all (e.shared id).target_keys e.inflight_items;
  stage = update id (Stage.finished result) (notify_waiters id e.stage);
}

-- `is_cancelled` is read under the lock, and acted on after it.
unfoldable pub read_cancelled : ℕ → RunResult → Engine → Engine
read_cancelled id result e = go_to id (Stage.closing result (e.shared id).is_cancelled) e

unfoldable pub close_job : ℕ → RunResult → Bool → Engine → Engine
unfolding terminalize
close_job id result true e =
    go_to id (Stage.settled result) (terminalize id TerminalJobState.cancelled none none e)
close_job id (ok summary) false e =
    go_to id (Stage.settled (ok summary))
      (terminalize id TerminalJobState.completed (some summary) none e)
close_job id (err error) false e =
    go_to id (Stage.settled (err error))
      (terminalize id TerminalJobState.failed none (some error) e)

-- A wait that a cancellation ends.
unfoldable pub give_up_wait : ℕ → Engine → Engine
unfolding terminalize
give_up_wait id e =
    go_to id (Stage.settled (err OrchestratorError.cancelled))
      (terminalize id TerminalJobState.cancelled none none e)

unfoldable pub unlist : ℕ → RunResult → Engine → Engine
unfolding remove_job
unlist id result e = record (go_to id (Stage.unlisted result) e) { jobs = remove_job id e.jobs }

unfoldable pub release_admission : ℕ → RunResult → Engine → Engine
unfolding remove_admission
release_admission id result e = record (go_to id (Stage.returned result) e) {
  admissions = remove_admission id e.admissions;
}

abbrev pub is_cancellable : ℕ → Engine → Bool
is_cancellable id e =
    any (λ i. i == id) e.jobs
    && not ((e.shared id).is_cancelled || is_some (e.shared id).terminal_state)

-- `cancel_job`, with its answer.
unfoldable pub cancel_job : ℕ → Option Text → Engine → Bool × Engine
cancel_job id by e =
    let job = e.shared id in
    if is_cancellable id e
    then (
      true,
      record e {
        shared = update id (record job { is_cancelled = true; cancelled_by = by }) e.shared;
      },
    )
    else (false, e)

unfoldable pub get_active_jobs : Engine → List ℕ
get_active_jobs e = active e.jobs
  where
    active : List ℕ → List ℕ
    active [] = []
    active (i ∷ rest) =
        let others = active rest in if (e.shared i).completed then others else i ∷ others

unfoldable pub get_job : ℕ → Engine → Option JobShared
get_job id e = if any (λ i. i == id) e.jobs then some (e.shared id) else none

-- One stretch of one job, or a call of `cancel_job`.
pub data Step (e : Engine) : Engine → Type 0 where
  begins : (id : ℕ) (o : RipJobOptions) → e.stage id ≡ Stage.absent → Step e (begin_job id o e)
  lists : (id : ℕ) → e.stage id ≡ Stage.admitted → Step e (list_job id e)
  looks_up : (id : ℕ) → e.stage id ≡ Stage.at_lookup → Step e (lookup id e)
  claims : (id : ℕ) → e.stage id ≡ Stage.at_claim → Step e (claim id e)
  registers : (id w : ℕ) → e.stage id ≡ Stage.found w → Step e (register id w e)
  resumes : (id w : ℕ) → e.stage id ≡ Stage.woken w → Step e (go_to id Stage.at_lookup e)
  gives_up_waiting :
      (id w : ℕ)
      → e.stage id ≡ Stage.waiting w
      → (e.shared id).is_cancelled ≡ true
      → Step e (give_up_wait id e)
  gives_up_woken :
      (id w : ℕ)
      → e.stage id ≡ Stage.woken w
      → (e.shared id).is_cancelled ≡ true
      → Step e (give_up_wait id e)
  finishes : (id : ℕ) (r : RunResult) → e.stage id ≡ Stage.running → Step e (finish_job id r e)
  reads : (id : ℕ) (r : RunResult) → e.stage id ≡ Stage.finished r → Step e (read_cancelled id r e)
  closes :
      (id : ℕ) (r : RunResult) (c : Bool)
      → e.stage id ≡ Stage.closing r c
      → Step e (close_job id r c e)
  unlists : (id : ℕ) (r : RunResult) → e.stage id ≡ Stage.settled r → Step e (unlist id r e)
  releases :
      (id : ℕ) (r : RunResult) → e.stage id ≡ Stage.unlisted r → Step e (release_admission id r e)
  cancels : (id : ℕ) (by : Option Text) → Step e (cancel_job id by e).1

-- What the steps lead to from `e`.
pub data Reach (e : Engine) : Engine → Type 0 where
  here : Reach e e
  next : {f g : Engine} → Reach e f → Step f g → Reach e g
