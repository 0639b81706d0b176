-- ===== src/Orchestrator/Jobs/Record.antt =====
-- crates/engine/src/orchestrator/mod.rs: what the state records of a job, at each stage of it.
use alac_bot.Prelude.{
  ℕ, ◌≡◌, Bool, true, false, ◌||◌, Option, none, some, List, [], ◌∷◌, arith, ◌==◌, if◌then◌else◌,
  Bool-cases, inl, inr, subst, refl, any, sym, ==_iff,
}
use alac_bot.Orchestrator.Jobs.{
  Engine, Stage, JobShared, OrchestratorEvent, RunResult, remove_job, remove_admission, is_some,
  update,
}

abbrev pub has_slot : Stage → Bool
has_slot Stage.absent = false
has_slot (Stage.returned r) = false
has_slot (Stage.rejected r) = false
has_slot s = true

abbrev pub is_listed : Stage → Bool
is_listed Stage.absent = false
is_listed Stage.admitted = false
is_listed (Stage.unlisted r) = false
is_listed (Stage.returned r) = false
is_listed (Stage.rejected r) = false
is_listed s = true

-- What `start_job` is going to return, once the terminal event is out.
abbrev pub ended_result : Stage → Option RunResult
ended_result (Stage.settled r) = some r
ended_result (Stage.unlisted r) = some r
ended_result (Stage.returned r) = some r
ended_result s = none

-- The terminal event that is due for a result.
abbrev pub due : ℕ → JobShared → RunResult → OrchestratorEvent
due id job (RunResult.ok summary) =
    if job.is_cancelled
    then OrchestratorEvent.cancelled id job.cancelled_by
    else OrchestratorEvent.completed id summary
due id job (RunResult.err e) =
    if job.is_cancelled
    then OrchestratorEvent.cancelled id job.cancelled_by
    else OrchestratorEvent.failed id e

abbrev pub is_terminal_of : ℕ → OrchestratorEvent → Bool
is_terminal_of id (OrchestratorEvent.created i) = false
is_terminal_of id (OrchestratorEvent.progress i) = false
is_terminal_of id (OrchestratorEvent.completed i n) = i == id
is_terminal_of id (OrchestratorEvent.cancelled i by) = i == id
is_terminal_of id (OrchestratorEvent.failed i x) = i == id

-- The terminal events of a job.
abbrev pub told : ℕ → List OrchestratorEvent → List OrchestratorEvent
told id [] = []
told id (ev ∷ events) = if is_terminal_of id ev then ev ∷ told id events else told id events

abbrev pub admitted : ℕ → List (ℕ × ℕ × Bool) → Bool
admitted id [] = false
admitted id ((i, user, admin) ∷ rest) = i == id || admitted id rest

abbrev pub IsTold : ℕ → JobShared → List OrchestratorEvent → Option RunResult → Type 0
IsTold id job events none =
    (is_some job.terminal_state ≡ false) × (job.completed ≡ false) × (events ≡ [])
IsTold id job events (some r) =
    (is_some job.terminal_state ≡ true) × (job.completed ≡ true) × (events ≡ due id job r ∷ [])

-- What was read of the cancellation holds.
abbrev pub IsRead : Stage → Bool → Type 0
IsRead (Stage.closing r true) flag = flag ≡ true
IsRead s flag = Unit

pub record IsKept (in_admissions in_jobs : Bool) (id : ℕ) (job : JobShared)
    (events : List OrchestratorEvent) (s : Stage) : Type 0 where
  pub slot : in_admissions ≡ has_slot s
  pub listed : in_jobs ≡ is_listed s
  pub ending : IsTold id job events (ended_result s)
  pub read : IsRead s job.is_cancelled

abbrev pub Keeps : Engine → ℕ → Type 0
Keeps e i =
    IsKept (admitted i e.admissions) (any (λ j. j == i) e.jobs) i (e.shared i) (told i e.events)
      (e.stage i)

-- The other jobs are left as they were.
pub record IsSame (e f : Engine) (id i : ℕ) : Type 0 where
  pub slot : admitted i f.admissions ≡ admitted i e.admissions
  pub listed : any (λ j. j == i) f.jobs ≡ any (λ j. j == i) e.jobs
  pub job : f.shared i ≡ e.shared i
  pub events : told i f.events ≡ told i e.events
  pub stage : f.stage i ≡ e.stage i

Keeps-elsewhere : (e f : Engine) (id i : ℕ) → IsSame e f id i → Keeps e i → Keeps f i
Keeps-elsewhere e f id i s k = rw (s.slot, s.listed, s.job, s.events, s.stage) k

pub update-own : {A : Type 0} (i : ℕ) (a : A) (f : ℕ → A) → update i a f i ≡ a
update-own i a f = ground arith

pub admitted-remove_own :
    (i : ℕ) (l : List (ℕ × ℕ × Bool)) → admitted i (remove_admission i l) ≡ false
unfolding remove_admission
admitted-remove_own i [] = refl
admitted-remove_own i ((j, u, a) ∷ l) = ground (arith, admitted-remove_own i l)

pub admitted-remove_other :
    (i j : ℕ) (l : List (ℕ × ℕ × Bool))
    → (j == i) ≡ false
    → admitted j (remove_admission i l) ≡ admitted j l
unfolding remove_admission
admitted-remove_other i j [] h = refl
admitted-remove_other i j ((k, u, a) ∷ l) h = ground (arith, admitted-remove_other i j l h)

pub listed-remove_own : (i : ℕ) (l : List ℕ) → any (λ j. j == i) (remove_job i l) ≡ false
unfolding remove_job
listed-remove_own i [] = refl
listed-remove_own i (j ∷ l) = ground (arith, listed-remove_own i l)

pub listed-remove_other :
    (i j : ℕ) (l : List ℕ)
    → (j == i) ≡ false
    → any (λ k. k == j) (remove_job i l) ≡ any (λ k. k == j) l
unfolding remove_job
listed-remove_other i j [] h = refl
listed-remove_other i j (k ∷ l) h = ground (arith, listed-remove_other i j l h)

-- A job at the stage it is known to stand at.
abbrev pub KeptAt : Engine → ℕ → Stage → Type 0
KeptAt e i s =
    IsKept (admitted i e.admissions) (any (λ j. j == i) e.jobs) i (e.shared i) (told i e.events) s

pub at : (e : Engine) (i : ℕ) (s : Stage) → e.stage i ≡ s → Keeps e i → KeptAt e i s
at e i s q k = subst (λ x. KeptAt e i x) q k

-- A step of the job `id`: the job itself, and the others.
pub moved :
    (e f : Engine) (id : ℕ) (s : Stage)
    → f.stage id ≡ s
    → KeptAt f id s
    → ((i : ℕ) → (i == id) ≡ false → IsSame e f id i)
    → ((i : ℕ) → Keeps e i)
    → (i : ℕ) → Keeps f i
moved e f id s q own others k i = elim (Bool-cases (i == id)) [
  | inl h ↦
      subst (λ j. Keeps f j) (sym ((==_iff i id).0 h)) (subst (λ x. KeptAt f id x) (sym q) own)
  | inr h ↦ Keeps-elsewhere e f id i (others i h) (k i)
]
