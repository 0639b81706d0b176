-- ===== src/Orchestrator/Jobs/Inflight.antt =====
-- crates/engine/src/orchestrator/mod.rs: the entries of the jobs that run.
use alac_bot.Prelude.{
  ℕ, ◌≡◌, Bool, true, false, Option, none, some, List, [], ◌∷◌, arith, ◌==◌, Bool-cases,
  Option-cases, inl, inr, refl, any, ◌⊎◌, ◌≢◌,
}
use alac_bot.Prelude.Text.{Text}
use alac_bot.Orchestrator.Jobs.{
  Engine, Stage, RunResult, Step, begins, lists, looks_up, claims, registers, resumes,
  gives_up_waiting, gives_up_woken, finishes, reads, closes, unlists, releases, cancels, Reach,
  here, next, new_engine, new_job, admit, let_in, RipJobOptions, begin_job, list_job, lookup, claim,
  register, give_up_wait, finish_job, read_cancelled, close_job, unlist, release_admission,
  cancel_job, terminalize, is_cancellable, TerminalJobState, OrchestratorError, update, wake,
  notify_waiters, go_to, insert_all, remove_all,
}

abbrev pub has : ℕ → List ℕ → Bool
has k keys = any (λ x. x == k) keys

-- An entry belongs to a job that runs, and stands under one of its keys.
abbrev pub Owns : Engine → ℕ → ℕ → Type 0
Owns e k w = (e.stage w ≡ Stage.running) × (has k (e.shared w).target_keys ≡ true)

abbrev pub IsOwned : Engine → Type 0
IsOwned e = (k w : ℕ) → e.inflight_items k ≡ some w → Owns e k w

insert_all-cases :
    (keys : List ℕ) (id : ℕ) (table : ℕ → Option ℕ) (k w : ℕ)
    → insert_all keys id table k ≡ some w
    → ((w ≡ id) × (has k keys ≡ true)) ⊎ (table k ≡ some w)
unfolding insert_all
insert_all-cases [] id table k w h = inr h
insert_all-cases (x ∷ keys) id table k w h =
    elim (insert_all-cases keys id (update x (some id) table) k w h) [
      | inl (a, b) ↦ inl (a, ground arith)
      | inr a ↦ ground arith
    ]

remove_all-cases :
    (keys : List ℕ) (table : ℕ → Option ℕ) (k w : ℕ)
    → remove_all keys table k ≡ some w
    → (table k ≡ some w) × (has k keys ≡ false)
unfolding remove_all
remove_all-cases [] table k w h = (h, refl)
remove_all-cases (x ∷ keys) table k w h =
    ground (arith, remove_all-cases keys (update x none table) k w h)

-- A job that runs goes on, with its keys.
record Runs (e f : Engine) (w : ℕ) : Type 0 where
  stage : e.stage w ≡ Stage.running → f.stage w ≡ Stage.running
  keys : e.stage w ≡ Stage.running → (f.shared w).target_keys ≡ (e.shared w).target_keys

Runs-IsOwned :
    (e f : Engine)
    → ((k w : ℕ) → f.inflight_items k ≡ some w → e.inflight_items k ≡ some w)
    → ((w : ℕ) → Runs e f w)
    → IsOwned e
    → IsOwned f
Runs-IsOwned e f same runs h k w q =
    let own = h k w (same k w q) in ((runs w).stage own.0, rw ((runs w).keys own.0) own.1)

let_in-Runs :
    (e : Engine) (id : ℕ) (o : RipJobOptions) (w : ℕ)
    → e.stage id ≡ Stage.absent
    → Runs e (let_in id o e) w
unfolding let_in new_job
let_in-Runs e id o w q = record { stage = λ h. ground arith; keys = λ h. ground arith }

register-Runs : (e : Engine) (id v w : ℕ) → e.stage id ≡ Stage.found v → Runs e (register id v e) w
unfolding register
register-Runs e id v w q = record { stage = λ h. ground arith; keys = λ h. ground arith }

go_to-Runs :
    (e : Engine) (id w : ℕ) (s : Stage) → e.stage id ≢ Stage.running → Runs e (go_to id s e) w
go_to-Runs e id w s q = record { stage = λ h. ground arith; keys = λ h. refl }

terminalize-Runs :
    (e : Engine) (id w : ℕ) (s : Stage) (state : TerminalJobState) (summary : Option ℕ)
    (error : Option OrchestratorError)
    → e.stage id ≢ Stage.running
    → Runs e (go_to id s (terminalize id state summary error e)) w
unfolding terminalize
terminalize-Runs e id w s state summary error q = record {
  stage = λ h. ground arith;
  keys = λ h. ground arith;
}

go_to-IsOwned :
    (e : Engine) (id : ℕ) (s : Stage)
    → e.stage id ≢ Stage.running
    → IsOwned e
    → IsOwned (go_to id s e)
go_to-IsOwned e id s q = Runs-IsOwned e (go_to id s e) (λ k w p. p) (λ w. go_to-Runs e id w s q)

terminalize-IsOwned :
    (e : Engine) (id : ℕ) (s : Stage) (state : TerminalJobState) (summary : Option ℕ)
    (error : Option OrchestratorError)
    → e.stage id ≢ Stage.running
    → IsOwned e
    → IsOwned (go_to id s (terminalize id state summary error e))
terminalize-IsOwned e id s state summary error q =
    Runs-IsOwned e (go_to id s (terminalize id state summary error e))
      (unfold terminalize in λ k w p. p) (λ w. terminalize-Runs e id w s state summary error q)

begin_job-IsOwned :
    (e : Engine) (id : ℕ) (o : RipJobOptions)
    → e.stage id ≡ Stage.absent
    → IsOwned e
    → IsOwned (begin_job id o e)
unfolding begin_job
begin_job-IsOwned e id o q k = elim (Bool-cases o.is_supported) [
  | inr s ↦ rw s (rejected _)
  | inl s ↦ elim (Option-cases (admit o e.admissions)) [
    | inr a ↦ rw (s, a.1) (rejected _)
    | inl a ↦
        rw (s, a)
          (Runs-IsOwned e (let_in id o e) (unfold let_in in λ k w h. h)
            (λ w. let_in-Runs e id o w q) k)
  ]
]
  where
    rejected : (s : Stage) → IsOwned (go_to id s e)
    rejected s = go_to-IsOwned e id s (λ h. ground arith) k

claim-IsOwned :
    (e : Engine) (id : ℕ) → e.stage id ≡ Stage.at_claim → IsOwned e → IsOwned (claim id e)
unfolding claim
claim-IsOwned e id q h k w p =
    elim (insert_all-cases (e.shared id).target_keys id e.inflight_items k w p) [
      | inl a ↦ (ground arith, ground arith)
      | inr a ↦ (ground (arith, (h k w a).0), (h k w a).1)
    ]

finish_job-IsOwned :
    (e : Engine) (id : ℕ) (r : RunResult)
    → e.stage id ≡ Stage.running
    → IsOwned e
    → IsOwned (finish_job id r e)
unfolding finish_job notify_waiters wake
finish_job-IsOwned e id r q h k w p =
    let (a, b) = remove_all-cases (e.shared id).target_keys e.inflight_items k w p in
    let own = h k w a in (ground (arith, own, b), own.1)

cancel_job-Runs : (e : Engine) (id : ℕ) (by : Option Text) (w : ℕ) → Runs e (cancel_job id by e).1 w
unfolding cancel_job
cancel_job-Runs e id by w = elim (Bool-cases (is_cancellable id e)) [
  | inl h ↦ rw h record { stage = λ g. g; keys = λ g. ground arith }
  | inr h ↦ rw h record { stage = λ g. g; keys = λ g. refl }
]

cancel_job-inflight :
    (e : Engine) (id : ℕ) (by : Option Text)
    → (cancel_job id by e).1.inflight_items ≡ e.inflight_items
unfolding cancel_job
cancel_job-inflight e id by = ground arith

close_job-IsOwned :
    (e : Engine) (id : ℕ) (r : RunResult) (c : Bool)
    → e.stage id ≡ Stage.closing r c
    → IsOwned e
    → IsOwned (close_job id r c e)
unfolding close_job
close_job-IsOwned e id r true q =
    terminalize-IsOwned e id (Stage.settled r) TerminalJobState.cancelled none none
      (λ p. ground arith)
close_job-IsOwned e id (RunResult.ok n) false q =
    terminalize-IsOwned e id _ TerminalJobState.completed (some n) none (λ p. ground arith)
close_job-IsOwned e id (RunResult.err x) false q =
    terminalize-IsOwned e id _ TerminalJobState.failed none (some x) (λ p. ground arith)

Step-IsOwned : {e f : Engine} → Step e f → IsOwned e → IsOwned f
unfolding list_job lookup register give_up_wait read_cancelled unlist release_admission
Step-IsOwned {e} (begins id o q) h = begin_job-IsOwned e id o q h
Step-IsOwned {e} (lists id q) h = go_to-IsOwned e id _ (λ p. ground arith) h
Step-IsOwned {e} (looks_up id q) h = go_to-IsOwned e id _ (λ p. ground arith) h
Step-IsOwned {e} (claims id q) h = claim-IsOwned e id q h
Step-IsOwned {e} (registers id v q) h =
    Runs-IsOwned e _ (λ k w p. p) (λ w. register-Runs e id v w q) h
Step-IsOwned {e} (resumes id v q) h = go_to-IsOwned e id _ (λ p. ground arith) h
Step-IsOwned {e} (gives_up_waiting id v q c) h =
    terminalize-IsOwned e id _ TerminalJobState.cancelled none none (λ p. ground arith) h
Step-IsOwned {e} (gives_up_woken id v q c) h =
    terminalize-IsOwned e id _ TerminalJobState.cancelled none none (λ p. ground arith) h
Step-IsOwned {e} (finishes id r q) h = finish_job-IsOwned e id r q h
Step-IsOwned {e} (reads id r q) h = go_to-IsOwned e id _ (λ p. ground arith) h
Step-IsOwned {e} (closes id r c q) h = close_job-IsOwned e id r c q h
Step-IsOwned {e} (unlists id r q) h = go_to-IsOwned e id _ (λ p. ground arith) h
Step-IsOwned {e} (releases id r q) h = go_to-IsOwned e id _ (λ p. ground arith) h
Step-IsOwned {e} (cancels id by) h =
    Runs-IsOwned e _ (λ k w p. (rw (cancel_job-inflight e id by) at p))
      (λ w. cancel_job-Runs e id by w) h

-- Every entry belongs to a job that runs, and stands under one of its keys; so none is left behind.
pub Reach-IsOwned :
    {e : Engine} → Reach new_engine e → (k w : ℕ) → e.inflight_items k ≡ some w → Owns e k w
unfolding new_engine
Reach-IsOwned here k w q = ground arith
Reach-IsOwned (next r s) k w q = Step-IsOwned s (Reach-IsOwned r) k w q
