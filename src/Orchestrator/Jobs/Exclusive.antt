-- ===== src/Orchestrator/Jobs/Exclusive.antt =====
-- crates/engine/src/orchestrator/mod.rs: which jobs run at the same time, if nothing comes between the
-- lookup of a job's keys and its claim of them.
use alac_bot.Prelude.{
  ℕ, ◌≡◌, Bool, true, false, Option, none, some, List, [], ◌∷◌, arith, ◌==◌, Bool-cases,
  Option-cases, inl, inr, refl, ◌∙◌, ◌≢◌,
}
use alac_bot.Prelude.Text.{Text}
use alac_bot.Orchestrator.Jobs.{
  Engine, Stage, RunResult, Step, begins, lists, looks_up, claims, registers, resumes,
  gives_up_waiting, gives_up_woken, finishes, reads, closes, unlists, releases, cancels, new_engine,
  admit, let_in, RipJobOptions, begin_job, list_job, lookup, find_inflight, claim, register,
  give_up_wait, finish_job, read_cancelled, close_job, unlist, release_admission, cancel_job,
  terminalize, after_lookup, is_cancellable, TerminalJobState, OrchestratorError, update, wake,
  notify_waiters, go_to, insert_all, remove_all,
}
use alac_bot.Orchestrator.Jobs.Inflight.{has}

-- The keys that are claimed are still free.
abbrev pub IsFreshStep : {e f : Engine} → Step e f → Type 0
IsFreshStep {e} (claims id q) = find_inflight (e.shared id).target_keys e.inflight_items ≡ none
IsFreshStep s = Unit

-- Steps all of whose claims are of free keys.
pub data FreshReach (e : Engine) : Engine → Type 0 where
  start : FreshReach e e
  step : {f g : Engine} → FreshReach e f → (s : Step f g) → IsFreshStep s → FreshReach e g

-- A job that runs holds all its keys.
abbrev pub HoldsAll : Engine → Type 0
HoldsAll e =
    (w k : ℕ)
    → e.stage w ≡ Stage.running
    → has k (e.shared w).target_keys ≡ true
    → e.inflight_items k ≡ some w

insert_all-other :
    (keys : List ℕ) (id : ℕ) (table : ℕ → Option ℕ) (k : ℕ)
    → has k keys ≡ false
    → insert_all keys id table k ≡ table k
unfolding insert_all
insert_all-other [] id table k h = refl
insert_all-other (x ∷ keys) id table k h =
    ground (arith, insert_all-other keys id (update x (some id) table) k)

insert_all-own :
    (keys : List ℕ) (id : ℕ) (table : ℕ → Option ℕ) (k : ℕ)
    → has k keys ≡ true
    → insert_all keys id table k ≡ some id
unfolding insert_all
insert_all-own [] id table k h = ground arith
insert_all-own (x ∷ keys) id table k h = elim (Bool-cases (has k keys)) [
  | inl g ↦ insert_all-own keys id (update x (some id) table) k g
  | inr g ↦ ground (arith, insert_all-other keys id (update x (some id) table) k g)
]

remove_all-other :
    (keys : List ℕ) (table : ℕ → Option ℕ) (k : ℕ)
    → has k keys ≡ false
    → remove_all keys table k ≡ table k
unfolding remove_all
remove_all-other [] table k h = refl
remove_all-other (x ∷ keys) table k h =
    ground (arith, remove_all-other keys (update x none table) k)

find_inflight-free :
    (keys : List ℕ) (table : ℕ → Option ℕ) (k : ℕ)
    → find_inflight keys table ≡ none
    → has k keys ≡ true
    → table k ≡ none
unfolding find_inflight
find_inflight-free [] table k h g = ground arith
find_inflight-free (x ∷ keys) table k h g = ground (arith, find_inflight-free keys table k)

-- The jobs that run after a step ran before it, with the same keys, and no entry has changed.
RanBefore : Engine → Engine → Type 0
RanBefore e f =
    ((w : ℕ)
      → f.stage w ≡ Stage.running
      → (e.stage w ≡ Stage.running) × ((f.shared w).target_keys ≡ (e.shared w).target_keys))
    × ((k : ℕ) → f.inflight_items k ≡ e.inflight_items k)

RanBefore-HoldsAll : (e f : Engine) → RanBefore e f → HoldsAll e → HoldsAll f
unfolding RanBefore
RanBefore-HoldsAll e f (ran, same) h w k q g = let (a, b) = ran w q in same k ∙ h w k a (rw b at g)

go_to-RanBefore : (e : Engine) (i : ℕ) (s : Stage) → s ≢ Stage.running → RanBefore e (go_to i s e)
unfolding RanBefore
go_to-RanBefore e i s n = (λ w q. (ground arith, refl), λ k. refl)

let_in-RanBefore : (e : Engine) (i : ℕ) (o : RipJobOptions) → RanBefore e (let_in i o e)
unfolding RanBefore let_in
let_in-RanBefore e i o = (λ w q. (ground arith, ground arith), λ k. refl)

begin_job-RanBefore : (e : Engine) (i : ℕ) (o : RipJobOptions) → RanBefore e (begin_job i o e)
unfolding begin_job
begin_job-RanBefore e i o = elim (Bool-cases o.is_supported) [
  | inr s ↦ rw s (go_to-RanBefore e i _ (λ h. ground arith))
  | inl s ↦ elim (Option-cases (admit o e.admissions)) [
    | inr a ↦ rw (s, a.1) (go_to-RanBefore e i _ (λ h. ground arith))
    | inl a ↦ rw (s, a) (let_in-RanBefore e i o)
  ]
]

register-RanBefore : (e : Engine) (i v : ℕ) → RanBefore e (register i v e)
unfolding RanBefore register
register-RanBefore e i v = (λ w q. (ground arith, ground arith), λ k. refl)

terminalize-RanBefore :
    (e : Engine) (i : ℕ) (r : RunResult) (state : TerminalJobState) (summary : Option ℕ)
    (error : Option OrchestratorError)
    → RanBefore e (go_to i (Stage.settled r) (terminalize i state summary error e))
unfolding RanBefore terminalize
terminalize-RanBefore e i r state summary error = (λ w q. (ground arith, ground arith), λ k. refl)

close_job-RanBefore :
    (e : Engine) (i : ℕ) (r : RunResult) (c : Bool) → RanBefore e (close_job i r c e)
unfolding close_job
close_job-RanBefore e i r true = terminalize-RanBefore e i r TerminalJobState.cancelled none none
close_job-RanBefore e i (RunResult.ok n) false =
    terminalize-RanBefore e i (RunResult.ok n) TerminalJobState.completed (some n) none
close_job-RanBefore e i (RunResult.err x) false =
    terminalize-RanBefore e i (RunResult.err x) TerminalJobState.failed none (some x)

cancel_job-RanBefore : (e : Engine) (i : ℕ) (by : Option Text) → RanBefore e (cancel_job i by e).1
unfolding RanBefore cancel_job
cancel_job-RanBefore e i by = elim (Bool-cases (is_cancellable i e)) [
  | inl h ↦ rw h (λ w q. (q, ground arith), λ k. refl)
  | inr h ↦ rw h (λ w q. (q, refl), λ k. refl)
]

claim-HoldsAll :
    (e : Engine) (i : ℕ)
    → find_inflight (e.shared i).target_keys e.inflight_items ≡ none
    → HoldsAll e
    → HoldsAll (claim i e)
unfolding claim
claim-HoldsAll e i free h w k q g = elim (Bool-cases (w == i)) [
  | inl s ↦ ground (arith, insert_all-own (e.shared i).target_keys i e.inflight_items k)
  | inr s ↦
      let held = h w k (ground arith) g in
      ground (
        arith,
        held,
        find_inflight-free (e.shared i).target_keys e.inflight_items k free,
        insert_all-other (e.shared i).target_keys i e.inflight_items k,
      )
]

wake-running : (i : ℕ) (s : Stage) → wake i s ≡ Stage.running → s ≡ Stage.running
unfolding wake
wake-running i (Stage.waiting v) h = ground arith
wake-running i s h = h

finish_job-HoldsAll :
    (e : Engine) (i : ℕ) (r : RunResult)
    → e.stage i ≡ Stage.running
    → HoldsAll e
    → HoldsAll (finish_job i r e)
unfolding finish_job notify_waiters
finish_job-HoldsAll e i r own h w k q g = elim (Bool-cases (w == i)) [
  | inl s ↦ ground arith
  | inr s ↦
      let held = h w k (wake-running i (e.stage w) (ground arith)) g in
      ground (arith, held, h i k own, remove_all-other (e.shared i).target_keys e.inflight_items k)
]

Step-HoldsAll : {e f : Engine} (s : Step e f) → IsFreshStep s → HoldsAll e → HoldsAll f
unfolding list_job lookup give_up_wait read_cancelled unlist release_admission
Step-HoldsAll {e} (begins i o q) t h = RanBefore-HoldsAll e _ (begin_job-RanBefore e i o) h
Step-HoldsAll {e} (lists i q) t h =
    RanBefore-HoldsAll e (go_to i Stage.at_lookup e) (go_to-RanBefore e i _ (λ p. ground arith)) h
Step-HoldsAll {e} (looks_up i q) t h =
    RanBefore-HoldsAll e _ (go_to-RanBefore e i _ (looked_up _)) h
  where
    looked_up : (x : Option ℕ) → after_lookup x ≢ Stage.running
    looked_up none p = ground arith
    looked_up (some v) p = ground arith
Step-HoldsAll {e} (claims i q) t h = claim-HoldsAll e i t h
Step-HoldsAll {e} (registers i v q) t h = RanBefore-HoldsAll e _ (register-RanBefore e i v) h
Step-HoldsAll {e} (resumes i v q) t h =
    RanBefore-HoldsAll e _ (go_to-RanBefore e i _ (λ p. ground arith)) h
Step-HoldsAll {e} (gives_up_waiting i v q c) t h =
    RanBefore-HoldsAll e _ (terminalize-RanBefore e i _ TerminalJobState.cancelled none none) h
Step-HoldsAll {e} (gives_up_woken i v q c) t h =
    RanBefore-HoldsAll e _ (terminalize-RanBefore e i _ TerminalJobState.cancelled none none) h
Step-HoldsAll {e} (finishes i r q) t h = finish_job-HoldsAll e i r q h
Step-HoldsAll {e} (reads i r q) t h =
    RanBefore-HoldsAll e _ (go_to-RanBefore e i _ (λ p. ground arith)) h
Step-HoldsAll {e} (closes i r c q) t h = RanBefore-HoldsAll e _ (close_job-RanBefore e i r c) h
Step-HoldsAll {e} (unlists i r q) t h =
    RanBefore-HoldsAll e (go_to i (Stage.unlisted r) e) (go_to-RanBefore e i _ (λ p. ground arith))
      h
Step-HoldsAll {e} (releases i r q) t h =
    RanBefore-HoldsAll e (go_to i (Stage.returned r) e) (go_to-RanBefore e i _ (λ p. ground arith))
      h
Step-HoldsAll {e} (cancels i by) t h = RanBefore-HoldsAll e _ (cancel_job-RanBefore e i by) h

FreshReach-HoldsAll : {e : Engine} → FreshReach new_engine e → HoldsAll e
unfolding new_engine
FreshReach-HoldsAll start w k q g = ground arith
FreshReach-HoldsAll (step r s t) w k q g = Step-HoldsAll s t (FreshReach-HoldsAll r) w k q g

-- If the keys of each job are still free when it claims them, two jobs that run at the same time have
-- no key in common.
pub FreshReach-exclusive :
    {e : Engine} (w v k : ℕ)
    → FreshReach new_engine e
    → e.stage w ≡ Stage.running
    → e.stage v ≡ Stage.running
    → has k (e.shared w).target_keys ≡ true
    → has k (e.shared v).target_keys ≡ true
    → w ≡ v
FreshReach-exclusive w v k r p q g h =
    ground (arith, FreshReach-HoldsAll r w k p g, FreshReach-HoldsAll r v k q h)

-- Two jobs that have both looked up a common key before either has claimed it both come to run, and
-- the entry is that of the one which claims last.
pub claim-both :
    (e : Engine) (w v k : ℕ)
    → w ≢ v
    → e.stage w ≡ Stage.at_claim
    → e.stage v ≡ Stage.at_claim
    → has k (e.shared w).target_keys ≡ true
    → has k (e.shared v).target_keys ≡ true
    → ((claim v (claim w e)).stage w ≡ Stage.running)
      × ((claim v (claim w e)).stage v ≡ Stage.running)
      × ((claim v (claim w e)).inflight_items k ≡ some v)
unfolding claim
claim-both e w v k n p q g h =
    (ground arith, ground arith, insert_all-own (e.shared v).target_keys v _ k h)
