-- ===== src/Orchestrator/Jobs/Waiting.antt =====
-- crates/engine/src/orchestrator/mod.rs: a job that calls `notified` after the job it waits for has
-- finished.
use alac_bot.Prelude.{
  ℕ, ◌≡◌, Bool, true, false, Option, none, some, arith, ◌==◌, Bool-cases, Option-cases, inl, inr,
  refl, ◌⊎◌, ◌≢◌,
}
use alac_bot.Prelude.Text.{Text}
use alac_bot.Orchestrator.Jobs.{
  Engine, Stage, RunResult, Step, begins, lists, looks_up, claims, registers, resumes,
  gives_up_waiting, gives_up_woken, finishes, reads, closes, unlists, releases, cancels, Reach,
  here, next, new_job, admit, let_in, RipJobOptions, begin_job, list_job, lookup, claim, register,
  give_up_wait, finish_job, read_cancelled, close_job, unlist, release_admission, cancel_job,
  terminalize, after_lookup, is_cancellable, TerminalJobState, OrchestratorError, wake,
  notify_waiters, go_to,
}

-- The entry of the job has been removed, and its waiters notified.
abbrev pub is_past : Stage → Bool
is_past (Stage.finished r) = true
is_past (Stage.closing r c) = true
is_past (Stage.settled r) = true
is_past (Stage.unlisted r) = true
is_past (Stage.returned r) = true
is_past s = false

abbrev pub has_begun : Stage → Bool
has_begun Stage.absent = false
has_begun s = true

-- The job `id` still waits for `w`, which is past, or has been cancelled.
abbrev pub IsStuck : Engine → ℕ → ℕ → Type 0
IsStuck e id w =
    (e.stage id ≡ Stage.waiting w)
    ⊎ (((e.shared id).is_cancelled ≡ true) × (has_begun (e.stage id) ≡ true))

abbrev pub Passed : Engine → ℕ → ℕ → Type 0
Passed e id w = (is_past (e.stage w) ≡ true) × IsStuck e id w

wake-is_past : (i : ℕ) (s : Stage) → is_past s ≡ true → is_past (wake i s) ≡ true
unfolding wake
wake-is_past i (Stage.waiting v) h = ground arith
wake-is_past i s h = h

wake-has_begun : (i : ℕ) (s : Stage) → has_begun s ≡ true → has_begun (wake i s) ≡ true
unfolding wake
wake-has_begun i (Stage.waiting v) h = ground arith
wake-has_begun i s h = h

wake-waiting : (i v : ℕ) → (i == v) ≡ false → wake i (Stage.waiting v) ≡ Stage.waiting v
unfolding wake
wake-waiting i v h = ground arith

module _ (id w : ℕ) where
  go_to-Passed :
      (e : Engine) (i : ℕ) (s : Stage)
      → (is_past (e.stage i) ≡ true → is_past s ≡ true)
      → e.stage i ≢ Stage.waiting w
      → has_begun s ≡ true
      → Passed e id w
      → Passed (go_to i s e) id w
  go_to-Passed e i s p q b (a, inl h) = (ground arith, inl (ground arith))
  go_to-Passed e i s p q b (a, inr h) = (ground arith, inr (h.0, ground arith))

  let_in-Passed :
      (e : Engine) (i : ℕ) (o : RipJobOptions)
      → e.stage i ≡ Stage.absent
      → Passed e id w
      → Passed (let_in i o e) id w
  unfolding let_in new_job
  let_in-Passed e i o q (a, inl h) = (ground arith, inl (ground arith))
  let_in-Passed e i o q (a, inr h) = (ground arith, inr (ground arith, ground arith))

  begin_job-Passed :
      (e : Engine) (i : ℕ) (o : RipJobOptions)
      → e.stage i ≡ Stage.absent
      → Passed e id w
      → Passed (begin_job i o e) id w
  unfolding begin_job
  begin_job-Passed e i o q k = elim (Bool-cases o.is_supported) [
    | inr s ↦ rw s (rejected _)
    | inl s ↦ elim (Option-cases (admit o e.admissions)) [
      | inr a ↦ rw (s, a.1) (rejected _)
      | inl a ↦ rw (s, a) (let_in-Passed e i o q k)
    ]
  ]
    where
      rejected : (r : RunResult) → Passed (go_to i (Stage.rejected r) e) id w
      rejected r =
          go_to-Passed e i (Stage.rejected r) (λ h. ground arith) (λ h. ground arith) refl k

  register-Passed :
      (e : Engine) (i v : ℕ)
      → e.stage i ≡ Stage.found v
      → Passed e id w
      → Passed (register i v e) id w
  unfolding register
  register-Passed e i v q (a, inl h) = (ground arith, inl (ground arith))
  register-Passed e i v q (a, inr h) = (ground arith, inr (ground arith, ground arith))

  terminalize-Passed :
      (e : Engine) (i : ℕ) (r : RunResult) (state : TerminalJobState) (summary : Option ℕ)
      (error : Option OrchestratorError)
      → (e.stage i ≡ Stage.waiting w → (e.shared i).is_cancelled ≡ true)
      → Passed e id w
      → Passed (go_to i (Stage.settled r) (terminalize i state summary error e)) id w
  unfolding terminalize
  terminalize-Passed e i r state summary error q (a, inl h) = elim (Bool-cases (id == i)) [
    | inl g ↦ (ground arith, inr (ground (arith, q), ground arith))
    | inr g ↦ (ground arith, inl (ground arith))
  ]
  terminalize-Passed e i r state summary error q (a, inr h) =
      (ground arith, inr (ground arith, ground arith))

  close_job-Passed :
      (e : Engine) (i : ℕ) (r : RunResult) (c : Bool)
      → e.stage i ≡ Stage.closing r c
      → Passed e id w
      → Passed (close_job i r c e) id w
  unfolding close_job
  close_job-Passed e i r true q =
      terminalize-Passed e i r TerminalJobState.cancelled none none (λ p. ground arith)
  close_job-Passed e i (RunResult.ok n) false q =
      terminalize-Passed e i _ TerminalJobState.completed (some n) none (λ p. ground arith)
  close_job-Passed e i (RunResult.err x) false q =
      terminalize-Passed e i _ TerminalJobState.failed none (some x) (λ p. ground arith)

  notify_waiters-Passed :
      (e : Engine) (i : ℕ)
      → (i == w) ≡ false
      → Passed e id w
      → Passed (record e { stage = notify_waiters i e.stage }) id w
  unfolding notify_waiters
  notify_waiters-Passed e i g (a, inl h) =
      (wake-is_past i (e.stage w) a, inl (rw h (wake-waiting i w g)))
  notify_waiters-Passed e i g (a, inr h) =
      (wake-is_past i (e.stage w) a, inr (h.0, wake-has_begun i (e.stage id) h.1))

  finish_job-Passed :
      (e : Engine) (i : ℕ) (r : RunResult)
      → e.stage i ≡ Stage.running
      → Passed e id w
      → Passed (finish_job i r e) id w
  unfolding finish_job notify_waiters
  finish_job-Passed e i r q k =
      go_to-Passed (record e { stage = notify_waiters i e.stage }) i (Stage.finished r) (λ h. refl)
        (λ h. unfold wake in ground (arith, q)) refl
        (notify_waiters-Passed e i (ground (arith, k.0)) k)

  cancel_job-Passed :
      (e : Engine) (i : ℕ) (by : Option Text) → Passed e id w → Passed (cancel_job i by e).1 id w
  unfolding cancel_job
  cancel_job-Passed e i by (a, b) = elim (Bool-cases (is_cancellable i e)) [
    | inr h ↦ rw h (a, b)
    | inl h ↦ rw h (a, elim b [ inl g ↦ inl g | inr g ↦ inr (ground arith, g.1) ])
  ]

  Step-Passed : {e f : Engine} → Step e f → Passed e id w → Passed f id w
  unfolding list_job lookup claim give_up_wait read_cancelled unlist release_admission
  Step-Passed {e} (begins i o q) k = begin_job-Passed e i o q k
  Step-Passed {e} (lists i q) k = go_to-Passed e i _ (λ h. ground arith) (λ h. ground arith) refl k
  Step-Passed {e} (looks_up i q) k =
      go_to-Passed e i _ (λ h. ground arith) (λ h. ground arith) (begun _) k
    where
      begun : (x : Option ℕ) → has_begun (after_lookup x) ≡ true
      begun none = refl
      begun (some v) = refl
  Step-Passed {e} (claims i q) k = go_to-Passed e i _ (λ h. ground arith) (λ h. ground arith) refl k
  Step-Passed {e} (registers i v q) k = register-Passed e i v q k
  Step-Passed {e} (resumes i v q) k =
      go_to-Passed e i _ (λ h. ground arith) (λ h. ground arith) refl k
  Step-Passed {e} (gives_up_waiting i v q c) k =
      terminalize-Passed e i _ TerminalJobState.cancelled none none (λ h. c) k
  Step-Passed {e} (gives_up_woken i v q c) k =
      terminalize-Passed e i _ TerminalJobState.cancelled none none (λ h. c) k
  Step-Passed {e} (finishes i r q) k = finish_job-Passed e i r q k
  Step-Passed {e} (reads i r q) k = go_to-Passed e i _ (λ h. refl) (λ h. ground arith) refl k
  Step-Passed {e} (closes i r c q) k = close_job-Passed e i r c q k
  Step-Passed {e} (unlists i r q) k = go_to-Passed e i _ (λ h. refl) (λ h. ground arith) refl k
  Step-Passed {e} (releases i r q) k = go_to-Passed e i _ (λ h. refl) (λ h. ground arith) refl k
  Step-Passed {e} (cancels i by) k = cancel_job-Passed e i by k

  Reach-Passed : {e f : Engine} → Reach e f → Passed e id w → Passed f id w
  Reach-Passed here k = k
  Reach-Passed (next r s) k = Step-Passed s (Reach-Passed r k)

-- A job that has started to wait for a job whose entry is already removed is never woken: whatever
-- happens from then on, it still waits, unless it was cancelled.
pub Reach-IsStuck :
    {e f : Engine} (id w : ℕ)
    → e.stage id ≡ Stage.waiting w
    → is_past (e.stage w) ≡ true
    → Reach e f
    → (f.stage id ≡ Stage.waiting w)
      ⊎ (((f.shared id).is_cancelled ≡ true) × (has_begun (f.stage id) ≡ true))
Reach-IsStuck id w h p r = (Reach-Passed id w r (p, inl h)).1
