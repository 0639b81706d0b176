-- ===== src/Orchestrator/Jobs/Admission.antt =====
-- crates/engine/src/orchestrator/mod.rs: the limits of admission hold whatever the jobs do.
use alac_bot.Prelude.{
  ℕ, ◌+◌, ◌≤◌, ◌≡◌, Bool, true, false, not, ◌&&◌, Option, none, List, [], ◌∷◌, arith, ◌==◌,
  if◌then◌else◌, Bool-cases, Option-cases, inl, inr, refl,
}
use alac_bot.Prelude.Text.{Text}
use alac_bot.Orchestrator.Jobs.{
  Engine, RunResult, Step, begins, lists, looks_up, claims, registers, resumes, gives_up_waiting,
  gives_up_woken, finishes, reads, closes, unlists, releases, cancels, Reach, here, next,
  new_engine, admit, let_in, RipJobOptions, begin_job, list_job, lookup, claim, register,
  give_up_wait, finish_job, read_cancelled, close_job, unlist, release_admission, cancel_job,
  terminalize, remove_admission, non_admin_jobs, user_jobs,
}

-- How many of the jobs are of a user and not an admin's.
abbrev pub plain_user_jobs : ℕ → List (ℕ × ℕ × Bool) → ℕ
plain_user_jobs id [] = 0
plain_user_jobs id ((i, user, admin) ∷ rest) =
    (if not admin && user == id then 1 else 0) + plain_user_jobs id rest

abbrev pub IsLimited : List (ℕ × ℕ × Bool) → Type 0
IsLimited jobs = (non_admin_jobs jobs ≤ 16) × ((user : ℕ) → plain_user_jobs user jobs ≤ 4)

plain_user_jobs-le :
    (id : ℕ) (jobs : List (ℕ × ℕ × Bool)) → plain_user_jobs id jobs ≤ user_jobs id jobs
unfolding user_jobs
plain_user_jobs-le id [] = omega arith
plain_user_jobs-le id ((i, user, admin) ∷ rest) = ground (arith, plain_user_jobs-le id rest)

non_admin_jobs-remove :
    (id : ℕ) (jobs : List (ℕ × ℕ × Bool))
    → non_admin_jobs (remove_admission id jobs) ≤ non_admin_jobs jobs
unfolding non_admin_jobs remove_admission
non_admin_jobs-remove id [] = omega arith
non_admin_jobs-remove id ((i, user, admin) ∷ rest) = ground (arith, non_admin_jobs-remove id rest)

plain_user_jobs-remove :
    (u id : ℕ) (jobs : List (ℕ × ℕ × Bool))
    → plain_user_jobs u (remove_admission id jobs) ≤ plain_user_jobs u jobs
unfolding remove_admission
plain_user_jobs-remove u id [] = omega arith
plain_user_jobs-remove u id ((i, user, admin) ∷ rest) =
    ground (arith, plain_user_jobs-remove u id rest)

remove_admission-IsLimited :
    (id : ℕ) (jobs : List (ℕ × ℕ × Bool)) → IsLimited jobs → IsLimited (remove_admission id jobs)
remove_admission-IsLimited id jobs h = (
  omega (arith, h.0, non_admin_jobs-remove id jobs),
  λ u. omega (arith, h.1 u, plain_user_jobs-remove u id jobs),
)

admit-IsLimited :
    (id : ℕ) (o : RipJobOptions) (jobs : List (ℕ × ℕ × Bool))
    → admit o jobs ≡ none
    → IsLimited jobs
    → IsLimited ((id, o.user_id, o.is_admin) ∷ remove_admission id jobs)
unfolding admit non_admin_jobs
admit-IsLimited id o jobs a h = (
  ground (arith, h.0, a, non_admin_jobs-remove id jobs),
  λ u. ground (arith, h.1 u, a, plain_user_jobs-remove u id jobs, plain_user_jobs-le u jobs),
)

begin_job-IsLimited :
    (id : ℕ) (o : RipJobOptions) (e : Engine)
    → IsLimited e.admissions
    → IsLimited (begin_job id o e).admissions
unfolding begin_job let_in
begin_job-IsLimited id o e h = elim (Bool-cases o.is_supported) [
  | inr s ↦ rw s h
  | inl s ↦ elim (Option-cases (admit o e.admissions)) [
    | inl a ↦ rw (s, a) (admit-IsLimited id o e.admissions a h)
    | inr a ↦ rw (s, a.1) h
  ]
]

close_job-admissions :
    (id : ℕ) (r : RunResult) (c : Bool) (e : Engine)
    → (close_job id r c e).admissions ≡ e.admissions
unfolding close_job terminalize
close_job-admissions id r true e = refl
close_job-admissions id (RunResult.ok n) false e = refl
close_job-admissions id (RunResult.err n) false e = refl

cancel_job-admissions :
    (id : ℕ) (by : Option Text) (e : Engine) → (cancel_job id by e).1.admissions ≡ e.admissions
unfolding cancel_job
cancel_job-admissions id by e = ground arith

keep : (a b : List (ℕ × ℕ × Bool)) → b ≡ a → IsLimited a → IsLimited b
keep a b q h = rw q h

Step-IsLimited : {e f : Engine} → Step e f → IsLimited e.admissions → IsLimited f.admissions
unfolding list_job lookup terminalize claim register give_up_wait finish_job read_cancelled unlist
    release_admission
Step-IsLimited {e} (begins id o s) h = begin_job-IsLimited id o e h
Step-IsLimited (lists id s) h = h
Step-IsLimited (looks_up id s) h = h
Step-IsLimited (claims id s) h = h
Step-IsLimited (registers id w s) h = h
Step-IsLimited (resumes id w s) h = h
Step-IsLimited (gives_up_waiting id w s c) h = h
Step-IsLimited (gives_up_woken id w s c) h = h
Step-IsLimited (finishes id r s) h = h
Step-IsLimited (reads id r s) h = h
Step-IsLimited {e} (closes id r c s) h = keep _ _ (close_job-admissions id r c e) h
Step-IsLimited (unlists id r s) h = h
Step-IsLimited {e} (releases id r s) h = remove_admission-IsLimited id e.admissions h
Step-IsLimited {e} (cancels id by) h = keep _ _ (cancel_job-admissions id by e) h

-- Whatever jobs begin, run, wait, are cancelled and end, in whatever order, never more than 16 jobs
-- that are not an admin's hold a slot, nor more than four of these of one user.
pub Reach-IsLimited : {e : Engine} → Reach new_engine e → IsLimited e.admissions
unfolding new_engine non_admin_jobs
Reach-IsLimited here = (omega arith, λ u. omega arith)
Reach-IsLimited (next r s) = Step-IsLimited s (Reach-IsLimited r)
