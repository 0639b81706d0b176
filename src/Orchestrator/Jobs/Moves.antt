-- ===== src/Orchestrator/Jobs/Moves.antt =====
-- crates/engine/src/orchestrator/mod.rs: the stretches of `start_job` that do not end the job.
use alac_bot.Prelude.{
  ℕ, ◌≡◌, Bool, true, false, Option, none, some, List, arith, ◌==◌, Bool-cases, Option-cases, inl,
  inr, refl,
}
use alac_bot.Orchestrator.Jobs.{
  Engine, Stage, JobShared, OrchestratorEvent, RunResult, new_job, admit, let_in, RipJobOptions,
  begin_job, list_job, lookup, find_inflight, claim, register, finish_job, read_cancelled, unlist,
  release_admission, after_lookup, wake, notify_waiters, go_to,
}
use alac_bot.Orchestrator.Jobs.Record.{
  Keeps, KeptAt, IsKept, IsSame, at, moved, update-own, admitted-remove_own, admitted-remove_other,
  listed-remove_own, listed-remove_other,
}

-- A change of the stage alone.
go_to-IsSame :
    (e : Engine) (id : ℕ) (s : Stage) (i : ℕ) → (i == id) ≡ false → IsSame e (go_to id s e) id i
go_to-IsSame e id s i h = record {
  slot = refl;
  listed = refl;
  job = refl;
  events = refl;
  stage = rw h refl;
}

pub go_to-Keeps :
    (e : Engine) (id : ℕ) (s : Stage)
    → KeptAt e id s
    → ((i : ℕ) → Keeps e i)
    → (i : ℕ) → Keeps (go_to id s e) i
go_to-Keeps e id s own =
    moved e (go_to id s e) id s (update-own id s e.stage) own (go_to-IsSame e id s)

pub lookup-Keeps :
    (e : Engine) (id : ℕ)
    → e.stage id ≡ Stage.at_lookup
    → ((i : ℕ) → Keeps e i)
    → (i : ℕ) → Keeps (lookup id e) i
unfolding lookup
lookup-Keeps e id q k =
    go_to-Keeps e id _ (found (find_inflight (e.shared id).target_keys e.inflight_items)) k
  where
    k0 : KeptAt e id Stage.at_lookup
    k0 = at e id Stage.at_lookup q (k id)

    found : (x : Option ℕ) → KeptAt e id (after_lookup x)
    found none = record { slot = k0.slot; listed = k0.listed; ending = k0.ending; read = tt }
    found (some w) = record { slot = k0.slot; listed = k0.listed; ending = k0.ending; read = tt }

pub list_job-Keeps :
    (e : Engine) (id : ℕ)
    → e.stage id ≡ Stage.admitted
    → ((i : ℕ) → Keeps e i)
    → (i : ℕ) → Keeps (list_job id e) i
unfolding list_job
list_job-Keeps e id q k =
    moved e (list_job id e) id Stage.at_lookup (update-own id _ e.stage)
      record { slot = k0.slot; listed = ground arith; ending = k0.ending; read = tt }
      (λ i h. record {
        slot = refl;
        listed = ground (arith, listed-remove_other id i e.jobs);
        job = refl;
        events = refl;
        stage = rw h refl;
      })
      k
  where
    k0 : KeptAt e id Stage.admitted
    k0 = at e id Stage.admitted q (k id)

let_in-Keeps :
    (e : Engine) (id : ℕ) (o : RipJobOptions)
    → e.stage id ≡ Stage.absent
    → ((i : ℕ) → Keeps e i)
    → (i : ℕ) → Keeps (let_in id o e) i
unfolding let_in new_job
let_in-Keeps e id o q k =
    moved e (let_in id o e) id Stage.admitted (update-own id _ e.stage)
      (rw (update-own id (new_job o.target_keys) e.shared) record {
        slot = ground arith;
        listed = k0.listed;
        ending = (refl, refl, k0.ending.2);
        read = tt;
      })
      (λ i h. record {
        slot = ground (arith, admitted-remove_other id i e.admissions);
        listed = refl;
        job = rw h refl;
        events = refl;
        stage = rw h refl;
      })
      k
  where
    k0 : KeptAt e id Stage.absent
    k0 = at e id Stage.absent q (k id)

pub begin_job-Keeps :
    (e : Engine) (id : ℕ) (o : RipJobOptions)
    → e.stage id ≡ Stage.absent
    → ((i : ℕ) → Keeps e i)
    → (i : ℕ) → Keeps (begin_job id o e) i
unfolding begin_job
begin_job-Keeps e id o q k = elim (Bool-cases o.is_supported) [
  | inr s ↦ rw s (go_to-Keeps e id _ rejected k)
  | inl s ↦ elim (Option-cases (admit o e.admissions)) [
    | inr a ↦ rw (s, a.1) (go_to-Keeps e id _ rejected k)
    | inl a ↦ rw (s, a) (let_in-Keeps e id o q k)
  ]
]
  where
    k0 : KeptAt e id Stage.absent
    k0 = at e id Stage.absent q (k id)

    rejected : {r : RunResult} → KeptAt e id (Stage.rejected r)
    rejected = record { slot = k0.slot; listed = k0.listed; ending = k0.ending; read = tt }

pub claim-Keeps :
    (e : Engine) (id : ℕ)
    → e.stage id ≡ Stage.at_claim
    → ((i : ℕ) → Keeps e i)
    → (i : ℕ) → Keeps (claim id e) i
unfolding claim
claim-Keeps e id q k =
    go_to-Keeps e id Stage.running
      record { slot = k0.slot; listed = k0.listed; ending = k0.ending; read = tt } k
  where
    k0 : KeptAt e id Stage.at_claim
    k0 = at e id Stage.at_claim q (k id)

pub resume-Keeps :
    (e : Engine) (id w : ℕ)
    → e.stage id ≡ Stage.woken w
    → ((i : ℕ) → Keeps e i)
    → (i : ℕ) → Keeps (go_to id Stage.at_lookup e) i
resume-Keeps e id w q k =
    go_to-Keeps e id Stage.at_lookup
      record { slot = k0.slot; listed = k0.listed; ending = k0.ending; read = tt } k
  where
    k0 : KeptAt e id (Stage.woken w)
    k0 = at e id (Stage.woken w) q (k id)

pub register-Keeps :
    (e : Engine) (id w : ℕ)
    → e.stage id ≡ Stage.found w
    → ((i : ℕ) → Keeps e i)
    → (i : ℕ) → Keeps (register id w e) i
unfolding register
register-Keeps e id w q k =
    moved e (register id w e) id (Stage.waiting w) (update-own id _ e.stage)
      (rw (update-own id _ e.shared)
        record { slot = k0.slot; listed = k0.listed; ending = k0.ending; read = tt })
      (λ i h. record {
        slot = refl;
        listed = refl;
        job = rw h refl;
        events = refl;
        stage = rw h refl;
      })
      k
  where
    k0 : KeptAt e id (Stage.found w)
    k0 = at e id (Stage.found w) q (k id)

wake-IsKept :
    (w : ℕ) {a l : Bool} {i : ℕ} {job : JobShared} {events : List OrchestratorEvent} (s : Stage)
    → IsKept a l i job events s
    → IsKept a l i job events (wake w s)
unfolding wake
wake-IsKept w (Stage.waiting v) k = elim (Bool-cases (v == w)) [
  | inl h ↦ rw h record { slot = k.slot; listed = k.listed; ending = k.ending; read = tt }
  | inr h ↦ rw h k
]
wake-IsKept w s k = k

pub finish_job-Keeps :
    (e : Engine) (id : ℕ) (r : RunResult)
    → e.stage id ≡ Stage.running
    → ((i : ℕ) → Keeps e i)
    → (i : ℕ) → Keeps (finish_job id r e) i
unfolding finish_job notify_waiters
finish_job-Keeps e id r q k =
    moved (record e { stage = notify_waiters id e.stage }) (finish_job id r e) id (Stage.finished r)
      (update-own id _ (notify_waiters id e.stage))
      record { slot = k0.slot; listed = k0.listed; ending = k0.ending; read = tt }
      (λ i h. record { slot = refl; listed = refl; job = refl; events = refl; stage = rw h refl })
      (λ i. wake-IsKept id (e.stage i) (k i))
  where
    k0 : KeptAt e id Stage.running
    k0 = at e id Stage.running q (k id)

pub read_cancelled-Keeps :
    (e : Engine) (id : ℕ) (r : RunResult)
    → e.stage id ≡ Stage.finished r
    → ((i : ℕ) → Keeps e i)
    → (i : ℕ) → Keeps (read_cancelled id r e) i
unfolding read_cancelled
read_cancelled-Keeps e id r q k = go_to-Keeps e id _ (closing (e.shared id).is_cancelled refl) k
  where
    k0 : KeptAt e id (Stage.finished r)
    k0 = at e id (Stage.finished r) q (k id)

    closing : (c : Bool) → (e.shared id).is_cancelled ≡ c → KeptAt e id (Stage.closing r c)
    closing true h = record { slot = k0.slot; listed = k0.listed; ending = k0.ending; read = h }
    closing false h = record { slot = k0.slot; listed = k0.listed; ending = k0.ending; read = tt }

pub unlist-Keeps :
    (e : Engine) (id : ℕ) (r : RunResult)
    → e.stage id ≡ Stage.settled r
    → ((i : ℕ) → Keeps e i)
    → (i : ℕ) → Keeps (unlist id r e) i
unfolding unlist
unlist-Keeps e id r q k =
    moved e (unlist id r e) id (Stage.unlisted r) (update-own id _ e.stage)
      record { slot = k0.slot; listed = listed-remove_own id e.jobs; ending = k0.ending; read = tt }
      (λ i h. record {
        slot = refl;
        listed = listed-remove_other id i e.jobs h;
        job = refl;
        events = refl;
        stage = rw h refl;
      })
      k
  where
    k0 : KeptAt e id (Stage.settled r)
    k0 = at e id (Stage.settled r) q (k id)

pub release_admission-Keeps :
    (e : Engine) (id : ℕ) (r : RunResult)
    → e.stage id ≡ Stage.unlisted r
    → ((i : ℕ) → Keeps e i)
    → (i : ℕ) → Keeps (release_admission id r e) i
unfolding release_admission
release_admission-Keeps e id r q k =
    moved e (release_admission id r e) id (Stage.returned r) (update-own id _ e.stage)
      record {
        slot = admitted-remove_own id e.admissions;
        listed = k0.listed;
        ending = k0.ending;
        read = tt;
      }
      (λ i h. record {
        slot = admitted-remove_other id i e.admissions h;
        listed = refl;
        job = refl;
        events = refl;
        stage = rw h refl;
      })
      k
  where
    k0 : KeptAt e id (Stage.unlisted r)
    k0 = at e id (Stage.unlisted r) q (k id)
