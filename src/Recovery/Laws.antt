-- ===== src/Recovery/Laws.antt =====
-- What the recovery at the start leaves (app/domain/services/recovery.py).
use musicfy.Prelude.{
  ℕ, ◌≡◌, refl, Bool, true, false, not, ◌&&◌, Option, none, some, [], ◌∷◌, arith, ◌==◌,
  if◌then◌else◌, is_some, ok, is_ok, Table, lookup, lookup-insert,
}
use musicfy.Enums.{JobStatus}
use musicfy.Work.Rows.{Job, Work}
use musicfy.Work.Repository.{get_job, is_started, list_orphans, set_failed}
use musicfy.Work.Base.{Settings, reserved_of}
use musicfy.Work.Coins.{release_lem}
use musicfy.Recovery.{recover_job, recover_jobs, recover_orphan_jobs}

-- Queued or running, and never handed to the provider.
abbrev pub is_orphan : Job → Bool
is_orphan j = is_started j.status && not (is_some j.provider_request_id)

abbrev pub is_listed : ℕ → Table Job → Bool
is_listed v [] = false
is_listed v ((id, j) ∷ t) = if v == id then true else is_listed v t

-- What is left of a job after another write of the loop.
abbrev pub failed_row : Option Job → Option Job
failed_row none = none
failed_row (some j) =
    some (record j { status = JobStatus.failed; error_code = some "STARTUP_RECOVERY" })

recover_job_lem :
    (settings : Settings) (v id : ℕ) (j : Job) (w : Work)
    → ((recover_job settings id j w).0 ≡ ok tt)
      × (get_job v (recover_job settings id j w).1
          ≡ (if v == id then failed_row (get_job v w) else get_job v w))
unfolding recover_job set_failed
recover_job_lem settings v id j w =
    grind (arith, lookup-insert, release_lem (reserved_of id j) w.bank)

failed_row_again : (o : Option Job) → failed_row (failed_row o) ≡ failed_row o
failed_row_again none = refl
failed_row_again (some j) = refl

recover_jobs_lem :
    (settings : Settings) (v : ℕ) (l : Table Job) (w : Work)
    → ((recover_jobs settings l w).0 ≡ ok tt)
      × (get_job v (recover_jobs settings l w).1
          ≡ (if is_listed v l then failed_row (get_job v w) else get_job v w))
unfolding recover_jobs
recover_jobs_lem settings v [] w = (refl, refl)
recover_jobs_lem settings v ((id, j) ∷ l) w = ground (
  arith,
  recover_job_lem settings v id j w,
  recover_jobs_lem settings v l (recover_job settings id j w).1,
  failed_row_again (get_job v w),
)

listed :
    (v : ℕ) (t : Table Job) (j : Job)
    → lookup v t ≡ some j
    → is_orphan j ≡ true
    → is_listed v (list_orphans t) ≡ true
unfolding list_orphans
listed v [] j e o = ground (arith, e)
listed v ((id, k) ∷ t) j e o = ground (arith, e, o, listed v t j)

-- The recovery always returns, and a job that was an orphan is failed afterwards with the code
-- `STARTUP_RECOVERY`, the rest of its row as it was.
pub recover_orphan_jobs_effect :
    (settings : Settings) (v : ℕ) (j : Job) (w : Work)
    → get_job v w ≡ some j
    → is_orphan j ≡ true
    → (is_ok (recover_orphan_jobs settings w).0 ≡ true)
      × (get_job v (recover_orphan_jobs settings w).1
          ≡ some (record j { status = JobStatus.failed; error_code = some "STARTUP_RECOVERY" }))
unfolding recover_orphan_jobs
recover_orphan_jobs_effect settings v j w e o =
    ground (arith, e, recover_jobs_lem settings v (list_orphans w.jobs) w, listed v w.jobs j e o)
