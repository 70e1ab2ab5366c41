-- ===== src/Work/Coins.antt =====
-- What the base of the pipelines does with the coins of a job
-- (app/domain/services/pipelines/base.py): `_capture_credits` and `_mark_failed` never raise.
use musicfy.Prelude.{
  ℕ, String, ◌≡◌, refl, true, false, some, List, [], ◌∷◌, arith, ok, insert, lookup-insert,
}
use musicfy.Bank.{Bank}
use musicfy.Wallet.Effects.{capture_again}
use musicfy.Wallet.{Reserved, capture, release}
use musicfy.Work.Rows.{Job, Work, StageEvent}
use musicfy.Work.Base.{Settings, reserved_of, capture_credits, mark_failed, skip_missing}
use musicfy.Work.Repository.{get_job, set_failed, set_status, record_stage}
use musicfy.Enums.{JobStage, JobStatus, StageStatus}

pub capture_lem : (r : Reserved) (b : Bank) → (capture r b).0 ≡ ok r.reserved_credits
unfolding capture
capture_lem r b = ground arith

pub release_lem : (r : Reserved) (b : Bank) → (release r b).0 ≡ ok tt
unfolding release
release_lem r b = ground arith

-- The bank after the coins of a job are taken, or given back.
abbrev pub captured_bank : Settings → ℕ → Job → Bank → Bank
captured_bank settings id j b = elim settings.has_credits [
  | true ↦ (capture (reserved_of id j) b).1
  | false ↦ b
]

abbrev pub released_bank : Settings → ℕ → Job → Bank → Bank
released_bank settings id j b = elim settings.has_credits [
  | true ↦ (release (reserved_of id j) b).1
  | false ↦ b
]

abbrev pub captured_coins : Settings → Job → ℕ
captured_coins settings j = elim settings.has_credits [ true ↦ j.reserved_credits | false ↦ 0 ]

pub capture_credits_lem :
    (settings : Settings) (id : ℕ) (j : Job) (w : Work)
    → get_job id w ≡ some j
    → capture_credits settings id w
      ≡ (ok (captured_coins settings j), record w { bank = captured_bank settings id j w.bank })
unfolding capture_credits
capture_credits_lem settings id j w e = ground (arith, capture_lem (reserved_of id j) w.bank)

pub mark_failed_lem :
    (settings : Settings) (id : ℕ) (j : Job) (error_code : String) (w : Work)
    → get_job id w ≡ some j
    → mark_failed settings id error_code w ≡ (
      ok tt,
      record w {
        bank = released_bank settings id j w.bank;
        jobs =
            insert id (record j { status = JobStatus.failed; error_code = some error_code }) w.jobs;
      },
    )
unfolding mark_failed set_failed
mark_failed_lem settings id j error_code w e = ground (arith, release_lem (reserved_of id j) w.bank)

-- The coins, the jobs and the tracks are as they were.
abbrev pub Keeps : Work → Work → Type 0
Keeps w w' = (w'.bank ≡ w.bank) × (w'.jobs ≡ w.jobs) × (w'.tracks ≡ w.tracks)

pub skip_missing_lem :
    (id : ℕ) (sts : List JobStage) (existing : List StageEvent) (w : Work)
    → ((skip_missing id sts existing w).0 ≡ ok tt) × Keeps w (skip_missing id sts existing w).1
unfolding skip_missing record_stage
skip_missing_lem id [] existing w = (refl, (refl, refl, refl))
skip_missing_lem id (st ∷ sts) existing w = ground (
  arith,
  skip_missing_lem id sts existing w,
  skip_missing_lem id sts existing (record_stage id st StageStatus.skipped w).1,
)

-- The coins of a job are taken once.
pub captured_bank_again :
    (settings : Settings) (id : ℕ) (j : Job) (b : Bank)
    → captured_bank settings id j (captured_bank settings id j b) ≡ captured_bank settings id j b
captured_bank_again settings id j b = ground (arith, capture_again (reserved_of id j) b)

pub set_status_lem :
    (id : ℕ) (status : JobStatus) (j : Job) (w : Work)
    → get_job id w ≡ some j
    → get_job id (set_status id status w).1 ≡ some (record j { status = status })
unfolding set_status
set_status_lem id status j w e = grind (arith, lookup-insert)
