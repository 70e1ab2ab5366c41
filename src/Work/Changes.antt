-- ===== src/Work/Changes.antt =====
-- What the writes of one job's row leave (app/domain/services/pipelines/base.py).
use musicfy.Prelude.{
  ℕ, String, ◌≡◌, ◌||◌, Option, some, arith, if◌then◌else◌, truthy, first_some, ok, lookup-insert,
}
use musicfy.Json.{Json, Fields, set, of_text}
use musicfy.Enums.{JobStage, JobStatus}
use musicfy.Work.Rows.{Job, Work}
use musicfy.Work.Repository.{get_job, change_job, set_current_stage}
use musicfy.Work.Base.{Submit, update_payload, set_current}

-- The row is `j`, and no coin or track is touched.
abbrev pub Changed : ℕ → Job → Work → Work → Type 0
Changed id j w w' = (w'.bank ≡ w.bank) × (w'.tracks ≡ w.tracks) × (get_job id w' ≡ some j)

change_job_lem :
    (id : ℕ) (f : Job → Job) (j : Job) (w : Work)
    → get_job id w ≡ some j
    → ((change_job id f w).0 ≡ ok tt) × Changed id (f j) w (change_job id f w).1
change_job_lem id f j w e = grind (arith, lookup-insert)

pub update_payload_lem :
    (id : ℕ) (name : String) (v : Json) (j : Job) (w : Work)
    → get_job id w ≡ some j
    → ((update_payload id name v w).0 ≡ ok tt)
      × Changed id
          (record j { input_payload = set name v j.input_payload })
          w
          (update_payload id name v w).1
unfolding update_payload
update_payload_lem id name v j w e =
    change_job_lem id (λ j. record j { input_payload = set name v j.input_payload }) j w e

-- The payload after a submission.
abbrev pub with_urls : Submit → Fields → Fields
with_urls submit p =
    if truthy submit.status_url || truthy submit.response_url
    then set "_fal_response_url" (of_text submit.response_url)
        (set "_fal_status_url" (of_text submit.status_url) p)
    else p

abbrev pub submitted : JobStage → Submit → Option String → Job → Job
submitted stage submit model j = record j {
  current_stage = some stage;
  provider_request_id = some submit.request_id;
  status = JobStatus.running;
  provider_model = first_some model j.provider_model;
  input_payload = with_urls submit j.input_payload;
}

set_current_stage_lem :
    (id : ℕ) (stage : JobStage) (request_id : String) (model : Option String) (j : Job) (w : Work)
    → get_job id w ≡ some j
    → ((set_current_stage id stage request_id model w).0 ≡ ok tt)
      × Changed id
          (record j {
            current_stage = some stage;
            provider_request_id = some request_id;
            status = JobStatus.running;
            provider_model = first_some model j.provider_model;
          })
          w
          (set_current_stage id stage request_id model w).1
unfolding set_current_stage
set_current_stage_lem id stage request_id model j w e = grind (arith, lookup-insert)

pub set_current_lem :
    (id : ℕ) (stage : JobStage) (submit : Submit) (model : Option String) (j : Job) (w : Work)
    → get_job id w ≡ some j
    → ((set_current id stage submit model w).0 ≡ ok tt)
      × Changed id (submitted stage submit model j) w (set_current id stage submit model w).1
unfolding set_current
set_current_lem id stage submit model j w e =
    let s = set_current_stage_lem id stage submit.request_id model j w e in
    let w1 = (set_current_stage id stage submit.request_id model w).1 in
    let j1 = record j {
      current_stage = some stage;
      provider_request_id = some submit.request_id;
      status = JobStatus.running;
      provider_model = first_some model j.provider_model;
    } in
    let u = update_payload_lem id "_fal_status_url" (of_text submit.status_url) j1 w1 s.1.2 in
    let w2 = (update_payload id "_fal_status_url" (of_text submit.status_url) w1).1 in
    let j2 = record j1 {
      input_payload = set "_fal_status_url" (of_text submit.status_url) j.input_payload;
    } in
    ground (
      arith,
      s,
      u,
      update_payload_lem id "_fal_response_url" (of_text submit.response_url) j2 w2 u.1.2,
    )
