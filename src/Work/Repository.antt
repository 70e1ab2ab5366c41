-- ===== src/Work/Repository.antt =====
-- `JobsRepository` (app/domain/repositories/jobs.py), and what the pipelines use of the repositories
-- of tracks and assets.
use musicfy.Prelude.{
  ℕ, zero, suc, String, ite, Bool, true, false, not, ◌&&◌, Option, none, some, List, [], ◌∷◌, ◌==◌,
  str_eq, if◌then◌else◌, is_some, find, first_some, Result, ok, err, Action, Table, lookup, insert,
}
use musicfy.Enums.{JobStage, JobStage-discrete, JobStatus, StageStatus}
use musicfy.Bank.{Bank}
use musicfy.Work.Rows.{Job, StageEvent, Track, VideoAsset, Work}

abbrev pub on_bank : {A : Type 0} → Action Bank A → Action Work A
on_bank m w = let (r, b) = m w.bank in (r, record w { bank = b })

abbrev pub get_job : ℕ → Work → Option Job
get_job id w = lookup id w.jobs

abbrev pub change_row : ℕ → (Job → Job) → Option Job → Table Job → Table Job
change_row id f none t = t
change_row id f (some j) t = insert id (f j) t

-- `UPDATE jobs SET ... WHERE id = ...`
abbrev pub change_job : ℕ → (Job → Job) → Action Work (Unit {0})
change_job id f w = (ok tt, record w { jobs = change_row id f (get_job id w) w.jobs })

unfoldable pub set_status : ℕ → JobStatus → Action Work (Unit {0})
set_status id status = change_job id (λ j. record j { status = status })

-- `stage` is written with `current_stage` and never read back.
unfoldable pub set_current_stage : ℕ → JobStage → String → Option String → Action Work (Unit {0})
set_current_stage id stage request_id provider_model = change_job id (λ j. record j {
  current_stage = some stage;
  provider_request_id = some request_id;
  status = JobStatus.running;
  provider_model = first_some provider_model j.provider_model;
})

unfoldable pub mark_succeeded : ℕ → ℕ → Action Work (Unit {0})
mark_succeeded id captured =
    change_job id (λ j. record j { status = JobStatus.completed; captured_credits = captured })

unfoldable pub set_failed : ℕ → String → Action Work (Unit {0})
set_failed id error_code =
    change_job id (λ j. record j { status = JobStatus.failed; error_code = some error_code })

abbrev pub same_stage : JobStage → JobStage → Bool
same_stage a b = ite (JobStage-discrete a b) true false

abbrev pub upsert_stage : ℕ → JobStage → StageStatus → List StageEvent → List StageEvent
upsert_stage id stage status [] = record { job_id = id; stage = stage; status = status } ∷ []
upsert_stage id stage status (e ∷ l) =
    if e.job_id == id && same_stage e.stage stage
    then record e { status = status } ∷ l
    else e ∷ upsert_stage id stage status l

-- `record_stage_event`
unfoldable pub record_stage : ℕ → JobStage → StageStatus → Action Work (Unit {0})
record_stage id stage status w =
    (ok tt, record w { stages = upsert_stage id stage status w.stages })

abbrev pub is_recorded : ℕ → JobStage → List StageEvent → Bool
is_recorded id stage [] = false
is_recorded id stage (e ∷ l) =
    if e.job_id == id && same_stage e.stage stage then true else is_recorded id stage l

-- `TracksRepository.get_by_job_id(job_id, include_deleted=True)`, as a test
abbrev pub has_track : ℕ → List Track → Bool
has_track id [] = false
has_track id (t ∷ ts) = if t.job_id == id then true else has_track id ts

abbrev pub track_unless : Bool → Result String → (String → Track) → Action Work (Unit {0})
track_unless true title make w = (ok tt, w)
track_unless false (ok title) make w = (ok tt, record w { tracks = make title ∷ w.tracks })
track_unless false (err e) make w = (err e, w)

-- The creation of a track, where the job has none: only then is its title made.
unfoldable pub ensure_track : ℕ → Result String → (String → Track) → Action Work (Unit {0})
ensure_track id title make w = track_unless (has_track id w.tracks) title make w

unfoldable pub create_asset : VideoAsset → Action Work (Unit {0})
create_asset a w = (ok tt, record w { assets = a ∷ w.assets })

abbrev pub is_active : JobStatus → Bool
is_active JobStatus.created = true
is_active JobStatus.queued = true
is_active JobStatus.running = true
is_active JobStatus.post_processing = true
is_active JobStatus.completed = false
is_active JobStatus.failed = false
is_active JobStatus.canceled = false

abbrev pub is_started : JobStatus → Bool
is_started JobStatus.queued = true
is_started JobStatus.running = true
is_started _ = false

-- `list_active_with_request`
unfoldable pub list_active_with_request : ℕ → Table Job → Table Job
list_active_with_request zero t = []
list_active_with_request (suc n) [] = []
list_active_with_request (suc n) ((id, j) ∷ t) =
    elim (is_active j.status && is_some j.provider_request_id) [
      | true ↦ (id, j) ∷ list_active_with_request n t
      | false ↦ list_active_with_request (suc n) t
    ]

-- `list_orphans`
unfoldable pub list_orphans : Table Job → Table Job
list_orphans [] = []
list_orphans ((id, j) ∷ t) =
    if is_started j.status && not (is_some j.provider_request_id)
    then (id, j) ∷ list_orphans t
    else list_orphans t

abbrev pub has_request : String → Option String → Bool
has_request request_id none = false
has_request request_id (some r) = str_eq r request_id

-- `find_by_request_id`
abbrev pub find_by_request_id : String → Table Job → Option (ℕ × Job)
find_by_request_id request_id t =
    find (λ (r : ℕ × Job). has_request request_id r.1.provider_request_id) t

-- `get_by_idempotency_key`
abbrev pub get_by_idempotency_key : ℕ → String → Table Job → Option (ℕ × Job)
get_by_idempotency_key user_id key t =
    find (λ (r : ℕ × Job). r.1.user_id == user_id && has_request key r.1.client_idempotency_key) t
