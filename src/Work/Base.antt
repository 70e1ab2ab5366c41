-- ===== src/Work/Base.antt =====
-- `BasePipeline` (app/domain/services/pipelines/base.py), with what it takes from outside: the
-- provider fal, the media tools, and the settings.
use musicfy.Prelude.{
  ℕ, String, Bool, ◌||◌, Option, none, some, List, [], ◌∷◌, truthy, Action, pure, gets, catch,
  branch, ◌>>=◌, ◌>>◌,
}
use musicfy.Json.{get, as_dict, Json, Fields, set, of_text}
use musicfy.Wallet.{capture, Reserved, release}
use musicfy.Enums.{JobStage, StageStatus}
use musicfy.Work.Repository.{
  on_bank, get_job, change_job, set_current_stage, set_failed, record_stage, is_recorded,
}
use musicfy.Work.Rows.{Job, StageEvent, Work}

-- The reply of a call of the provider: a value, `FalProviderError` / `FalTimeout` with its code and
-- message, or another error that the call raises, as that of an answer which is no JSON object.
pub data Reply (A : Type 0) : Type 0 where
  done : A → Reply A
  failure : String → String → Reply A
  crashed : String → Reply A

-- `FalSubmitResult`
pub record Submit : Type 0 where
  pub request_id : String
  pub status_url : Option String
  pub response_url : Option String

pub record Settings : Type 0 where
  -- whether the pipelines have a `CreditGate`
  pub has_credits : Bool

abbrev pub reserved_of : ℕ → Job → Reserved
reserved_of id j = record { id = id; user_id = j.user_id; reserved_credits = j.reserved_credits }

abbrev pub payload_of : ℕ → Work → Fields
payload_of id w = elim (get_job id w) [ none ↦ Fields.end | some j ↦ j.input_payload ]

-- `_update_payload` with one pair
unfoldable pub update_payload : ℕ → String → Json → Action Work (Unit {0})
update_payload id name v =
    change_job id (λ j. record j { input_payload = set name v j.input_payload })

-- `_set_current_stage`: the urls of the submission are kept for the poller.
unfoldable pub set_current : ℕ → JobStage → Submit → Option String → Action Work (Unit {0})
set_current id stage submit provider_model = do
  set_current_stage id stage submit.request_id provider_model
  branch (truthy submit.status_url || truthy submit.response_url)
      (do
        update_payload id "_fal_status_url" (of_text submit.status_url)
        update_payload id "_fal_response_url" (of_text submit.response_url))
      (pure tt)

-- `_get_runtime`
abbrev pub get_runtime : ℕ → Work → Fields
get_runtime id w = as_dict (get "_runtime" (payload_of id w))

-- `_persist_runtime`
unfoldable pub persist_runtime : ℕ → Fields → Action Work (Unit {0})
persist_runtime id runtime = update_payload id "_runtime" (Json.obj runtime)

abbrev pub release_job : ℕ → Option Job → Action Work (Unit {0})
release_job id none = pure tt
release_job id (some j) = catch (on_bank (release (reserved_of id j))) (λ _. pure tt)

-- `_mark_failed`: the reserved coins go back first.
unfoldable pub mark_failed : Settings → ℕ → String → Action Work (Unit {0})
mark_failed settings id error_code = do
  job ← gets (get_job id)
  branch settings.has_credits (release_job id job) (pure tt)
  set_failed id error_code

abbrev pub capture_job : ℕ → Option Job → Action Work ℕ
capture_job id none = pure 0
capture_job id (some j) = catch (on_bank (capture (reserved_of id j))) (λ _. pure 0)

-- `_capture_credits`
unfoldable pub capture_credits : Settings → ℕ → Action Work ℕ
capture_credits settings id = do
  job ← gets (get_job id)
  branch settings.has_credits (capture_job id job) (pure 0)

-- `for st in ASYNC_STAGES: if st not in existing: record "skipped"`
unfoldable pub skip_missing : ℕ → List JobStage → List StageEvent → Action Work (Unit {0})
skip_missing id [] existing = pure tt
skip_missing id (st ∷ sts) existing =
    branch (is_recorded id st existing) (pure tt) (record_stage id st StageStatus.skipped)
    >> skip_missing id sts existing
