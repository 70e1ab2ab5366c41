-- ===== src/Work/Rows.antt =====
-- The rows of app/domain/models/job.py, track.py, asset.py and voice.py that the pipelines write, and the store
-- that holds them. Messages of errors and timestamps are written and never read back: they are left
-- out. So are an asset's title and metadata and a track's metadata.
use musicfy.Prelude.{ℕ, String, Option, List, Bool, Table}
use musicfy.Enums.{JobType, JobStatus, JobStage, StageStatus, TrackKind, VoiceProfileStatus}
use musicfy.Json.{Json, Fields}
use musicfy.Bank.{Bank}

-- `jobs`, by their id
pub record Job : Type 0 where
  pub user_id : ℕ
  pub job_type : JobType
  pub status : JobStatus
  pub current_stage : Option JobStage
  pub provider_model : Option String
  pub provider_request_id : Option String
  pub reserved_credits : ℕ
  pub captured_credits : ℕ
  pub input_payload : Fields
  pub store_stems : Bool
  pub client_idempotency_key : Option String
  pub error_code : Option String

-- `job_stage_log`, one row for a job and a stage
pub record StageEvent : Type 0 where
  pub job_id : ℕ
  pub stage : JobStage
  pub status : StageStatus

-- `tracks` with their one variant
pub record Track : Type 0 where
  pub user_id : ℕ
  pub job_id : ℕ
  pub kind : TrackKind
  pub title : String
  pub audio_url : String
  pub duration_seconds : Json
  pub stems : Json

-- `assets` of the kind `video`, with the `job_id` of their metadata
pub record VideoAsset : Type 0 where
  pub user_id : ℕ
  pub job_id : ℕ
  pub url : String
  pub duration_seconds : Json

-- `voice_consents`, by their id
pub record VoiceConsent : Type 0 where
  pub user_id : ℕ
  pub accepted : Bool

-- `voice_profiles`, by their id
pub record VoiceProfile : Type 0 where
  pub user_id : ℕ
  pub provider_voice_id : Option String
  pub status : VoiceProfileStatus
  pub sample_duration_seconds : Option ℕ
  pub sample_asset_url : Option String
  pub deleted : Bool

pub data Outcome : Type 0 where
  received applied : Outcome

-- `processed_webhooks` of the provider `fal`
pub record Webhook : Type 0 where
  pub event_id : String
  pub outcome : Outcome

-- `moderation_cases`, which are all of the status `blocked`
pub record ModerationCase : Type 0 where
  pub user_id : ℕ
  pub reason : String
  pub content_excerpt : Option String

pub record Work : Type 0 where
  pub bank : Bank
  pub jobs : Table Job
  pub stages : List StageEvent
  pub tracks : List Track
  pub assets : List VideoAsset
  pub webhooks : List Webhook
  pub consents : Table VoiceConsent
  pub profiles : Table VoiceProfile
  pub cases : List ModerationCase
