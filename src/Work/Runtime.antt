-- ===== src/Work/Runtime.antt =====
-- What a stage leaves in the `_runtime` of a job's payload, for the pipelines of app/domain/services/pipelines.
use musicfy.Prelude.{String, Bool, true, Option, none, some, if◌then◌else◌}
use musicfy.Enums.{JobStage}
use musicfy.Json.{Json, Fields, end, field, get, truth, as_dict, of_text}
use musicfy.Work.Repository.{same_stage}

-- `JobStage.value`
abbrev pub stage_name : JobStage → String
stage_name JobStage.prepare_prompt = "prepare_prompt"
stage_name JobStage.upload_cdn = "upload_cdn"
stage_name JobStage.finalize = "finalize"
stage_name JobStage.lyrics = "lyrics"
stage_name JobStage.music_generation = "music_generation"
stage_name JobStage.vocal_tts = "vocal_tts"
stage_name JobStage.mix_master = "mix_master"
stage_name JobStage.stem_separation = "stem_separation"
stage_name JobStage.voice_conversion = "voice_conversion"
stage_name JobStage.consent_check = "consent_check"
stage_name JobStage.quality_check = "quality_check"
stage_name JobStage.voice_clone = "voice_clone"
stage_name JobStage.source_prep = "source_prep"
stage_name JobStage.lipsync = "lipsync"
stage_name JobStage.visual_gen = "visual_gen"
stage_name JobStage.mux_audio = "mux_audio"
stage_name JobStage.lyrics_render = "lyrics_render"

-- Python's `x or y` on values.
abbrev pub or_else : Json → Json → Json
or_else v w = if truth v then v else w

-- The three values that a stage left in the runtime.
pub record Output : Type 0 where
  pub audio_url : Option String
  pub duration_seconds : Json
  pub stems : Json

abbrev pub no_output : Output
no_output = record { audio_url = none; duration_seconds = Json.null; stems = Json.null }

abbrev pub media_of : String → Fields → Json
media_of key runtime = get "media_url" (as_dict (get key runtime))

-- What the provider says of a finished stage.
pub record Stage : Type 0 where
  pub media_url : Option String
  pub duration_seconds : Json
  pub stems : Json
  pub event_id : String

abbrev pub stage_fields : Stage → Fields
stage_fields s = field "media_url" (of_text s.media_url) (
    field "duration_seconds" s.duration_seconds
      (field "stems" s.stems (field "event_id" (Json.str s.event_id) end)))

-- The guard of `advance`.
abbrev pub is_current : JobStage → Option JobStage → Bool
is_current stage none = true
is_current stage (some s) = same_stage s stage
