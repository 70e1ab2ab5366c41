-- ===== src/Generation/Service.antt =====
-- `GenerationService` (app/domain/services/generation_service.py). A new job's id is drawn by the database: it
-- is an argument. The events for the analytics are left out.
use musicfy.Prelude.{
  ℕ, String, Bool, true, false, not, ◌&&◌, Option, none, some, List, [], ◌∷◌, ◌==◌, str_eq,
  if◌then◌else◌, get_or, find, truthy, Error, Result, ok, err, Action, pure, raise, gets, catch,
  branch, ◌>>=◌, ◌>>◌, lookup, insert, moderation_blocked, validation_failed, fal_error,
}
use musicfy.Work.Runtime.{or_else}
use musicfy.Work.Rows.{ModerationCase, Job, Work, VoiceProfile}
use musicfy.Video.Start.{mode_of, avatar_performance, VideoMode, visual_clip, lyrics_video}
use musicfy.Work.Base.{reserved_of}
use musicfy.Voice.Pipeline.{lift}
use musicfy.Json.{of_text, Json, Fields, get, set, truth, text_of}
use musicfy.Wallet.{reserve, release}
use musicfy.Platform.{Platform}
use musicfy.Enums.{JobType, JobStatus, VoiceProfileStatus}
use musicfy.Work.Repository.{on_bank, set_failed, get_by_idempotency_key}
use musicfy.Delivery.Runner.{Deps, start_job}
use musicfy.Fal.Http.{Config}
use musicfy.Generation.Moderation.{screen_text}

-- `preset_voices`, by their key
pub record PresetVoice : Type 0 where
  pub key : String
  pub provider_voice : String
  pub active : Bool

-- What the service is made with.
pub record Generator : Type 0 where
  pub deps : Deps
  pub config : Config
  -- Python's `phrase in text`
  pub contains : String → String → Bool
  pub presets : List PresetVoice

-- `JobType.value`
abbrev pub type_name : JobType → String
type_name JobType.song = "song"
type_name JobType.lyrics = "lyrics"
type_name JobType.cover = "cover"
type_name JobType.voice_clone = "voice_clone"
type_name JobType.video = "video"

-- `PresetVoicesRepository.get_by_key`
abbrev pub get_by_key : String → List PresetVoice → Option PresetVoice
get_by_key key l = find (λ (p : PresetVoice). str_eq p.key key) l

-- The job that `create` adds.
abbrev pub new_job : ℕ → JobType → Fields → Option String → ℕ → Bool → Option String → Job
new_job user_id job_type payload model reserved store_stems key = record {
  user_id = user_id;
  job_type = job_type;
  status = JobStatus.created;
  current_stage = none;
  provider_model = model;
  provider_request_id = none;
  reserved_credits = reserved;
  captured_credits = 0;
  input_payload = payload;
  store_stems = store_stems;
  client_idempotency_key = key;
  error_code = none;
}

-- `JobsRepository.create`
unfoldable pub create_row : ℕ → Job → Action Work (Unit {0})
create_row id j w = (ok tt, record w { jobs = insert id j w.jobs })

abbrev pub unknown_voice : Error
unknown_voice = validation_failed "unknown_voice"

abbrev pub is_ready : VoiceProfileStatus → Bool
is_ready VoiceProfileStatus.ready = true
is_ready _ = false

-- `raw.strip()` of a text; a voice that is no text counts as none, as the request's schema has it.
abbrev pub voice_text : Json → String
voice_text (Json.str s) = s
voice_text _ = ""

abbrev pub for_cover : JobType → Result Fields → Fields → Result Fields
for_cover JobType.cover resolved payload = resolved
for_cover _ resolved payload = ok payload

-- A request for a job.
pub record JobRequest : Type 0 where
  pub user_id : ℕ
  pub job_type : JobType
  pub payload : Fields
  pub store_stems : Bool
  pub key : Option String

module _ (g : Generator) where
  abbrev platform : Platform
  platform = g.deps.platform

  abbrev pub usable : ℕ → Option VoiceProfile → Bool
  usable user_id none = false
  usable user_id (some p) =
      not p.deleted
      && p.user_id == user_id
      && is_ready p.status
      && not (str_eq (platform.strip (get_or "" p.sample_asset_url)) "")

  abbrev pub clone_payload : Fields → Option VoiceProfile → Result Fields
  clone_payload payload none = err unknown_voice
  clone_payload payload (some p) = ok (
      set "_target_voice_sample_url" (of_text p.sample_asset_url)
        (set "_voice_kind" (Json.str "clone") payload))

  -- The case of the user's own voice.
  abbrev pub own_voice : ℕ → Fields → Option VoiceProfile → Result Fields
  own_voice user_id payload profile =
      if usable user_id profile then clone_payload payload profile else err unknown_voice

  -- The case of a preset.
  abbrev pub preset_voice : Fields → Option PresetVoice → Result Fields
  preset_voice payload none = err unknown_voice
  preset_voice payload (some p) =
      if p.active
      then ok (
          set "target_voice" (Json.str p.provider_voice)
            (set "_voice_kind" (Json.str "preset") payload))
      else err unknown_voice

  abbrev pub named_voice : ℕ → Fields → String → Option ℕ → Work → Result Fields
  named_voice user_id payload value (some id) w = own_voice user_id payload (lookup id w.profiles)
  named_voice user_id payload value none w = preset_voice payload (get_by_key value g.presets)

  -- `_resolve_target_voice`
  unfoldable pub resolve_target_voice : ℕ → Fields → Work → Result Fields
  resolve_target_voice user_id payload w =
      let value = platform.strip (voice_text (get "target_voice" payload)) in
      if str_eq value ""
      then ok payload
      else named_voice user_id payload value (platform.parse_uuid value) w

  -- `video_provider_model` of the settings, by the mode and what the payload has
  abbrev pub video_model : VideoMode → Fields → String
  video_model avatar_performance p =
      if truth (get "source_video_url" p)
      then g.config.video_avatar_model
      else g.config.video_avatar_image_model
  video_model visual_clip p =
      if truth (get "reference_image_url" p)
      then g.config.video_visual_image_model
      else g.config.video_visual_model
  video_model lyrics_video p = g.config.video_lyrics_bg_model

  -- `_provider_model`
  unfoldable pub provider_model : JobType → Fields → Option String
  provider_model JobType.song p = some g.config.song_model
  provider_model JobType.cover p = some g.config.demucs_model
  provider_model JobType.voice_clone p = some g.config.voice_clone_model
  provider_model JobType.video p =
      some (video_model (get_or avatar_performance (mode_of (get "mode" p))) p)
  provider_model JobType.lyrics p = none

  -- The texts that are screened.
  abbrev pub texts_of : Fields → List (Option String)
  texts_of p =
      text_of (get "prompt" p)
      ∷ text_of (get "lyrics_prompt" p)
      ∷ text_of (get "custom_lyrics" p)
      ∷ text_of (get "lyrics" p)
      ∷ text_of (get "title" p)
      ∷ []

  abbrev pub voiced_payload : JobRequest → Work → Result Fields
  voiced_payload r w = for_cover r.job_type (resolve_target_voice r.user_id r.payload w) r.payload

  -- The release after a start that failed.
  unfoldable pub undo_start : ℕ → Job → String → Action Work (Unit {0})
  undo_start id j code =
      branch (g.deps.settings.has_credits && not (j.reserved_credits == 0))
        (catch (on_bank (release (reserved_of id j))) (λ _. pure tt)) (pure tt)
      >> set_failed id code

  abbrev pub start_failed : ℕ → Job → Error → Action Work (Unit {0})
  start_failed id j (fal_error code message) =
      undo_start id j code >> raise (fal_error code message)
  start_failed id j e = raise e

  unfoldable pub start_or_undo : ℕ → Job → Action Work (Unit {0})
  start_or_undo id j = catch (start_job g.deps id j) (start_failed id j)

  unfoldable pub reserve_coins : JobRequest → Action Work ℕ
  reserve_coins r =
      branch g.deps.settings.has_credits (on_bank (reserve r.user_id (type_name r.job_type)))
        (pure 0)

  -- From the coins that were reserved on.
  unfoldable pub make_reserved : ℕ → JobRequest → Fields → ℕ → Action Work (ℕ × Bool)
  make_reserved id r payload reserved =
      let j =
        new_job r.user_id r.job_type payload (provider_model r.job_type payload) reserved
          r.store_stems r.key in
      create_row id j >> (start_or_undo id j >> pure (id, false))

  -- From the reservation on.
  unfoldable pub make_job : ℕ → JobRequest → Fields → Action Work (ℕ × Bool)
  make_job id r payload = reserve_coins r >>= make_reserved id r payload

  abbrev pub make_unless : Option (ℕ × Job) → ℕ → JobRequest → Fields → Action Work (ℕ × Bool)
  make_unless (some found) id r payload = pure (found.0, true)
  make_unless none id r payload = make_job id r payload

  abbrev pub existing_job : JobRequest → Work → Option (ℕ × Job)
  existing_job r w =
      if truthy r.key then get_by_idempotency_key r.user_id (get_or "" r.key) w.jobs else none

  -- `(excerpt or "")[:500] or None`
  abbrev excerpt_of : Json → Option String
  excerpt_of v =
      let excerpt = platform.prefix 500 (get_or "" (text_of v)) in
      if str_eq excerpt "" then none else some excerpt

  -- The case that `create_job` records of a blocked request.
  abbrev pub blocked_case : String → JobRequest → ModerationCase
  blocked_case reason r = record {
    user_id = r.user_id;
    reason = reason;
    content_excerpt = excerpt_of (or_else (get "prompt" r.payload) (get "lyrics_prompt" r.payload));
  }

  -- `record_case`
  unfoldable pub record_case : ModerationCase → Action Work (Unit {0})
  record_case c w = (ok tt, record w { cases = c ∷ w.cases })

  abbrev pub unless_blocked : Option String → ℕ → JobRequest → Action Work (ℕ × Bool)
  unless_blocked (some reason) id r w =
      (record_case (blocked_case reason r) >> raise (moderation_blocked reason)) w
  unless_blocked none id r w =
      (lift (voiced_payload r w) >>= λ payload.
      gets (existing_job r) >>= λ found. make_unless found id r payload)
        w

  -- `create_job`: the id of the job, and whether it was there before
  unfoldable pub create_job : ℕ → JobRequest → Action Work (ℕ × Bool)
  create_job id r = unless_blocked (screen_text platform g.contains (texts_of r.payload)) id r
