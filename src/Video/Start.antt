-- ===== src/Video/Start.antt =====
-- `VideoPipeline.start` (app/domain/services/pipelines/video.py). `surprise` is the prompt that
-- `_pick_surprise_prompt` draws, if any; the resolution and the cap on the duration are constants of the
-- settings that the provider's calls take along.
use musicfy.Prelude.{
  ℕ, String, ◌||◌, Option, none, some, str_eq, if◌then◌else◌, Action, pure, raise, branch, ◌>>=◌,
  ◌>>◌, runtime_error, fal_error,
}
use musicfy.Work.Base.{
  crashed, Reply, done, failure, Submit, Settings, update_payload, set_current, mark_failed,
}
use musicfy.Json.{Json, Fields, get, truth}
use musicfy.Platform.{Platform}
use musicfy.Enums.{JobStage, JobStatus, StageStatus}
use musicfy.Provider.{Fal}
use musicfy.Work.Rows.{Job, Work}
use musicfy.Work.Repository.{set_status, record_stage}
use musicfy.Work.Runtime.{or_else}
use musicfy.Video.Prompt.{apply_style, lyrics_bg_prompt, own_prompt, fallback_prompt}

pub data VideoMode : Type 0 where
  avatar_performance visual_clip lyrics_video : VideoMode

-- `VideoMode(payload.get("mode") or ...)`, `none` for `ValueError`
abbrev pub mode_of : Json → Option VideoMode
mode_of (Json.str s) =
    if str_eq s "avatar_performance" || str_eq s ""
    then some avatar_performance
    else if str_eq s "visual_clip"
    then some visual_clip
    else if str_eq s "lyrics_video"
    then some lyrics_video
    else none
mode_of v = if truth v then none else some avatar_performance

unfoldable pub keep_video : ℕ → JobStage → Reply Submit → Action Work (Unit {0})
keep_video id stage (failure code message) = do
  record_stage id stage StageStatus.failed
  raise (fal_error code message)
keep_video id stage (crashed e) = raise (runtime_error e)
keep_video id stage (done submit) = set_current id stage submit none

module _ (platform : Platform) (fal : Fal) (settings : Settings) (surprise : Option String) where
  unfoldable pub reject : ℕ → JobStage → Action Work (Unit {0})
  reject id stage = do
    record_stage id stage StageStatus.failed
    mark_failed settings id "INVALID_INPUT"

  abbrev aspect_of : Fields → Json
  aspect_of p = or_else (get "aspect_ratio" p) (Json.str "9:16")

  -- `_start_avatar`
  unfoldable pub start_avatar : ℕ → Fields → Json → Action Work (Unit {0})
  start_avatar id p audio =
      let video = get "source_video_url" p in
      let image = get "reference_image_url" p in
      record_stage id JobStage.prepare_prompt StageStatus.succeeded
      >> branch (truth video || truth image)
          (do
            record_stage id JobStage.source_prep StageStatus.succeeded
            record_stage id JobStage.lipsync StageStatus.running
            keep_video id JobStage.lipsync (
                if truth video
                then fal.submit_lipsync_video id video audio
                else fal.submit_avatar_image_video id image audio))
          (reject id JobStage.source_prep)

  abbrev pub surprise_prompt : ℕ → Option String → Action Work String
  surprise_prompt id none = pure (fallback_prompt platform)
  surprise_prompt id (some picked) = do update_payload id "prompt" (Json.str picked); pure picked

  -- `_resolve_prompt`
  unfoldable pub resolve_prompt : ℕ → Fields → Action Work String
  resolve_prompt id p =
      let prompt = own_prompt platform p in
      branch (str_eq prompt "")
        (branch (truth (get "surprise_me" p)) (surprise_prompt id surprise)
          (pure (fallback_prompt platform)))
        (pure prompt)

  -- `_start_visual`
  unfoldable pub start_visual : ℕ → Fields → Action Work (Unit {0})
  start_visual id p = do
    prompt ← resolve_prompt id p
    record_stage id JobStage.prepare_prompt StageStatus.succeeded
    record_stage id JobStage.visual_gen StageStatus.running
    keep_video id JobStage.visual_gen (
        if truth (get "reference_image_url" p)
        then fal.submit_image_to_video id (apply_style platform prompt p)
            (get "reference_image_url" p) (aspect_of p)
        else fal.submit_text_to_video id (apply_style platform prompt p) (aspect_of p))

  -- `_start_lyrics`
  unfoldable pub start_lyrics : ℕ → Fields → Action Work (Unit {0})
  start_lyrics id p = do
    record_stage id JobStage.prepare_prompt StageStatus.succeeded
    record_stage id JobStage.source_prep StageStatus.succeeded
    record_stage id JobStage.visual_gen StageStatus.running
    keep_video id JobStage.visual_gen
        (fal.submit_lyrics_background id (lyrics_bg_prompt platform p) (aspect_of p))

  abbrev pub start_mode : VideoMode → ℕ → Fields → Json → Action Work (Unit {0})
  start_mode avatar_performance id p audio = start_avatar id p audio
  start_mode visual_clip id p audio = start_visual id p
  start_mode lyrics_video id p audio = start_lyrics id p

  abbrev pub start_known : ℕ → Fields → Option VideoMode → Action Work (Unit {0})
  start_known id p none = reject id JobStage.prepare_prompt
  start_known id p (some mode) =
      branch (truth (get "audio_url" p)) (start_mode mode id p (get "audio_url" p))
        (reject id JobStage.source_prep)

  unfoldable pub start_video : ℕ → Job → Action Work (Unit {0})
  start_video id j =
      set_status id JobStatus.running
      >> start_known id j.input_payload (mode_of (get "mode" j.input_payload))
