-- ===== src/Song/Events.antt =====
-- What a webhook or the poller makes of a finished stage of a song (`SongPipeline.advance`) and of a
-- failed one (`SongPipeline.fail`, app/domain/services/pipelines/song.py). `id` and `j` are the
-- snapshot of the job the caller loaded.
use musicfy.Prelude.{
  ℕ, String, Bool, true, false, ◌&&◌, ◌||◌, Option, none, some, str_eq, Action, pure, raise, gets,
  branch, ◌>>=◌, ◌>>◌, runtime_error,
}
use musicfy.Work.Base.{
  crashed, Reply, done, failure, Submit, Settings, update_payload, set_current, get_runtime,
  persist_runtime, mark_failed,
}
use musicfy.Work.Runtime.{stage_name, Stage, stage_fields, is_current}
use musicfy.Platform.{Platform}
use musicfy.Json.{Json, get, set, truth}
use musicfy.Enums.{JobStage, StageStatus}
use musicfy.Work.Rows.{Job, Work}
use musicfy.Work.Repository.{same_stage, record_stage}
use musicfy.Provider.{Fal, Media}
use musicfy.Song.Text.{compose_song_prompt, fallback_tags, fallback_seconds}
use musicfy.Song.Finish.{finalize}

module _ (platform : Platform) (fal : Fal) (media : Media) (settings : Settings) where
  -- A voice that failed: the song goes out without it.
  unfoldable pub without_vocal : ℕ → Action Work (Unit {0})
  without_vocal id = do
    record_stage id JobStage.vocal_tts StageStatus.failed
    runtime ← gets (get_runtime id)
    finalize media settings id runtime

  unfoldable pub keep_speech : ℕ → Reply Submit → Action Work (Unit {0})
  keep_speech id (failure _ _) = without_vocal id
  keep_speech id (crashed e) = raise (runtime_error e)
  keep_speech id (done submit) = set_current id JobStage.vocal_tts submit none

  unfoldable pub speak : ℕ → Json → Reply String → Action Work (Unit {0})
  speak id lyrics (failure _ _) = without_vocal id
  speak id lyrics (crashed e) = raise (runtime_error e)
  speak id lyrics (done cloned) = do
    update_payload id "_cloned_voice_id" (Json.str cloned)
    keep_speech id (fal.submit_speech id lyrics cloned)

  -- `_submit_vocal_tts`
  unfoldable pub submit_vocal_tts : ℕ → Job → Json → Action Work (Unit {0})
  submit_vocal_tts id j lyrics =
      let cloned = get "_cloned_voice_id" j.input_payload in
      record_stage id JobStage.vocal_tts StageStatus.running
      >> branch (truth cloned) (keep_speech id (fal.submit_speech id lyrics (platform.show cloned)))
          (speak id lyrics (fal.voice_clone (get "voice_url" j.input_payload)))

  unfoldable pub advance : ℕ → Job → JobStage → Stage → Action Work (Unit {0})
  advance id j completed_stage result =
      branch (is_current completed_stage j.current_stage)
        (do
          record_stage id completed_stage StageStatus.succeeded
          before ← gets (get_runtime id)
          let runtime = set (stage_name completed_stage) (Json.obj (stage_fields result)) before
          persist_runtime id runtime
          branch
              (same_stage completed_stage JobStage.music_generation
                && truth (get "voice_url" j.input_payload)
                && truth (get "_lyrics" j.input_payload))
              (submit_vocal_tts id j (get "_lyrics" j.input_payload))
              (finalize media settings id runtime))
        (pure tt)

  abbrev pub fallback_music_model : String
  fallback_music_model = "fal-ai/stable-audio"

  abbrev pub fallback_vocal_model : String
  fallback_vocal_model = "fal-ai/ace-step"

  abbrev pub is_fallback_model : Option String → Bool
  is_fallback_model none = false
  is_fallback_model (some m) = str_eq m fallback_music_model || str_eq m fallback_vocal_model

  unfoldable pub keep_fallback : ℕ → String → String → Reply Submit → Action Work Bool
  keep_fallback id message model (failure _ _) = pure false
  keep_fallback id message model (crashed e) = raise (runtime_error e)
  keep_fallback id message model (done submit) = do
    update_payload id "_music_fallback_used" (Json.bool true)
    update_payload id "_music_fallback_prev_error" (Json.str (platform.prefix 200 message))
    set_current id JobStage.music_generation submit (some model)
    record_stage id JobStage.music_generation StageStatus.running
    pure true

  -- `_try_music_fallback`
  unfoldable pub try_music_fallback : ℕ → Job → String → Action Work Bool
  try_music_fallback id j message =
      let p = j.input_payload in
      branch (truth (get "_music_fallback_used" p) || is_fallback_model j.provider_model)
        (pure false)
        (branch (truth (get "_lyrics" p))
          (keep_fallback id message fallback_vocal_model
            (fal.submit_ace_step_vocal id (fallback_tags platform p) (get "_lyrics" p)))
          (keep_fallback id message fallback_music_model
            (fal.submit_stable_audio id (compose_song_prompt platform p) (fallback_seconds p))))

  unfoldable pub give_up : ℕ → JobStage → String → Action Work (Unit {0})
  give_up id failed_stage error_code = do
    record_stage id failed_stage StageStatus.failed
    mark_failed settings id error_code

  unfoldable pub fail : ℕ → Job → JobStage → String → String → Action Work (Unit {0})
  fail id j failed_stage error_code message =
      branch
        (same_stage failed_stage JobStage.music_generation && str_eq error_code "PROVIDER_FAILED")
        (do
          retried ← try_music_fallback id j message
          branch retried (pure tt) (give_up id failed_stage error_code))
        (give_up id failed_stage error_code)
