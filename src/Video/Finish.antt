-- ===== src/Video/Finish.antt =====
-- `VideoPipeline.advance` and what it calls (app/domain/services/pipelines/video.py). The lines of the lyrics are cut
-- by the tool that burns them in; the notification and the flag of quality are left out.
use musicfy.Prelude.{
  ℕ, String, Bool, false, Option, none, some, str_eq, get_or, truthy, Action, pure, gets, branch,
  ◌>>=◌, ◌>>◌,
}
use musicfy.Json.{Json, Fields, get, truth}
use musicfy.Enums.{JobStage, JobStatus, StageStatus}
use musicfy.Provider.{Media, Made, broken, made}
use musicfy.Work.Rows.{Job, Work}
use musicfy.Work.Repository.{
  get_job, set_status, record_stage, mark_succeeded, create_asset, same_stage,
}
use musicfy.Work.Base.{Settings, mark_failed, capture_credits}
use musicfy.Work.Runtime.{or_else, Stage, is_current}

-- The transaction of `_finalize`. A job that is gone ends the method.
unfoldable pub save_video : ℕ → String → Json → ℕ → Option Job → Action Work (Unit {0})
save_video id url duration captured none = pure tt
save_video id url duration captured (some j) = do
  create_asset (record { user_id = j.user_id; job_id = id; url = url; duration_seconds = duration })
  mark_succeeded id captured
  record_stage id JobStage.finalize StageStatus.succeeded

-- `_mux_audio` with what the tool made: without it the clip stays as it was.
unfoldable pub keep_mux : ℕ → String → Made → Action Work (String × Json)
keep_mux id url broken = do
  record_stage id JobStage.mux_audio StageStatus.failed
  pure (url, Json.null)
keep_mux id url (made muxed duration) =
    branch (truthy muxed)
      (do
        record_stage id JobStage.mux_audio StageStatus.succeeded
        pure (get_or url muxed, duration))
      (do record_stage id JobStage.mux_audio StageStatus.failed; pure (url, Json.null))

module _ (media : Media) (settings : Settings) where
  -- `_finalize`
  unfoldable pub finalize_video : ℕ → String → Json → Action Work (Unit {0})
  finalize_video id url duration = do
    set_status id JobStatus.post_processing
    record_stage id JobStage.upload_cdn StageStatus.succeeded
    captured ← capture_credits settings id
    record_stage id JobStage.finalize StageStatus.running
    job ← gets (get_job id)
    save_video id url duration captured job

  -- `_mux_audio`
  unfoldable pub mux_audio : ℕ → String → Json → Action Work (String × Json)
  mux_audio id url audio =
      branch (truth audio)
        (branch media.ffmpeg_available
          (do
            record_stage id JobStage.mux_audio StageStatus.running
            keep_mux id url (media.mux_audio_into_video url audio))
          (do record_stage id JobStage.mux_audio StageStatus.skipped; pure (url, Json.null)))
        (pure (url, Json.null))

  abbrev reject_render : ℕ → StageStatus → String → Action Work (Unit {0})
  reject_render id status code = do
    record_stage id JobStage.lyrics_render status
    mark_failed settings id code

  -- `_render_lyrics` with what the tool made
  unfoldable pub keep_render : ℕ → Json → Made → Action Work (Unit {0})
  keep_render id fallback broken = reject_render id StageStatus.failed "PROVIDER_FAILED"
  keep_render id fallback (made video duration) =
      branch (truthy video)
        (do
          record_stage id JobStage.lyrics_render StageStatus.succeeded
          finalize_video id (get_or "" video) (or_else duration fallback))
        (reject_render id StageStatus.failed "PROVIDER_FAILED")

  -- `_render_lyrics`
  unfoldable pub render_lyrics : ℕ → String → Fields → Json → Action Work (Unit {0})
  render_lyrics id background p fallback =
      let audio = get "audio_url" p in
      branch (truth audio)
        (branch media.ffmpeg_available
          (do
            record_stage id JobStage.lyrics_render StageStatus.running
            keep_render id fallback (
                media.render_lyrics_video background audio (get "lyrics" p)
                  (or_else (get "aspect_ratio" p) (Json.str "9:16"))))
          (reject_render id StageStatus.skipped "PROVIDER_FAILED"))
        (reject_render id StageStatus.failed "INVALID_INPUT")

  -- `final_duration if final_duration is not None else duration_seconds`
  abbrev given : Json → Json → Json
  given Json.null fallback = fallback
  given v fallback = v

  abbrev is_lyrics : Json → Bool
  is_lyrics (Json.str s) = str_eq s "lyrics_video"
  is_lyrics _ = false

  -- The branch of `advance` for a clip that is there.
  unfoldable pub advance_clip : ℕ → Job → JobStage → String → Json → Action Work (Unit {0})
  advance_clip id j completed_stage url duration =
      let p = j.input_payload in
      branch (same_stage completed_stage JobStage.visual_gen)
        (branch (is_lyrics (get "mode" p)) (render_lyrics id url p duration) (do
          out ← mux_audio id url (get "audio_url" p)
          finalize_video id out.0 (given out.1 duration)))
        (finalize_video id url duration)

  unfoldable pub advance_video : ℕ → Job → JobStage → Stage → Action Work (Unit {0})
  advance_video id j completed_stage result =
      branch (is_current completed_stage j.current_stage)
        (do
          record_stage id completed_stage StageStatus.succeeded
          branch (truthy result.media_url)
              (advance_clip id j completed_stage (get_or "" result.media_url)
                result.duration_seconds)
              (do
                record_stage id JobStage.finalize StageStatus.failed
                mark_failed settings id "PROVIDER_FAILED"))
        (pure tt)

  unfoldable pub fail_video : ℕ → JobStage → String → Action Work (Unit {0})
  fail_video id failed_stage error_code = do
    record_stage id failed_stage StageStatus.failed
    mark_failed settings id error_code
