-- ===== src/Cover/Pipeline.antt =====
-- `CoverPipeline` (app/domain/services/pipelines/cover.py): the stems, the voice, and the mix with the
-- instrumental. `id` and `j` are the snapshot of the job the caller loaded.
use musicfy.Prelude.{
  ℕ, String, Bool, false, not, ◌&&◌, Option, none, some, List, [], ◌∷◌, ◌==◌, str_eq, if◌then◌else◌,
  truthy, Action, pure, raise, gets, branch, ◌>>=◌, ◌>>◌, runtime_error, fal_error,
}
use musicfy.Titles.Derive.{derive_track_title}
use musicfy.Work.Base.{
  crashed, Reply, done, failure, Submit, Settings, update_payload, payload_of, set_current,
  get_runtime, persist_runtime, mark_failed, skip_missing,
}
use musicfy.Prelude.Int.{pos_part}
use musicfy.Json.{Json, Fields, end, field, get, set, as_dict, truth, text_of, of_text}
use musicfy.Enums.{JobStage, JobStatus, StageStatus, TrackKind}
use musicfy.Work.Rows.{Job, Work}
use musicfy.Work.Repository.{set_status, record_stage, same_stage}
use musicfy.Work.Runtime.{
  stage_name, or_else, Output, no_output, media_of, Stage, stage_fields, is_current,
}
use musicfy.Work.Tracks.{finish}
use musicfy.Provider.{Fal, Media, Made, broken, made}
use musicfy.Cover.Stems.{pick_stem, collect_instrumental_urls}

abbrev pub cover_stages : List JobStage
cover_stages = JobStage.stem_separation ∷ JobStage.voice_conversion ∷ []

abbrev pub both_stems : Json → Option String → Json
both_stems vocal instrumental =
    Json.obj (field "vocal" vocal (field "instrumental" (of_text instrumental) end))

-- The converted voice alone, where it cannot be mixed.
abbrev pub voice_only : Json → Option String → Output
voice_only vocal instrumental = record {
  audio_url = text_of vocal;
  duration_seconds = Json.null;
  stems = both_stems vocal instrumental;
}

-- `_mix` with what the mixer made.
unfoldable pub keep_cover_mix : ℕ → Json → Option String → Made → Action Work Output
keep_cover_mix id vocal instrumental broken = do
  record_stage id JobStage.mix_master StageStatus.failed
  pure (voice_only vocal instrumental)
keep_cover_mix id vocal instrumental (made url duration) =
    branch (truthy url)
      (do
        record_stage id JobStage.mix_master StageStatus.succeeded
        pure (record {
          audio_url = url;
          duration_seconds = duration;
          stems = both_stems vocal instrumental;
        }))
      (do
        record_stage id JobStage.mix_master StageStatus.failed
        pure (voice_only vocal instrumental))

module _ (media : Media) where
  abbrev pub instrumental_of : Json → Option String
  instrumental_of stems =
      if truth stems && media.ffmpeg_available then media.build_instrumental stems else none

  abbrev pub mix_of : Option String → Option String → Made
  mix_of (some music) (some vocal) = media.mix_music_and_vocal music vocal
  mix_of _ _ = broken

  -- `_mix`
  unfoldable pub mix_cover : ℕ → Json → Json → Action Work Output
  mix_cover id vocal stems =
      let instrumental = instrumental_of stems in
      branch (truth vocal)
        (branch (truthy instrumental && media.ffmpeg_available)
          (do
            record_stage id JobStage.mix_master StageStatus.running
            keep_cover_mix id vocal instrumental (mix_of instrumental (text_of vocal)))
          (do
            record_stage id JobStage.mix_master StageStatus.skipped
            pure (voice_only vocal instrumental)))
        (pure no_output)

  -- `not duration or duration <= 0`, for a number
  abbrev is_above : Json → Bool
  is_above (Json.int n) = not (pos_part n == 0)
  is_above (Json.float n) = not (pos_part n == 0)
  is_above _ = false

  abbrev pub probed_cover : String → Output → Output
  probed_cover url out =
      let p = media.probe_duration url in
      if is_above out.duration_seconds
      then out
      else if truth p
      then record out { duration_seconds = p }
      else out

module _ (media : Media) (settings : Settings) where
  -- `_finalize`
  unfoldable pub finalize_cover : ℕ → Fields → Action Work (Unit {0})
  finalize_cover id runtime = do
    set_status id JobStatus.post_processing
    existing ← gets (λ (w : Work). w.stages)
    skip_missing id cover_stages existing
    payload ← gets (payload_of id)
    out ←
        mix_cover media id (media_of "voice_conversion" runtime) (get "_instrumental_stems" payload)
    record_stage id JobStage.upload_cdn StageStatus.succeeded
    finish settings (probed_cover media) (derive_track_title media.words "cover") TrackKind.cover id
        out

module _ (fal : Fal) (media : Media) (settings : Settings) where
  unfoldable pub keep_stems : ℕ → Reply Submit → Action Work (Unit {0})
  keep_stems id (failure code message) = do
    record_stage id JobStage.stem_separation StageStatus.failed
    raise (fal_error code message)
  keep_stems id (crashed e) = raise (runtime_error e)
  keep_stems id (done submit) = set_current id JobStage.stem_separation submit none

  -- `_submit_stems`
  unfoldable pub submit_stems : ℕ → Json → Action Work (Unit {0})
  submit_stems id source = do
    record_stage id JobStage.stem_separation StageStatus.running
    keep_stems id (fal.submit_stem_separation id source)

  unfoldable pub start_cover : ℕ → Job → Action Work (Unit {0})
  start_cover id j =
      let source = get "source_audio_url" j.input_payload in
      set_status id JobStatus.running
      >> (record_stage id JobStage.prepare_prompt StageStatus.succeeded
          >> branch (truth source) (submit_stems id source) (do
            record_stage id JobStage.stem_separation StageStatus.failed
            mark_failed settings id "INVALID_INPUT"))

  -- What `_finalize` is called with from `advance`.
  unfoldable pub finalize_loaded : ℕ → Action Work (Unit {0})
  finalize_loaded id = do runtime ← gets (get_runtime id); finalize_cover media settings id runtime

  unfoldable pub keep_voice : ℕ → Reply Submit → Action Work (Unit {0})
  keep_voice id (failure _ _) = do
    record_stage id JobStage.voice_conversion StageStatus.failed
    finalize_loaded id
  keep_voice id (crashed e) = raise (runtime_error e)
  keep_voice id (done submit) = set_current id JobStage.voice_conversion submit none

  abbrev is_clone : Json → Bool
  is_clone (Json.str s) = str_eq s "clone"
  is_clone _ = false

  -- `_submit_voice_conversion`
  unfoldable pub submit_voice_conversion : ℕ → Job → Json → Action Work (Unit {0})
  submit_voice_conversion id j vocal =
      let p = j.input_payload in
      record_stage id JobStage.voice_conversion StageStatus.running
      >> keep_voice id (
          if is_clone (get "_voice_kind" p)
          then fal.submit_speech_to_speech id vocal (get "_target_voice_sample_url" p)
          else fal.submit_voice_changer id vocal
              (or_else (get "target_voice" p) (Json.str "default")))

  -- The branch of `advance` for the stems.
  unfoldable pub convert_voice : ℕ → Job → Fields → Action Work (Unit {0})
  convert_voice id j stems =
      let vocal = pick_stem ("vocals" ∷ ("vocal" ∷ [])) stems in
      update_payload id "_vocal_stem" vocal
      >> (update_payload id "_instrumental_stems" (Json.arr (collect_instrumental_urls stems))
          >> branch (truth vocal) (submit_voice_conversion id j vocal)
              (record_stage id JobStage.voice_conversion StageStatus.skipped >> finalize_loaded id))

  unfoldable pub advance_cover : ℕ → Job → JobStage → Stage → Action Work (Unit {0})
  advance_cover id j completed_stage result =
      branch (is_current completed_stage j.current_stage)
        (do
          record_stage id completed_stage StageStatus.succeeded
          before ← gets (get_runtime id)
          persist_runtime id
              (set (stage_name completed_stage) (Json.obj (stage_fields result)) before)
          branch (same_stage completed_stage JobStage.stem_separation)
              (convert_voice id j (as_dict result.stems)) (finalize_loaded id))
        (pure tt)

  unfoldable pub fail_cover : ℕ → JobStage → String → Action Work (Unit {0})
  fail_cover id failed_stage error_code = do
    record_stage id failed_stage StageStatus.failed
    mark_failed settings id error_code
