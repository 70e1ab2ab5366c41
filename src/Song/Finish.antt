-- ===== src/Song/Finish.antt =====
-- `SongPipeline._finalize` and `_maybe_mix` (app/domain/services/pipelines/song.py): the mix, the track, and
-- the coins.
use musicfy.Prelude.{
  ℕ, String, Bool, false, not, ◌&&◌, Option, none, some, List, [], ◌∷◌, ◌==◌, str_eq, if◌then◌else◌,
  Action, pure, gets, branch, ◌>>=◌, ◌>>◌,
}
use musicfy.Titles.Derive.{derive_track_title}
use musicfy.Work.Runtime.{Output, media_of}
use musicfy.Work.Tracks.{finish}
use musicfy.Json.{Json, Fields, end, field, get, set, as_dict, truth, text_of}
use musicfy.Prelude.Int.{pos_part}
use musicfy.Enums.{JobStage, JobStatus, StageStatus, TrackKind}
use musicfy.Work.Rows.{Work}
use musicfy.Work.Repository.{set_status, record_stage}
use musicfy.Work.Base.{Settings, skip_missing}
use musicfy.Provider.{Media, Made, broken, made}
use musicfy.Song.Text.{pick_output}

abbrev pub async_stages : List JobStage
async_stages = JobStage.music_generation ∷ JobStage.vocal_tts ∷ []

-- `d > 0` of a number; anything else counts as no number.
abbrev pub is_above : Json → Bool
is_above (Json.int n) = not (pos_part n == 0)
is_above (Json.float n) = not (pos_part n == 0)
is_above _ = false

-- `_maybe_mix` where there is no ffmpeg: the voice is kept among the stems.
abbrev pub with_vocal : Json → Fields → Fields
with_vocal vocal runtime =
    let mg = as_dict (get "music_generation" runtime) in
    set "music_generation"
      (Json.obj (set "stems" (Json.obj (set "vocal" vocal (as_dict (get "stems" mg)))) mg)) runtime

abbrev pub with_mix : String → Json → Json → Json → Fields → Fields
with_mix url duration vocal music runtime =
    set "mix_master"
      (Json.obj (
        field "media_url" (Json.str url) (
          field "duration_seconds" duration
            (field "stems" (Json.obj (field "vocal" vocal (field "music" music end))) end))))
      runtime

-- `_maybe_mix` with what the mixer made.
unfoldable pub keep_mix : ℕ → Json → Json → Fields → Made → Action Work Fields
keep_mix id vocal music runtime broken = do
  record_stage id JobStage.mix_master StageStatus.failed
  pure runtime
keep_mix id vocal music runtime (made none duration) = do
  record_stage id JobStage.mix_master StageStatus.failed
  pure runtime
keep_mix id vocal music runtime (made (some url) duration) =
    branch (str_eq url "") (do record_stage id JobStage.mix_master StageStatus.failed; pure runtime)
      (do
        record_stage id JobStage.mix_master StageStatus.succeeded
        pure (with_mix url duration vocal music runtime))

abbrev pub mixed : Media → Option String → Option String → Made
mixed media (some music) (some vocal) = media.mix_music_and_vocal music vocal
mixed media _ _ = broken

module _ (media : Media) where
  -- `_maybe_mix`
  unfoldable pub maybe_mix : ℕ → Fields → Action Work Fields
  maybe_mix id runtime =
      let music = media_of "music_generation" runtime in
      let vocal = media_of "vocal_tts" runtime in
      branch (truth music && truth vocal)
        (branch media.ffmpeg_available
          (do
            record_stage id JobStage.mix_master StageStatus.running
            keep_mix id vocal music runtime (mixed media (text_of music) (text_of vocal)))
          (do
            record_stage id JobStage.mix_master StageStatus.skipped
            pure (with_vocal vocal runtime)))
        (do record_stage id JobStage.mix_master StageStatus.skipped; pure runtime)

  -- The duration, probed where the provider gave none above 0.
  abbrev pub probed : String → Output → Output
  probed url out =
      let p = media.probe_duration url in
      if is_above out.duration_seconds
      then out
      else if is_above p
      then record out { duration_seconds = p }
      else out

module _ (media : Media) (settings : Settings) where
  -- `_finalize`
  unfoldable pub finalize : ℕ → Fields → Action Work (Unit {0})
  finalize id runtime = do
    set_status id JobStatus.post_processing
    existing ← gets (λ (w : Work). w.stages)
    skip_missing id async_stages existing
    mixed_runtime ← maybe_mix media id runtime
    record_stage id JobStage.upload_cdn StageStatus.succeeded
    finish settings (probed media) (derive_track_title media.words "song") TrackKind.song id
        (pick_output mixed_runtime)
