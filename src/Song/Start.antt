-- ===== src/Song/Start.antt =====
-- `SongPipeline.start` (app/domain/services/pipelines/song.py): the lyrics, the title, and the
-- submission of the music. `id` and `j` are the snapshot of the job the caller loaded.
use musicfy.Prelude.{
  ℕ, String, ◌||◌, none, str_eq, Action, pure, raise, branch, ◌>>=◌, ◌>>◌, runtime_error, fal_error,
}
use musicfy.Work.Base.{crashed, Reply, done, failure, Submit, update_payload, set_current}
use musicfy.Work.Runtime.{or_else}
use musicfy.Platform.{Platform}
use musicfy.Json.{Json, Fields, get, truth}
use musicfy.Enums.{JobStage, JobStatus, StageStatus}
use musicfy.Work.Rows.{Job, Work}
use musicfy.Work.Repository.{set_status, record_stage}
use musicfy.Provider.{Fal}
use musicfy.Song.Text.{compose_song_prompt}

-- `_resolve_lyrics` with the provider's reply.
unfoldable pub keep_lyrics : Platform → ℕ → Reply String → Action Work Json
keep_lyrics platform id (failure _ _) = do
  record_stage id JobStage.lyrics StageStatus.failed
  pure Json.null
keep_lyrics platform id (crashed e) = raise (runtime_error e)
keep_lyrics platform id (done lyrics) =
    branch (str_eq (platform.prefix 2 lyrics) lyrics)
      (do record_stage id JobStage.lyrics StageStatus.skipped; pure Json.null)
      (do
        update_payload id "_lyrics" (Json.str lyrics)
        record_stage id JobStage.lyrics StageStatus.succeeded
        pure (Json.str lyrics))

-- `_resolve_title` with the provider's reply.
unfoldable pub keep_title : Platform → ℕ → Reply String → Action Work (Unit {0})
keep_title platform id (failure _ _) = pure tt
keep_title platform id (crashed e) = raise (runtime_error e)
keep_title platform id (done title) =
    let stripped = platform.strip title in
    branch (str_eq stripped "") (pure tt)
      (update_payload id "_generated_title" (Json.str (platform.prefix 80 stripped)))

-- `_submit_music` with the provider's reply.
unfoldable pub keep_music : ℕ → Reply Submit → Action Work (Unit {0})
keep_music id (failure code message) = do
  record_stage id JobStage.music_generation StageStatus.failed
  raise (fal_error code message)
keep_music id (crashed e) = raise (runtime_error e)
keep_music id (done submit) = set_current id JobStage.music_generation submit none

module _ (platform : Platform) (fal : Fal) where
  abbrev pub language_of : Fields → Json
  language_of p = or_else (get "language" p) (Json.str "en")

  -- `_resolve_lyrics`
  unfoldable pub resolve_lyrics : ℕ → Job → Action Work Json
  resolve_lyrics id j =
      let p = j.input_payload in
      branch (truth (get "custom_lyrics" p))
        (do
          record_stage id JobStage.lyrics StageStatus.skipped
          update_payload id "_lyrics" (get "custom_lyrics" p)
          pure (get "custom_lyrics" p))
        (branch (truth (get "lyrics_prompt" p))
          (do
            record_stage id JobStage.lyrics StageStatus.running
            keep_lyrics platform id (
                fal.generate_lyrics (get "lyrics_prompt" p) (language_of p) (get "genre" p)
                  (get "mood" p)))
          (do record_stage id JobStage.lyrics StageStatus.skipped; pure Json.null))

  -- `_resolve_title`
  unfoldable pub resolve_title : ℕ → Job → Json → Action Work (Unit {0})
  resolve_title id j lyrics =
      let p = j.input_payload in
      branch (truth (get "title" p) || truth (get "_generated_title" p)) (pure tt) (
        keep_title platform id (
          fal.generate_track_title (or_else (get "prompt" p) (get "lyrics_prompt" p))
            (or_else lyrics (get "custom_lyrics" p)) (language_of p)))

  -- `_submit_music`
  unfoldable pub submit_music : ℕ → Job → Json → Action Work (Unit {0})
  submit_music id j lyrics = do
    record_stage id JobStage.music_generation StageStatus.running
    keep_music id (
        fal.submit_song id (compose_song_prompt platform j.input_payload)
          (get "desired_duration_seconds" j.input_payload) lyrics
          (get "reference_audio_url" j.input_payload))

  unfoldable pub start : ℕ → Job → Action Work (Unit {0})
  start id j = do
    set_status id JobStatus.running
    record_stage id JobStage.prepare_prompt StageStatus.succeeded
    lyrics ← resolve_lyrics id j
    resolve_title id j lyrics
    submit_music id j lyrics
