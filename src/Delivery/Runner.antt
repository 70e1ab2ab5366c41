-- ===== src/Delivery/Runner.antt =====
-- `PipelineRunner` (app/domain/services/pipelines/runner.py): the dispatch by the type of a job.
use musicfy.Prelude.{ℕ, String, Option, none, some, Action, pure, raise, gets, ◌>>=◌, runtime_error}
use musicfy.Work.Repository.{get_job}
use musicfy.Platform.{Platform}
use musicfy.Enums.{JobType, JobStage}
use musicfy.Work.Rows.{Job, Work}
use musicfy.Work.Base.{Settings}
use musicfy.Work.Runtime.{Stage}
use musicfy.Provider.{Fal, Media}
use musicfy.Song.Start.{start}
use musicfy.Song.Events.{advance, fail}
use musicfy.Cover.Pipeline.{start_cover, advance_cover, fail_cover}
use musicfy.Video.Start.{start_video}
use musicfy.Video.Finish.{advance_video, fail_video}
use musicfy.Voice.Pipeline.{start_voice, fail_voice, advance_voice}

-- What the pipelines are made with.
pub record Deps : Type 0 where
  pub platform : Platform
  pub fal : Fal
  pub media : Media
  pub settings : Settings
  -- the prompt that a video is surprised with
  pub surprise : Option String

module _ (deps : Deps) where
  open deps use {platform, fal, media, settings, surprise}

  -- `for_type` with the method of the pipeline; there is none for lyrics.
  abbrev pub start_of : JobType → ℕ → Job → Action Work (Unit {0})
  start_of JobType.song id j = start platform fal id j
  start_of JobType.cover id j = start_cover fal media settings id j
  start_of JobType.voice_clone id j = start_voice platform fal media settings id j
  start_of JobType.video id j = start_video platform fal settings surprise id j
  start_of JobType.lyrics id j = raise (runtime_error "No pipeline for job_type")

  -- `start`
  unfoldable pub start_job : ℕ → Job → Action Work (Unit {0})
  start_job id j = start_of j.job_type id j

  abbrev pub advance_of : JobType → ℕ → Job → JobStage → Stage → Action Work (Unit {0})
  advance_of JobType.song id j stage result = advance platform fal media settings id j stage result
  advance_of JobType.cover id j stage result = advance_cover fal media settings id j stage result
  advance_of JobType.voice_clone id j stage result = advance_voice platform fal media settings
  advance_of JobType.video id j stage result = advance_video media settings id j stage result
  advance_of JobType.lyrics id j stage result = pure tt

  abbrev pub advance_loaded : ℕ → JobStage → Stage → Option Job → Action Work (Unit {0})
  advance_loaded id stage result none = pure tt
  advance_loaded id stage result (some j) = advance_of j.job_type id j stage result

  -- `advance`
  unfoldable pub advance_job : ℕ → JobStage → Stage → Action Work (Unit {0})
  advance_job id stage result = do job ← gets (get_job id); advance_loaded id stage result job

  abbrev pub fail_of : JobType → ℕ → Job → JobStage → String → String → Action Work (Unit {0})
  fail_of JobType.song id j stage code message =
      fail platform fal media settings id j stage code message
  fail_of JobType.cover id j stage code message = fail_cover fal media settings id stage code
  fail_of JobType.voice_clone id j stage code message =
      fail_voice platform fal media settings id code
  fail_of JobType.video id j stage code message = fail_video media settings id stage code
  fail_of JobType.lyrics id j stage code message = pure tt

  abbrev pub fail_loaded : ℕ → JobStage → String → String → Option Job → Action Work (Unit {0})
  fail_loaded id stage code message none = pure tt
  fail_loaded id stage code message (some j) = fail_of j.job_type id j stage code message

  -- `fail`
  unfoldable pub fail_job : ℕ → JobStage → String → String → Action Work (Unit {0})
  fail_job id stage code message = do job ← gets (get_job id); fail_loaded id stage code message job
