-- ===== src/Delivery/Frame.antt =====
-- The runner stays with the job that it is called for (app/domain/services/pipelines/runner.py).
use musicfy.Prelude.{ℕ, String, Option, none, some}
use musicfy.Delivery.Runner.{
  advance_of, start_of, advance_loaded, fail_loaded, fail_of, Deps, start_job, advance_job,
  fail_job,
}
use musicfy.Enums.{JobType, JobStage}
use musicfy.Work.Rows.{Job}
use musicfy.Work.Runtime.{Stage}
use musicfy.Work.Frame.{Framed, Framed-pure, Framed-raise, Framed-gets, Framed-bind}
use musicfy.Song.Frame.{Framed-start, Framed-advance, Framed-fail}
use musicfy.Cover.Frame.{Framed-start_cover, Framed-advance_cover, Framed-fail_cover}
use musicfy.Video.Frame.{Framed-start_video, Framed-advance_video, Framed-fail_video}
use musicfy.Voice.Frame.{Framed-start_voice, Framed-fail_voice}

module _ (deps : Deps) (id : ℕ) where
  Framed-start_of : (t : JobType) (j : Job) → Framed id (start_of deps t id j)
  Framed-start_of JobType.song j = Framed-start _ _ id j
  Framed-start_of JobType.cover j = Framed-start_cover _ _ _ id j
  Framed-start_of JobType.voice_clone j = Framed-start_voice _ _ _ _ id j
  Framed-start_of JobType.video j = Framed-start_video _ _ _ _ id j
  Framed-start_of JobType.lyrics j = Framed-raise id _

  pub Framed-start_job : (j : Job) → Framed id (start_job deps id j)
  unfolding start_job
  Framed-start_job j = Framed-start_of j.job_type j

  Framed-advance_loaded :
      (stage : JobStage) (r : Stage) (t : JobType) (j : Job)
      → Framed id (advance_of deps t id j stage r)
  Framed-advance_loaded stage r JobType.song j = Framed-advance _ _ _ _ id j stage r
  Framed-advance_loaded stage r JobType.cover j = Framed-advance_cover _ _ _ id j stage r
  Framed-advance_loaded stage r JobType.voice_clone j = Framed-pure id tt
  Framed-advance_loaded stage r JobType.video j = Framed-advance_video _ _ id j stage r
  Framed-advance_loaded stage r JobType.lyrics j = Framed-pure id tt

  Framed-advance_some :
      (stage : JobStage) (r : Stage) (o : Option Job) → Framed id (advance_loaded deps id stage r o)
  Framed-advance_some stage r none = Framed-pure id tt
  Framed-advance_some stage r (some j) = Framed-advance_loaded stage r j.job_type j

  pub Framed-advance_job : (stage : JobStage) (r : Stage) → Framed id (advance_job deps id stage r)
  unfolding advance_job
  Framed-advance_job stage r = Framed-bind id _ _ (Framed-gets id _) (Framed-advance_some stage r)

  Framed-fail_of :
      (stage : JobStage) (code message : String) (t : JobType) (j : Job)
      → Framed id (fail_of deps t id j stage code message)
  Framed-fail_of stage code message JobType.song j = Framed-fail _ _ _ _ id j stage code message
  Framed-fail_of stage code message JobType.cover j = Framed-fail_cover _ _ _ id stage code
  Framed-fail_of stage code message JobType.voice_clone j = Framed-fail_voice _ _ _ _ id code
  Framed-fail_of stage code message JobType.video j = Framed-fail_video _ _ id stage code
  Framed-fail_of stage code message JobType.lyrics j = Framed-pure id tt

  Framed-fail_some :
      (stage : JobStage) (code message : String) (o : Option Job)
      → Framed id (fail_loaded deps id stage code message o)
  Framed-fail_some stage code message none = Framed-pure id tt
  Framed-fail_some stage code message (some j) = Framed-fail_of stage code message j.job_type j

  pub Framed-fail_job :
      (stage : JobStage) (code message : String) → Framed id (fail_job deps id stage code message)
  unfolding fail_job
  Framed-fail_job stage code message =
      Framed-bind id _ _ (Framed-gets id _) (Framed-fail_some stage code message)
