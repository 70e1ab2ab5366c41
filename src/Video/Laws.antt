-- ===== src/Video/Laws.antt =====
-- What `VideoPipeline._finalize` leaves behind (app/domain/services/pipelines/video.py).
use musicfy.Prelude.{ℕ, String, ◌≡◌, ap, ◌∙◌, some, ◌∷◌, arith, Result, ok, lookup-insert}
use musicfy.Json.{Json}
use musicfy.Enums.{JobStage, JobStatus, StageStatus}
use musicfy.Provider.{Media}
use musicfy.Work.Rows.{Job, Work, VideoAsset}
use musicfy.Work.Repository.{get_job, set_status, record_stage, mark_succeeded, create_asset}
use musicfy.Work.Base.{Settings}
use musicfy.Work.Coins.{
  captured_bank, captured_bank_again, captured_coins, capture_credits_lem, set_status_lem,
}
use musicfy.Video.Finish.{save_video, finalize_video}

abbrev pub completed_job : Settings → Job → Job
completed_job settings j = record j {
  status = JobStatus.completed;
  captured_credits = captured_coins settings j;
}

abbrev pub asset_of : ℕ → Job → String → Json → VideoAsset
asset_of id j url duration = record {
  user_id = j.user_id;
  job_id = id;
  url = url;
  duration_seconds = duration;
}

-- How the end of a video goes.
abbrev pub Finishes : Settings → ℕ → String → Json → Job → Work → Result (Unit {0}) × Work → Type 0
Finishes settings id url duration j w (r, w') =
    (r ≡ ok tt)
    × (get_job id w' ≡ some (completed_job settings j))
    × (w'.bank ≡ captured_bank settings id j w.bank)
    × (w'.assets ≡ asset_of id j url duration ∷ w.assets)

-- The end of a video always returns: the job is completed with its reserved coins captured, and one asset of
-- its user is made, with the url and the duration of the clip.
pub finalize_video-Finishes :
    (media : Media) (settings : Settings) (id : ℕ) (url : String) (duration : Json) (j : Job)
    (w : Work)
    → get_job id w ≡ some j
    → Finishes settings id url duration j w (finalize_video media settings id url duration w)
unfolding finalize_video save_video record_stage set_status create_asset mark_succeeded
finalize_video-Finishes media settings id url duration j w e =
    let w1 = (set_status id JobStatus.post_processing w).1 in
    let w2 = (record_stage id JobStage.upload_cdn StageStatus.succeeded w1).1 in
    let j1 = record j { status = JobStatus.post_processing } in
    let e1 : get_job id w2 ≡ some j1 = set_status_lem id JobStatus.post_processing j w e in
    grind (arith, lookup-insert, e1, capture_credits_lem settings id j1 w2 e1)

-- A video that is finished twice, by a webhook and by the poller, is paid once and kept twice: nothing looks
-- for an asset of the job before another is made.
pub finalize_video_twice :
    (media : Media) (settings : Settings) (id : ℕ) (url url' : String) (duration duration' : Json)
    (j : Job) (w : Work)
    → get_job id w ≡ some j
    → let w1 = (finalize_video media settings id url duration w).1 in
      let w2 = (finalize_video media settings id url' duration' w1).1 in
      (get_job id w2 ≡ some (completed_job settings j))
      × (w2.bank ≡ captured_bank settings id j w.bank)
      × (w2.assets ≡ asset_of id j url' duration' ∷ (asset_of id j url duration ∷ w.assets))
finalize_video_twice media settings id url url' duration duration' j w e =
    let w1 = (finalize_video media settings id url duration w).1 in
    let j1 = completed_job settings j in
    let a = finalize_video-Finishes media settings id url duration j w e in
    let b = finalize_video-Finishes media settings id url' duration' j1 w1 a.1 in
    (
      b.1,
      b.2 ∙ ap (captured_bank settings id j1) a.2 ∙ captured_bank_again settings id j w.bank,
      b.3 ∙ ap (λ l. asset_of id j url' duration' ∷ l) a.3,
    )
