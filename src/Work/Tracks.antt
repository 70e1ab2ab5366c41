-- ===== src/Work/Tracks.antt =====
-- The end of a job that makes a track: `_finalize` of the pipelines of songs and covers
-- (app/domain/services/pipelines/song.py, cover.py), which is the same code from its output on.
use musicfy.Prelude.{
  ℕ, String, Option, none, some, if◌then◌else◌, get_or, truthy, Result, Action, pure, gets, branch,
  ◌>>=◌, ◌>>◌,
}
use musicfy.Json.{Fields, Json}
use musicfy.Prelude.Int.{pos}
use musicfy.Enums.{JobStage, StageStatus, TrackKind}
use musicfy.Work.Rows.{Job, Work, Track}
use musicfy.Work.Repository.{get_job, mark_succeeded, record_stage, ensure_track}
use musicfy.Work.Base.{Settings, mark_failed, capture_credits}
use musicfy.Work.Runtime.{or_else, Output}

abbrev pub track_of : TrackKind → ℕ → Job → String → Json → Json → String → Track
track_of kind id j url duration stems title = record {
  user_id = j.user_id;
  job_id = id;
  kind = kind;
  title = title;
  audio_url = url;
  duration_seconds = or_else duration (Json.int (pos 0));
  stems = if j.store_stems then stems else Json.null;
}

-- The transaction of `_finalize`, and the stage after it. A job that is gone ends the method. A title that
-- raises does so before the transaction wrote anything.
unfoldable pub save_track :
    TrackKind
    → (Fields → Result String)
    → ℕ
    → Output
    → String
    → ℕ
    → Option Job
    → Action Work (Unit {0})
save_track kind titled id out url captured none = pure tt
save_track kind titled id out url captured (some j) = do
  ensure_track id (titled j.input_payload) (track_of kind id j url out.duration_seconds out.stems)
  mark_succeeded id captured
  record_stage id JobStage.finalize StageStatus.succeeded

module _ (settings : Settings) (probed : String → Output → Output)
    (titled : Fields → Result String) where
  -- `_finalize` from the output on; `probed` completes its duration, and `titled` gives the title.
  unfoldable pub finish : TrackKind → ℕ → Output → Action Work (Unit {0})
  finish kind id out =
      branch (truthy out.audio_url)
        (do
          captured ← capture_credits settings id
          record_stage id JobStage.finalize StageStatus.running
          job ← gets (get_job id)
          save_track kind titled id (probed (get_or "" out.audio_url) out) (get_or "" out.audio_url)
              captured job)
        (do
          record_stage id JobStage.finalize StageStatus.failed
          mark_failed settings id "PROVIDER_FAILED")
