-- ===== src/Work/Frame.antt =====
-- What no step of a pipeline touches (app/domain/services/pipelines): the log of webhooks, and the rows of other
-- jobs. One rule for each way to build an action.
use musicfy.Prelude.{
  ℕ, String, ◌≡◌, refl, ◌∙◌, Bool, true, false, Option, none, some, List, [], ◌∷◌, ◌==◌, Error,
  Result, ok, err, Action, pure, raise, gets, catch, branch, ◌>>=◌, ◌>>◌, Table, lookup,
  lookup-insert,
}
use musicfy.Work.Tracks.{save_track, finish}
use musicfy.Enums.{TrackKind, JobStatus, JobStage, StageStatus}
use musicfy.Work.Runtime.{Output}
use musicfy.Work.Repository.{
  is_recorded, track_unless, has_track, create_asset, set_current_stage, mark_succeeded,
  ensure_track, set_status, set_failed, change_job, on_bank, get_job, change_row, record_stage,
}
use musicfy.Work.Base.{
  Settings, Submit, capture_credits, persist_runtime, mark_failed, set_current, capture_job,
  release_job, skip_missing, update_payload,
}
use musicfy.Work.Rows.{StageEvent, VideoAsset, Track, Job, Work}
use musicfy.Json.{Json, Fields}
use musicfy.Bank.{Bank}

-- The log and the rows of other jobs are as they were.
pub record Apart (id : ℕ) (w w' : Work) : Type 0 where
  pub log : w'.webhooks ≡ w.webhooks
  pub others : (k : ℕ) → (k == id) ≡ false → get_job k w' ≡ get_job k w

pub Apart-refl : (id : ℕ) (w : Work) → Apart id w w
Apart-refl id w = record { log = refl; others = λ k h. refl }

pub Apart-trans : {id : ℕ} {u v w : Work} → Apart id u v → Apart id v w → Apart id u w
Apart-trans p q = record { log = q.log ∙ p.log; others = λ k h. q.others k h ∙ p.others k h }

pub record Framed {A : Type 0} (id : ℕ) (m : Action Work A) : Type 0 where
  pub at : (w : Work) → Apart id w (m w).1

module _ {A : Type 0} (id : ℕ) where
  pub Framed-pure : (a : A) → Framed id (pure a)
  Framed-pure a = record { at = λ w. record { log = refl; others = λ k h. refl } }

  pub Framed-raise : (e : Error) → Framed id (raise {A = A} e)
  Framed-raise e = record { at = λ w. record { log = refl; others = λ k h. refl } }

  pub Framed-gets : (f : Work → A) → Framed id (gets f)
  Framed-gets f = record { at = λ w. record { log = refl; others = λ k h. refl } }

  pub Framed-branch :
      (b : Bool) (m k : Action Work A) → Framed id m → Framed id k → Framed id (branch b m k)
  Framed-branch true m k p q = record { at = λ w. p.at w }
  Framed-branch false m k p q = record { at = λ w. q.at w }

  pub Framed-bank : (m : Action Bank A) → Framed id (on_bank m)
  Framed-bank m = record { at = λ w. record { log = refl; others = λ k h. refl } }

  -- What an action leads to, by its result.
  caught :
      (r : Result A) (handler : Error → Action Work A) (w0 w : Work)
      → Apart id w0 w
      → ((e : Error) → Framed id (handler e))
      → Apart id w0 (catch (λ _. (r, w)) handler w0).1
  caught (ok a) handler w0 w p h = p
  caught (err e) handler w0 w p h = Apart-trans p ((h e).at w)

  pub Framed-catch :
      (m : Action Work A) (handler : Error → Action Work A)
      → Framed id m
      → ((e : Error) → Framed id (handler e))
      → Framed id (catch m handler)
  Framed-catch m handler p h = record { at = λ w. caught (m w).0 handler w (m w).1 (p.at w) h }

module _ {A B : Type 0} (id : ℕ) where
  bound :
      (r : Result A) (f : A → Action Work B) (w0 w : Work)
      → Apart id w0 w
      → ((a : A) → Framed id (f a))
      → Apart id w0 (((λ _. (r, w)) >>= f) w0).1
  bound (ok a) f w0 w p h = Apart-trans p ((h a).at w)
  bound (err e) f w0 w p h = p

  pub Framed-bind :
      (m : Action Work A) (f : A → Action Work B)
      → Framed id m
      → ((a : A) → Framed id (f a))
      → Framed id (m >>= f)
  Framed-bind m f p h = record { at = λ w. bound (m w).0 f w (m w).1 (p.at w) h }

  pub Framed-then :
      (m : Action Work A) (k : Action Work B) → Framed id m → Framed id k → Framed id (m >> k)
  Framed-then m k p h = record { at = λ w. bound (m w).0 (λ _. k) w (m w).1 (p.at w) (λ _. h) }

change_row-apart :
    (k id : ℕ) (f : Job → Job) (o : Option Job) (t : Table Job)
    → (k == id) ≡ false
    → lookup k (change_row id f o t) ≡ lookup k t
change_row-apart k id f none t h = refl
change_row-apart k id f (some j) t h = rw (lookup-insert k id (f j) t, h)

module _ (id : ℕ) where
  pub Framed-change_job : (f : Job → Job) → Framed id (change_job id f)
  Framed-change_job f = record {
    at =
        λ w. record { log = refl; others = λ k h. change_row-apart k id f (get_job id w) w.jobs h };
  }

  pub Framed-record_stage :
      (stage : JobStage) (status : StageStatus) → Framed id (record_stage id stage status)
  unfolding record_stage
  Framed-record_stage stage status = record {
    at = λ w. record { log = refl; others = λ k h. refl };
  }

pub ruleset frame_rules = (
  Framed-pure, Framed-raise, Framed-gets, Framed-branch, Framed-bank, Framed-catch, Framed-bind,
  Framed-then, Framed-change_job, Framed-record_stage,
)

module _ (id : ℕ) where
  pub Framed-set_status : (status : JobStatus) → Framed id (set_status id status)
  unfolding set_status
  Framed-set_status status = search frame_rules

  pub Framed-mark_succeeded : (captured : ℕ) → Framed id (mark_succeeded id captured)
  unfolding mark_succeeded
  Framed-mark_succeeded captured = search frame_rules

  pub Framed-set_failed : (code : String) → Framed id (set_failed id code)
  unfolding set_failed
  Framed-set_failed code = search frame_rules

  pub Framed-update_payload : (name : String) (v : Json) → Framed id (update_payload id name v)
  unfolding update_payload
  Framed-update_payload name v = search frame_rules

  Framed-set_current_stage :
      (stage : JobStage) (request : String) (model : Option String)
      → Framed id (set_current_stage id stage request model)
  unfolding set_current_stage
  Framed-set_current_stage stage request model = search frame_rules

  pub Framed-set_current :
      (stage : JobStage) (submit : Submit) (model : Option String)
      → Framed id (set_current id stage submit model)
  unfolding set_current
  Framed-set_current stage submit model =
      search (frame_rules, Framed-set_current_stage, Framed-update_payload)

  pub Framed-persist_runtime : (runtime : Fields) → Framed id (persist_runtime id runtime)
  unfolding persist_runtime
  Framed-persist_runtime runtime = search (Framed-update_payload)

  release_job-Framed : (o : Option Job) → Framed id (release_job id o)
  release_job-Framed none = search frame_rules
  release_job-Framed (some j) = search frame_rules

  pub Framed-mark_failed :
      (settings : Settings) (code : String) → Framed id (mark_failed settings id code)
  unfolding mark_failed
  Framed-mark_failed settings code = search (frame_rules, Framed-set_failed, release_job-Framed)

  capture_job-Framed : (o : Option Job) → Framed id (capture_job id o)
  capture_job-Framed none = search frame_rules
  capture_job-Framed (some j) = search frame_rules

  pub Framed-capture_credits : (settings : Settings) → Framed id (capture_credits settings id)
  unfolding capture_credits
  Framed-capture_credits settings = search (frame_rules, capture_job-Framed)

  pub Framed-skip_missing :
      (sts : List JobStage) (existing : List StageEvent) → Framed id (skip_missing id sts existing)
  unfolding skip_missing
  Framed-skip_missing [] existing = search frame_rules
  Framed-skip_missing (st ∷ sts) existing =
      Framed-then id _ _
        (Framed-branch id (is_recorded id st existing) _ _ (Framed-pure id tt)
          (Framed-record_stage id st StageStatus.skipped))
        (Framed-skip_missing sts existing)

  pub Framed-create_asset : (a : VideoAsset) → Framed id (create_asset a)
  unfolding create_asset
  Framed-create_asset a = record { at = λ w. record { log = refl; others = λ k h. refl } }

  track_unless-Framed :
      (b : Bool) (title : Result String) (make : String → Track)
      → Framed id (track_unless b title make)
  track_unless-Framed true title make = record {
    at = λ w. record { log = refl; others = λ k h. refl };
  }
  track_unless-Framed false (ok t) make = record {
    at = λ w. record { log = refl; others = λ k h. refl };
  }
  track_unless-Framed false (err e) make = record {
    at = λ w. record { log = refl; others = λ k h. refl };
  }

  pub Framed-ensure_track :
      (k : ℕ) (title : Result String) (make : String → Track)
      → Framed id (ensure_track k title make)
  unfolding ensure_track
  Framed-ensure_track k title make = record {
    at = λ w. (track_unless-Framed (has_track k w.tracks) title make).at w;
  }

pub ruleset step_rules = (
  frame_rules, Framed-set_status, Framed-mark_succeeded, Framed-update_payload, Framed-set_current,
  Framed-persist_runtime, Framed-mark_failed, Framed-capture_credits, Framed-skip_missing,
  Framed-create_asset, Framed-ensure_track,
)

module _ (settings : Settings) (probed : String → Output → Output) (titled : Fields → Result String)
    (kind : TrackKind) (id : ℕ) where
  Framed-save_track :
      (out : Output) (url : String) (captured : ℕ) (j : Option Job)
      → Framed id (save_track kind titled id out url captured j)
  unfolding save_track
  Framed-save_track out url captured none = search step_rules
  Framed-save_track out url captured (some j) = search step_rules

  pub Framed-finish : (out : Output) → Framed id (finish settings probed titled kind id out)
  unfolding finish
  Framed-finish out = search (step_rules, Framed-save_track)
