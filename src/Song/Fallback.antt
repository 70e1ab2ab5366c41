-- ===== src/Song/Fallback.antt =====
-- The retry of a song on a second model (app/domain/services/pipelines/song.py, `_try_music_fallback`).
use musicfy.Prelude.{
  ℕ, String, ◌≡◌, refl, sym, subst, Bool, true, false, ◌||◌, some, arith, Result, ok, err, Action,
  pure, branch, runtime_error,
}
use musicfy.Work.Base.{crashed, Settings, Reply, done, failure, Submit, update_payload}
use musicfy.Enums.{JobStage, JobStatus}
use musicfy.Json.{Json, get, set, truth, of_text}
use musicfy.Platform.{Platform}
use musicfy.Provider.{Fal, Media}
use musicfy.Work.Rows.{Job, Work}
use musicfy.Work.Repository.{get_job, record_stage}
use musicfy.Work.Changes.{Changed, submitted, update_payload_lem, set_current_lem}
use musicfy.Json.Laws.{get-set, get-set_other}
use musicfy.Song.Text.{fallback_tags, compose_song_prompt, fallback_seconds}
use musicfy.Song.Events.{is_fallback_model, keep_fallback, try_music_fallback}

-- The job after its resubmission to a second model.
abbrev pub resubmitted : Platform → String → String → Submit → Job → Job
resubmitted platform message model submit j =
    submitted JobStage.music_generation submit (some model) (record j {
      input_payload =
          set "_music_fallback_prev_error" (Json.str (platform.prefix 200 message))
            (set "_music_fallback_used" (Json.bool true) j.input_payload);
    })

-- A job that is out on the second model: it runs, its payload says so, and no coin moved.
abbrev pub Retried : ℕ → Work → Work → Type 0
Retried id w w' =
    (j : Job) × Changed id j w w'
    × (j.status ≡ JobStatus.running)
    × (truth (get "_music_fallback_used" j.input_payload) ≡ true)

resubmitted-used :
    (platform : Platform) (message model : String) (submit : Submit) (j : Job)
    → truth (get "_music_fallback_used" (resubmitted platform message model submit j).input_payload)
      ≡ true
resubmitted-used platform message model submit j =
    let name : String = "_music_fallback_used" in
    let p = set name (Json.bool true) j.input_payload in
    let q = set "_music_fallback_prev_error" (Json.str (platform.prefix 200 message)) p in
    let r = set "_fal_status_url" (of_text submit.status_url) q in
    ground (
      arith,
      get-set name (Json.bool true) j.input_payload,
      get-set_other name "_music_fallback_prev_error" (Json.str (platform.prefix 200 message)) p
          refl,
      get-set_other name "_fal_status_url" (of_text submit.status_url) q refl,
      get-set_other name "_fal_response_url" (of_text submit.response_url) r refl,
    )

keep_fallback_lem :
    (platform : Platform) (fal : Fal) (media : Media) (settings : Settings) (id : ℕ)
    (message model : String) (submit : Submit) (j : Job) (w : Work)
    → get_job id w ≡ some j
    → ((keep_fallback platform fal media settings id message model (done submit) w).0 ≡ ok true)
      × Changed id
          (resubmitted platform message model submit j)
          w
          (keep_fallback platform fal media settings id message model (done submit) w).1
unfolding keep_fallback record_stage
keep_fallback_lem platform fal media settings id message model submit j w e =
    let v = Json.str (platform.prefix 200 message) in
    let a = update_payload_lem id "_music_fallback_used" (Json.bool true) j w e in
    let w1 = (update_payload id "_music_fallback_used" (Json.bool true) w).1 in
    let j1 = record j {
      input_payload = set "_music_fallback_used" (Json.bool true) j.input_payload;
    } in
    let b = update_payload_lem id "_music_fallback_prev_error" v j1 w1 a.1.2 in
    let w2 = (update_payload id "_music_fallback_prev_error" v w1).1 in
    let j2 = record j1 { input_payload = set "_music_fallback_prev_error" v j1.input_payload } in
    ground
      (arith, a, b, set_current_lem id JobStage.music_generation submit (some model) j2 w2 b.1.2)

-- Either answer of `_try_music_fallback`, or an error of the client that it raises.
abbrev pub Tries : ℕ → Work → Result Bool × Work → Type 0
Tries id w (ok true, w') = Retried id w w'
Tries id w (ok false, w') = w' ≡ w
Tries id w (err x, w') = (w' ≡ w) × (e : String) × (x ≡ runtime_error e)

keep_fallback-Tries :
    (platform : Platform) (fal : Fal) (media : Media) (settings : Settings) (id : ℕ)
    (message model : String) (r : Reply Submit) (j : Job) (w : Work)
    → get_job id w ≡ some j
    → Tries id w (keep_fallback platform fal media settings id message model r w)
unfolding keep_fallback
keep_fallback-Tries platform fal media settings id message model (done submit) j w e =
    let (r, c) = keep_fallback_lem platform fal media settings id message model submit j w e in
    subst
      (λ r.
        Tries id w
          (r, (keep_fallback platform fal media settings id message model (done submit) w).1))
      (sym r)
      (
        resubmitted platform message model submit j,
        c,
        refl,
        resubmitted-used platform message model submit j,
      )
keep_fallback-Tries platform fal media settings id message model (failure _ _) j w e = refl
keep_fallback-Tries platform fal media settings id message model (crashed x) j w e = (refl, x, refl)

branch-Tries :
    (id : ℕ) (t : Bool) (m k : Action Work Bool) (w : Work)
    → Tries id w (m w)
    → Tries id w (k w)
    → Tries id w (branch t m k w)
branch-Tries id true m k w p q = p
branch-Tries id false m k w p q = q

pub try_music_fallback-Tries :
    (platform : Platform) (fal : Fal) (media : Media) (settings : Settings) (id : ℕ)
    (message : String) (j : Job) (w : Work)
    → get_job id w ≡ some j
    → Tries id w (try_music_fallback platform fal media settings id j message w)
unfolding try_music_fallback
try_music_fallback-Tries platform fal media settings id message j w e =
    let p = j.input_payload in
    let vocal =
      keep_fallback platform fal media settings id message "fal-ai/ace-step"
        (fal.submit_ace_step_vocal id (fallback_tags platform p) (get "_lyrics" p)) in
    let music =
      keep_fallback platform fal media settings id message "fal-ai/stable-audio"
        (fal.submit_stable_audio id (compose_song_prompt platform p) (fallback_seconds p)) in
    branch-Tries id
      (truth (get "_music_fallback_used" p)
        || is_fallback_model platform fal media settings j.provider_model)
      (pure false) (branch (truth (get "_lyrics" p)) vocal music) w refl
      (branch-Tries id (truth (get "_lyrics" p)) vocal music w
        (keep_fallback-Tries platform fal media settings id message _ _ j w e)
        (keep_fallback-Tries platform fal media settings id message _ _ j w e))
