-- ===== src/Song/Advances.antt =====
-- How `SongPipeline.advance` ends (app/domain/services/pipelines/song.py).
use musicfy.Prelude.{
  ℕ, String, ◌≡◌, refl, sym, ◌∙◌, subst, ◌⊎◌, inl, inr, Bool, true, false, ◌&&◌, none, some, truthy,
  Result, ok, err, Action, pure, gets, branch, ◌>>=◌, ◌>>◌, runtime_error,
}
use musicfy.Work.Base.{
  crashed, Settings, Reply, done, failure, Submit, update_payload, get_runtime, persist_runtime,
}
use musicfy.Json.{Json, Fields, get, set, truth}
use musicfy.Enums.{JobStage, JobStatus, StageStatus}
use musicfy.Platform.{Platform}
use musicfy.Provider.{Fal, Media}
use musicfy.Work.Rows.{Job, Work}
use musicfy.Work.Repository.{get_job, record_stage, same_stage}
use musicfy.Work.Runtime.{stage_name, Stage, stage_fields, is_current}
use musicfy.Work.Changes.{Changed, update_payload_lem, set_current_lem, with_urls}
use musicfy.Work.Settle.{Settles, Settles-cong}
use musicfy.Song.Finish.{finalize}
use musicfy.Song.Settle.{output, finalize-Settles}
use musicfy.Song.Events.{without_vocal, keep_speech, speak, submit_vocal_tts, advance}

-- The song waits for its voice, or its job has ended, or the client raised an error; the payload alone of the
-- rest of the row changes.
abbrev pub Ends : Settings → ℕ → Job → Work → Result (Unit {0}) × Work → Type 0
Ends settings id j w (r, w') =
    ((r ≡ ok tt)
      × (p : Fields) × (request_id : String) × Changed id
          (record j {
            status = JobStatus.running;
            current_stage = some JobStage.vocal_tts;
            provider_request_id = some request_id;
            input_payload = p;
          })
          w w')
    ⊎ (((p : Fields) × (t : Bool) × Settles settings id (record j { input_payload = p }) w t
            (r, w'))
        ⊎ ((e : String) × (r ≡ err (runtime_error e))
            × (p : Fields) × Changed id (record j { input_payload = p }) w w'))

Ends-cong :
    (settings : Settings) (id : ℕ) (j : Job) (w w' : Work) (r : Result (Unit {0}) × Work)
    → w'.bank ≡ w.bank
    → w'.tracks ≡ w.tracks
    → Ends settings id j w' r
    → Ends settings id j w r
Ends-cong settings id j w w' r e f (inl (o, p, q, (a, b, c))) = inl (o, p, q, (a ∙ e, b ∙ f, c))
Ends-cong settings id j w w' r e f (inr (inl (p, t, s))) =
    inr (inl (p, t, Settles-cong settings id (record j { input_payload = p }) w w' t r e f s))
Ends-cong settings id j w w' r e f (inr (inr (x, o, p, c))) =
    inr (inr (x, o, p, (c.0 ∙ e, c.1 ∙ f, c.2)))

branch-Ends :
    (settings : Settings) (id : ℕ) (j : Job) (w : Work) (t : Bool) (m k : Action Work (Unit {0}))
    → Ends settings id j w (m w)
    → Ends settings id j w (k w)
    → Ends settings id j w (branch t m k w)
branch-Ends settings id j w true m k p q = p
branch-Ends settings id j w false m k p q = q

-- What `advance` does, by whether the result is of the stage that the job is at.
abbrev pub Advances : Settings → ℕ → Job → Work → Bool → Result (Unit {0}) × Work → Type 0
Advances settings id j w true r = Ends settings id j w r
Advances settings id j w false r = r ≡ (ok tt, w)

branch-Advances :
    (settings : Settings) (id : ℕ) (j : Job) (w : Work) (t : Bool) (m : Action Work (Unit {0}))
    → Ends settings id j w (m w)
    → Advances settings id j w t (branch t m (pure tt) w)
branch-Advances settings id j w true m h = h
branch-Advances settings id j w false m h = refl

-- A write of the payload before a step.
update_payload-Ends :
    (settings : Settings) (id : ℕ) (name : String) (v : Json) (k : Action Work (Unit {0})) (j : Job)
    (w : Work)
    → get_job id w ≡ some j
    → Ends settings id j (update_payload id name v w).1 (k (update_payload id name v w).1)
    → Ends settings id j w ((update_payload id name v >> k) w)
update_payload-Ends settings id name v k j w e h =
    let u = update_payload_lem id name v j w e in
    let w1 = (update_payload id name v w).1 in
    subst (λ r. Ends settings id j w (((λ _. (r, w1)) >>= λ _. k) w)) (sym u.0)
      (Ends-cong settings id j w w1 (k w1) u.1.0 u.1.1 h)

module _ (platform : Platform) (fal : Fal) (media : Media) (settings : Settings) where
  finalize-Ends :
      (id : ℕ) (runtime : Fields) (j : Job) (w : Work)
      → get_job id w ≡ some j
      → Ends settings id j w (finalize media settings id runtime w)
  finalize-Ends id runtime j w e =
      let t = truthy (output media runtime).audio_url in
      inr (inl (j.input_payload, t, finalize-Settles media settings id runtime j w e))

  without_vocal-Ends :
      (id : ℕ) (j : Job) (w : Work)
      → get_job id w ≡ some j
      → Ends settings id j w (without_vocal platform fal media settings id w)
  unfolding without_vocal record_stage
  without_vocal-Ends id j w e =
      let w1 = (record_stage id JobStage.vocal_tts StageStatus.failed w).1 in
      finalize-Ends id (get_runtime id w1) j w1 e

  keep_speech-Ends :
      (id : ℕ) (r : Reply Submit) (j : Job) (w : Work)
      → get_job id w ≡ some j
      → Ends settings id j w (keep_speech platform fal media settings id r w)
  unfolding keep_speech
  keep_speech-Ends id (failure _ _) j w e = without_vocal-Ends id j w e
  keep_speech-Ends id (crashed x) j w e = inr (inr (x, refl, j.input_payload, (refl, refl, e)))
  keep_speech-Ends id (done submit) j w e =
      let c = set_current_lem id JobStage.vocal_tts submit none j w e in
      inl (c.0, with_urls submit j.input_payload, submit.request_id, c.1)

  speak-Ends :
      (id : ℕ) (lyrics : Json) (r : Reply String) (j : Job) (w : Work)
      → get_job id w ≡ some j
      → Ends settings id j w (speak platform fal media settings id lyrics r w)
  unfolding speak
  speak-Ends id lyrics (failure _ _) j w e = without_vocal-Ends id j w e
  speak-Ends id lyrics (crashed x) j w e = inr (inr (x, refl, j.input_payload, (refl, refl, e)))
  speak-Ends id lyrics (done cloned) j w e =
      let v = Json.str cloned in
      let u = update_payload_lem id "_cloned_voice_id" v j w e in
      let reply = fal.submit_speech id lyrics cloned in
      update_payload-Ends settings id "_cloned_voice_id" v
        (keep_speech platform fal media settings id reply) j w e
        (keep_speech-Ends id reply
          (record j { input_payload = set "_cloned_voice_id" v j.input_payload })
          (update_payload id "_cloned_voice_id" v w).1 u.1.2)

  submit_vocal_tts-Ends :
      (id : ℕ) (k : Job) (lyrics : Json) (j : Job) (w : Work)
      → get_job id w ≡ some j
      → Ends settings id j w (submit_vocal_tts platform fal media settings id k lyrics w)
  unfolding submit_vocal_tts record_stage
  submit_vocal_tts-Ends id k lyrics j w e =
      let cloned = get "_cloned_voice_id" k.input_payload in
      let w1 = (record_stage id JobStage.vocal_tts StageStatus.running w).1 in
      let known = fal.submit_speech id lyrics (platform.show cloned) in
      let voice = fal.voice_clone (get "voice_url" k.input_payload) in
      branch-Ends settings id j w1 (truth cloned) (keep_speech platform fal media settings id known)
        (speak platform fal media settings id lyrics voice) (keep_speech-Ends id known j w1 e)
        (speak-Ends id lyrics voice j w1 e)

  -- A result of another stage than the job's current one changes nothing. After one of the current stage
  -- `advance` returns, and the song waits for its voice, with no coin moved and no track made, or its job
  -- has ended and is settled; or it raises an error of the client that is not the provider's, with no coin
  -- moved, no track made, and nothing but the payload of the job's row changed.
  pub advance-Advances :
      (id : ℕ) (stage : JobStage) (result : Stage) (j : Job) (w : Work)
      → get_job id w ≡ some j
      → Advances settings id j w
          (is_current stage j.current_stage)
          (advance platform fal media settings id j stage result w)
  unfolding advance record_stage persist_runtime
  advance-Advances id stage result j w e =
      let w1 = (record_stage id stage StageStatus.succeeded w).1 in
      let runtime = set (stage_name stage) (Json.obj (stage_fields result)) (get_runtime id w1) in
      let u = update_payload_lem id "_runtime" (Json.obj runtime) j w1 e in
      let w2 = (update_payload id "_runtime" (Json.obj runtime) w1).1 in
      let j2 = record j { input_payload = set "_runtime" (Json.obj runtime) j.input_payload } in
      let lyrics = get "_lyrics" j.input_payload in
      let with_voice =
        same_stage stage JobStage.music_generation
        && truth (get "voice_url" j.input_payload)
        && truth lyrics in
      let next =
        branch with_voice (submit_vocal_tts platform fal media settings id j lyrics)
          (finalize media settings id runtime) in
      let done_with = (do
        record_stage id stage StageStatus.succeeded
        before ← gets (get_runtime id)
        persist_runtime id (set (stage_name stage) (Json.obj (stage_fields result)) before)
        branch with_voice (submit_vocal_tts platform fal media settings id j lyrics) (
            finalize media settings id
              (set (stage_name stage) (Json.obj (stage_fields result)) before))) in
      branch-Advances settings id j w (is_current stage j.current_stage) done_with (
        update_payload-Ends settings id "_runtime" (Json.obj runtime) next j w1 e (
          branch-Ends settings id j w2 with_voice
            (submit_vocal_tts platform fal media settings id j lyrics)
            (finalize media settings id runtime) (submit_vocal_tts-Ends id j lyrics j2 w2 u.1.2)
            (finalize-Ends id runtime j2 w2 u.1.2)))
