-- ===== src/Song/Starts.antt =====
-- How `SongPipeline.start` ends (app/domain/services/pipelines/song.py).
use musicfy.Prelude.{
  ℕ, String, ◌≡◌, refl, sym, ◌∙◌, subst, ◌⊎◌, inl, inr, Bool, true, false, ◌||◌, none, some, arith,
  str_eq, Error, Result, ok, err, Action, pure, branch, ◌>>=◌, ◌>>◌, runtime_error, fal_error,
}
use musicfy.Work.Base.{crashed, Reply, done, failure, Submit, update_payload, set_current}
use musicfy.Work.Runtime.{or_else}
use musicfy.Work.Changes.{with_urls, Changed, update_payload_lem, set_current_lem}
use musicfy.Song.Text.{compose_song_prompt}
use musicfy.Json.{Json, Fields, get, set, truth}
use musicfy.Enums.{JobStage, JobStatus, StageStatus}
use musicfy.Platform.{Platform}
use musicfy.Provider.{Fal}
use musicfy.Work.Rows.{Job, Work}
use musicfy.Work.Repository.{get_job, record_stage, set_status}
use musicfy.Work.Coins.{set_status_lem}
use musicfy.Song.Start.{
  language_of, keep_lyrics, keep_title, keep_music, resolve_lyrics, resolve_title, submit_music,
  start,
}

-- A value, or an error of the client that the pipelines do not catch.
abbrev IsAnswer : {A : Type 0} → Result A → Type 0
IsAnswer (ok _) = Unit
IsAnswer (err x) = (e : String) × (x ≡ runtime_error e)

-- Of the job's row only the payload is written, and no coin or track is touched.
abbrev pub Noted : {A : Type 0} → ℕ → Job → Work → Result A × Work → Type 0
Noted id j w (r, w') = IsAnswer r × (p : Fields) × Changed id (record j { input_payload = p }) w w'

ok-IsAnswer : {A : Type 0} (a : A) (r : Result A) → r ≡ ok a → IsAnswer r
ok-IsAnswer a r e = subst IsAnswer (sym e) tt

branch-Noted :
    {A : Type 0} (id : ℕ) (j : Job) (t : Bool) (m k : Action Work A) (w : Work)
    → Noted id j w (m w)
    → Noted id j w (k w)
    → Noted id j w (branch t m k w)
branch-Noted id j true m k w p q = p
branch-Noted id j false m k w p q = q

keep_lyrics-Noted :
    (platform : Platform) (id : ℕ) (r : Reply String) (j : Job) (w : Work)
    → get_job id w ≡ some j
    → Noted id j w (keep_lyrics platform id r w)
unfolding keep_lyrics record_stage
keep_lyrics-Noted platform id (failure code message) j w e = (tt, j.input_payload, (refl, refl, e))
keep_lyrics-Noted platform id (crashed x) j w e = ((x, refl), j.input_payload, (refl, refl, e))
keep_lyrics-Noted platform id (done lyrics) j w e =
    let u = update_payload_lem id "_lyrics" (Json.str lyrics) j w e in
    branch-Noted id j (str_eq (platform.prefix 2 lyrics) lyrics)
      (do record_stage id JobStage.lyrics StageStatus.skipped; pure Json.null)
      (do
        update_payload id "_lyrics" (Json.str lyrics)
        record_stage id JobStage.lyrics StageStatus.succeeded
        pure (Json.str lyrics))
      w (tt, j.input_payload, (refl, refl, e))
      (
        ok-IsAnswer (Json.str lyrics) _ (ground (arith, u)),
        set "_lyrics" (Json.str lyrics) j.input_payload,
        ground (arith, u),
      )

keep_title-Noted :
    (platform : Platform) (id : ℕ) (r : Reply String) (j : Job) (w : Work)
    → get_job id w ≡ some j
    → Noted id j w (keep_title platform id r w)
unfolding keep_title
keep_title-Noted platform id (failure code message) j w e = (tt, j.input_payload, (refl, refl, e))
keep_title-Noted platform id (crashed x) j w e = ((x, refl), j.input_payload, (refl, refl, e))
keep_title-Noted platform id (done title) j w e =
    let v = Json.str (platform.prefix 80 (platform.strip title)) in
    let u = update_payload_lem id "_generated_title" v j w e in
    branch-Noted id j (str_eq (platform.strip title) "") (pure tt)
      (update_payload id "_generated_title" v) w (tt, j.input_payload, (refl, refl, e))
      (ok-IsAnswer tt _ u.0, set "_generated_title" v j.input_payload, u.1)

module _ (platform : Platform) (fal : Fal) where
  resolve_lyrics-Noted :
      (id : ℕ) (k j : Job) (w : Work)
      → get_job id w ≡ some j
      → Noted id j w (resolve_lyrics platform fal id k w)
  unfolding resolve_lyrics record_stage
  resolve_lyrics-Noted id k j w e =
      let p = k.input_payload in
      let custom = get "custom_lyrics" p in
      let w1 = (record_stage id JobStage.lyrics StageStatus.skipped w).1 in
      let u = update_payload_lem id "_lyrics" custom j w1 e in
      let reply =
        fal.generate_lyrics (get "lyrics_prompt" p) (language_of platform fal p) (get "genre" p)
          (get "mood" p) in
      let none_given = (do record_stage id JobStage.lyrics StageStatus.skipped; pure Json.null) in
      let asked =
        record_stage id JobStage.lyrics StageStatus.running >> keep_lyrics platform id reply in
      branch-Noted id j (truth custom)
        (do
          record_stage id JobStage.lyrics StageStatus.skipped
          update_payload id "_lyrics" custom
          pure custom)
        (branch (truth (get "lyrics_prompt" p)) asked none_given) w
        (
          ok-IsAnswer custom _ (ground (arith, u)),
          set "_lyrics" custom j.input_payload,
          ground (arith, u),
        )
        (branch-Noted id j (truth (get "lyrics_prompt" p)) asked none_given w
          (keep_lyrics-Noted platform id reply j
            (record_stage id JobStage.lyrics StageStatus.running w).1 e)
          (tt, j.input_payload, (refl, refl, e)))

  resolve_title-Noted :
      (id : ℕ) (k : Job) (lyrics : Json) (j : Job) (w : Work)
      → get_job id w ≡ some j
      → Noted id j w (resolve_title platform fal id k lyrics w)
  unfolding resolve_title
  resolve_title-Noted id k lyrics j w e =
      let p = k.input_payload in
      let reply =
        fal.generate_track_title (or_else (get "prompt" p) (get "lyrics_prompt" p))
          (or_else lyrics (get "custom_lyrics" p)) (language_of platform fal p) in
      branch-Noted id j (truth (get "title" p) || truth (get "_generated_title" p)) (pure tt)
        (keep_title platform id reply) w (tt, j.input_payload, (refl, refl, e))
        (keep_title-Noted platform id reply j w e)

-- The provider's error, or another of the client.
abbrev pub IsRaised : Error → Type 0
IsRaised x =
    ((code : String) × (message : String) × (x ≡ fal_error code message))
    ⊎ ((e : String) × (x ≡ runtime_error e))

-- How the start of a song ends: handed to the provider, or with an error.
abbrev pub Starts : ℕ → Job → Work → Result (Unit {0}) × Work → Type 0
Starts id j w (ok _, w') =
    (p : Fields) × (request_id : String) × Changed id
      (record j {
        status = JobStatus.running;
        current_stage = some JobStage.music_generation;
        provider_request_id = some request_id;
        input_payload = p;
      })
      w w'
Starts id j w (err e, w') =
    IsRaised e
    × (p : Fields) × Changed id (record j { status = JobStatus.running; input_payload = p }) w w'

Starts-cong :
    (id : ℕ) (j : Job) (w w' : Work) (r : Result (Unit {0}) × Work)
    → w'.bank ≡ w.bank
    → w'.tracks ≡ w.tracks
    → Starts id j w' r
    → Starts id j w r
Starts-cong id j w w' (ok _, v) e f (p, q, (a, b, c)) = (p, q, (a ∙ e, b ∙ f, c))
Starts-cong id j w w' (err x, v) e f (s, p, (a, b, c)) = (s, p, (a ∙ e, b ∙ f, c))

keep_music-Starts :
    (id : ℕ) (r : Reply Submit) (j : Job) (w : Work)
    → get_job id w ≡ some (record j { status = JobStatus.running })
    → Starts id j w (keep_music id r w)
unfolding keep_music record_stage
keep_music-Starts id (failure code message) j w e =
    (inl (code, message, refl), j.input_payload, (refl, refl, e))
keep_music-Starts id (crashed x) j w e = (inr (x, refl), j.input_payload, (refl, refl, e))
keep_music-Starts id (done submit) j w e =
    let c =
      set_current_lem id JobStage.music_generation submit none
        (record j { status = JobStatus.running }) w e in
    subst (λ x. Starts id j w (x, (set_current id JobStage.music_generation submit none w).1))
      (sym c.0) (with_urls submit j.input_payload, submit.request_id, c.1)

bind-Noted :
    {A : Type 0} (id : ℕ) (k : Job) (q : Fields) (w : Work) (f : A → Action Work (Unit {0}))
    (r : Result A) (w' : Work)
    → Noted id (record k { status = JobStatus.running; input_payload = q }) w (r, w')
    → ((a : A) (p : Fields)
        → get_job id w' ≡ some (record k { status = JobStatus.running; input_payload = p })
        → Starts id k w' (f a w'))
    → Starts id k w (((λ _. (r, w')) >>= f) w)
bind-Noted id k q w f (ok a) w' (o, p, (b, t, c)) next =
    Starts-cong id k w w' (f a w') b t (next a p c)
bind-Noted id k q w f (err x) w' (o, p, c) next = (inr o, p, c)

-- The start of a song ends in one of two ways, with no coin moved and no track made: the job runs, with the
-- music as its stage and the id of the provider's request, or an error is raised, the provider's or another of
-- the client, and the job is left running. Of the rest of its row only the payload changes.
pub start-Starts :
    (platform : Platform) (fal : Fal) (id : ℕ) (j : Job) (w : Work)
    → get_job id w ≡ some j
    → Starts id j w (start platform fal id j w)
unfolding start set_status record_stage submit_music
start-Starts platform fal id j w e =
    let j1 = record j { status = JobStatus.running } in
    let w1 =
      (record_stage id JobStage.prepare_prompt StageStatus.succeeded
        (set_status id JobStatus.running w).1).1 in
    let e1 : get_job id w1 ≡ some j1 = set_status_lem id JobStatus.running j w e in
    let after =
      λ (l : Json). resolve_title platform fal id j l >> submit_music platform fal id j l in
    Starts-cong id j w w1 ((resolve_lyrics platform fal id j >>= after) w1) refl refl (
      bind-Noted id j j.input_payload w1 after (resolve_lyrics platform fal id j w1).0
        (resolve_lyrics platform fal id j w1).1 (resolve_lyrics-Noted platform fal id j j1 w1 e1)
        (λ l p c.
          let w2 = (resolve_lyrics platform fal id j w1).1 in
          bind-Noted id j p w2 (λ _. submit_music platform fal id j l)
            (resolve_title platform fal id j l w2).0 (resolve_title platform fal id j l w2).1
            (resolve_title-Noted platform fal id j l (record j1 { input_payload = p }) w2 c)
            (λ _ q d.
              keep_music-Starts id
                (fal.submit_song id (compose_song_prompt platform j.input_payload)
                  (get "desired_duration_seconds" j.input_payload) l
                  (get "reference_audio_url" j.input_payload))
                (record j { input_payload = q })
                (record_stage id JobStage.music_generation StageStatus.running
                  (resolve_title platform fal id j l w2).1).1
                d)))
