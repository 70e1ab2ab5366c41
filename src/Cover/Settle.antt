-- ===== src/Cover/Settle.antt =====
-- What `CoverPipeline._finalize` leaves behind (app/domain/services/pipelines/cover.py).
use musicfy.Prelude.{
  ℕ, String, ◌≡◌, refl, sym, ap, ◌∙◌, subst, ◌⊎◌, inl, inr, Bool, true, false, ◌&&◌, Option, none,
  some, arith, if◌then◌else◌, truthy, Error, Result, ok, err, is_ok, lookup,
}
use musicfy.Titles.Derive.{derive_track_title}
use musicfy.Work.Settle.{
  finish_silent, finish_raised, tracks_of-none, Stalls, Stalls-cong, tracks_of, Settles, finish_lem,
  Settles-cong,
}
use musicfy.Work.Repository.{has_track, get_job, set_status, record_stage}
use musicfy.Json.{Json, Fields, get, truth, text_of, of_text}
use musicfy.Enums.{JobStage, JobStatus, StageStatus, TrackKind}
use musicfy.Work.Rows.{Job, Work}
use musicfy.Work.Base.{Settings, payload_of, skip_missing}
use musicfy.Work.Coins.{Keeps, set_status_lem, skip_missing_lem}
use musicfy.Work.Runtime.{Output, no_output, media_of}
use musicfy.Work.Tracks.{finish}
use musicfy.Provider.{Media, Made, broken, made}
use musicfy.Cover.Pipeline.{
  cover_stages, both_stems, voice_only, keep_cover_mix, instrumental_of, mix_of, mix_cover,
  probed_cover, finalize_cover,
}

-- The output of `_mix`.
abbrev pub mixed_output : Json → Option String → Made → Output
mixed_output vocal instrumental broken = voice_only vocal instrumental
mixed_output vocal instrumental (made url duration) =
    if truthy url
    then record {
      audio_url = url;
      duration_seconds = duration;
      stems = both_stems vocal instrumental;
    }
    else voice_only vocal instrumental

abbrev pub cover_output : Media → Json → Json → Output
cover_output media vocal stems =
    let instrumental = instrumental_of media stems in
    if truth vocal
    then if truthy instrumental && media.ffmpeg_available
      then mixed_output vocal instrumental (mix_of media instrumental (text_of vocal))
      else voice_only vocal instrumental
    else no_output

keep_cover_mix_lem :
    (id : ℕ) (vocal : Json) (instrumental : Option String) (m : Made) (w : Work)
    → ((keep_cover_mix id vocal instrumental m w).0 ≡ ok (mixed_output vocal instrumental m))
      × Keeps w (keep_cover_mix id vocal instrumental m w).1
unfolding keep_cover_mix record_stage
keep_cover_mix_lem id vocal instrumental broken w = (refl, (refl, refl, refl))
keep_cover_mix_lem id vocal instrumental (made url duration) w = ground arith

mix_cover_lem :
    (media : Media) (id : ℕ) (vocal stems : Json) (w : Work)
    → ((mix_cover media id vocal stems w).0 ≡ ok (cover_output media vocal stems))
      × Keeps w (mix_cover media id vocal stems w).1
unfolding mix_cover record_stage
mix_cover_lem media id vocal stems w =
    let instrumental = instrumental_of media stems in
    ground (
      arith,
      keep_cover_mix_lem id vocal instrumental (mix_of media instrumental (text_of vocal))
          (record_stage id JobStage.mix_master StageStatus.running w).1,
    )

-- There is audio just where there is a converted voice: no failure of the mixer takes it away.
cover_output-audio_url :
    (media : Media) (url : Option String) (stems : Json)
    → truthy (cover_output media (of_text url) stems).audio_url ≡ truthy url
cover_output-audio_url media none stems = refl
cover_output-audio_url media (some s) stems = ground arith

finalize_cover_lem :
    (media : Media) (settings : Settings) (id : ℕ) (runtime : Fields) (w : Work)
    → (w' : Work) × (Keeps (set_status id JobStatus.post_processing w).1 w')
      × (finalize_cover media settings id runtime w
          ≡ finish settings
              (probed_cover media)
              (derive_track_title media.words "cover")
              TrackKind.cover
              id
              (cover_output media
                (media_of "voice_conversion" runtime)
                (get "_instrumental_stems" (payload_of id w')))
              w')
unfolding finalize_cover record_stage set_status
finalize_cover_lem media settings id runtime w =
    let w1 = (set_status id JobStatus.post_processing w).1 in
    let s = skip_missing_lem id cover_stages w.stages w1 in
    let w2 = (skip_missing id cover_stages w.stages w1).1 in
    let vocal = media_of "voice_conversion" runtime in
    let stems = get "_instrumental_stems" (payload_of id w2) in
    let m = mix_cover_lem media id vocal stems w2 in
    let w3 = (mix_cover media id vocal stems w2).1 in
    let w4 = (record_stage id JobStage.upload_cdn StageStatus.succeeded w3).1 in
    (w4, ground (arith, s, m), ground (arith, s, m))

-- The end of a job whose title is a text, or raises.
abbrev pub SettlesOr :
    Settings → ℕ → Job → Work → Bool → Result String → Result (Unit {0}) × Work → Type 0
SettlesOr settings id j w audio title r =
    Settles settings id j w audio r
    ⊎ ((audio ≡ true)
        × (tracks_of id w.tracks ≡ 0)
        × ((x : Error) × (title ≡ err x) × Stalls settings id j w x r))

SettlesOr-cong :
    (settings : Settings) (id : ℕ) (j : Job) (w w' : Work) (t : Bool) (title : Result String)
    (r : Result (Unit {0}) × Work)
    → w'.bank ≡ w.bank
    → w'.tracks ≡ w.tracks
    → SettlesOr settings id j w' t title r
    → SettlesOr settings id j w t title r
SettlesOr-cong settings id j w w' t title r e f (inl s) =
    inl (Settles-cong settings id j w w' t r e f s)
SettlesOr-cong settings id j w w' t title r e f (inr (a, n, (x, q, s))) =
    inr (a, ap (tracks_of id) (sym f) ∙ n, (x, q, Stalls-cong settings id j w w' x r e f s))

finish-SettlesOr :
    (settings : Settings) (probed : String → Output → Output) (titled : Fields → Result String)
    (kind : TrackKind) (id : ℕ) (out : Output) (j : Job) (w : Work) (audio : Bool)
    (title : Result String) (had : Bool)
    → get_job id w ≡ some (record j { status = JobStatus.post_processing })
    → truthy out.audio_url ≡ audio
    → titled j.input_payload ≡ title
    → has_track id w.tracks ≡ had
    → SettlesOr settings id j w audio title (finish settings probed titled kind id out w)
finish-SettlesOr settings probed titled kind id out j w audio (ok t) had e a q h = inl (
    subst (λ b. Settles settings id j w b (finish settings probed titled kind id out w)) a
      (finish_lem settings probed titled kind id out
        (record j { status = JobStatus.post_processing }) w e (inl (ap is_ok q))))
finish-SettlesOr settings probed titled kind id out j w audio (err x) true e a q h = inl (
    subst (λ b. Settles settings id j w b (finish settings probed titled kind id out w)) a
      (finish_lem settings probed titled kind id out
        (record j { status = JobStatus.post_processing }) w e (inr h)))
finish-SettlesOr settings probed titled kind id out j w true (err x) false e a q h = inr (
  refl,
  tracks_of-none id w.tracks h,
  (x, refl, finish_raised settings probed titled kind id out j w e q h a),
)
finish-SettlesOr settings probed titled kind id out j w false (err x) false e a q h = inl (
    subst (λ b. Settles settings id j w b (finish settings probed titled kind id out w)) a
      (finish_silent settings probed titled kind id out
        (record j { status = JobStatus.post_processing }) w e a))

-- The end of a cover, whatever the mixer does: with a converted voice the job is completed, its reserved coins
-- are captured and it has a track (made only where it had none); with none it is failed, its coins are
-- released and no track is made. The one other end is that of a job with a converted voice and no track
-- whose title raises: the error is raised, and the job is left in `post_processing` with its coins captured
-- and no track.
pub finalize_cover-Settles :
    (media : Media) (settings : Settings) (id : ℕ) (runtime : Fields) (url : Option String)
    (j : Job) (w : Work)
    → get_job id w ≡ some j
    → media_of "voice_conversion" runtime ≡ of_text url
    → SettlesOr settings id j w
        (truthy url)
        (derive_track_title media.words "cover" j.input_payload)
        (finalize_cover media settings id runtime w)
unfolding set_status
finalize_cover-Settles media settings id runtime url j w e voice =
    let j' = record j { status = JobStatus.post_processing } in
    let (w', k, f) = finalize_cover_lem media settings id runtime w in
    let found : get_job id w' ≡ some j' =
      ap (lookup id) k.1 ∙ set_status_lem id JobStatus.post_processing j w e in
    let stems = get "_instrumental_stems" (payload_of id w') in
    let out = cover_output media (media_of "voice_conversion" runtime) stems in
    let audio : truthy out.audio_url ≡ truthy url =
      ap (λ v. truthy (cover_output media v stems).audio_url) voice
      ∙ cover_output-audio_url media url stems in
    let titled = derive_track_title media.words "cover" in
    let title = titled j.input_payload in
    let ends =
      finish-SettlesOr settings (probed_cover media) titled TrackKind.cover id out j w' (truthy url)
        title (has_track id w'.tracks) found audio refl refl in
    subst (SettlesOr settings id j w (truthy url) title) (sym f)
      (SettlesOr-cong settings id j w w' (truthy url) title _ k.0 k.2 ends)
