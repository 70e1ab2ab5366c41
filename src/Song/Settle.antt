-- ===== src/Song/Settle.antt =====
-- What `SongPipeline._finalize` leaves behind (app/domain/services/pipelines/song.py): the job ends, the
-- coins are settled, and there is one track.
use musicfy.Prelude.{
  ℕ, ◌≡◌, refl, sym, ap, ◌∙◌, subst, inl, true, ◌&&◌, none, some, arith, str_eq, if◌then◌else◌,
  truthy, ok, is_ok, lookup,
}
use musicfy.Titles.Laws.{song_title_lem}
use musicfy.Titles.Derive.{derive_track_title}
use musicfy.Json.{Json, Fields, truth, text_of}
use musicfy.Work.Base.{Settings, skip_missing}
use musicfy.Work.Coins.{
  captured_bank_again, set_status_lem, Keeps, captured_bank, captured_coins, skip_missing_lem,
}
use musicfy.Work.Rows.{Job, Work}
use musicfy.Work.Repository.{get_job, set_status, record_stage}
use musicfy.Enums.{JobStage, JobStatus, StageStatus, TrackKind}
use musicfy.Provider.{Media, Made, broken, made}
use musicfy.Song.Text.{pick_output}
use musicfy.Work.Runtime.{Output, media_of}
use musicfy.Work.Tracks.{finish}
use musicfy.Work.Settle.{tracks_of, Settles, finish_lem, Settles-cong}
use musicfy.Song.Finish.{
  probed, with_vocal, with_mix, mixed, keep_mix, maybe_mix, finalize, async_stages,
}

-- The runtime that `_maybe_mix` returns.
abbrev pub mix_result : Json → Json → Fields → Made → Fields
mix_result vocal music runtime broken = runtime
mix_result vocal music runtime (made none duration) = runtime
mix_result vocal music runtime (made (some url) duration) =
    if str_eq url "" then runtime else with_mix url duration vocal music runtime

abbrev pub after_mix : Media → Fields → Fields
after_mix media runtime =
    let music = media_of "music_generation" runtime in
    let vocal = media_of "vocal_tts" runtime in
    if truth music && truth vocal
    then if media.ffmpeg_available
      then mix_result vocal music runtime (mixed media (text_of music) (text_of vocal))
      else with_vocal vocal runtime
    else runtime

keep_mix_lem :
    (id : ℕ) (vocal music : Json) (runtime : Fields) (m : Made) (w : Work)
    → ((keep_mix id vocal music runtime m w).0 ≡ ok (mix_result vocal music runtime m))
      × Keeps w (keep_mix id vocal music runtime m w).1
unfolding keep_mix record_stage
keep_mix_lem id vocal music runtime broken w = (refl, (refl, refl, refl))
keep_mix_lem id vocal music runtime (made none duration) w = (refl, (refl, refl, refl))
keep_mix_lem id vocal music runtime (made (some url) duration) w = ground arith

maybe_mix_lem :
    (media : Media) (id : ℕ) (runtime : Fields) (w : Work)
    → ((maybe_mix media id runtime w).0 ≡ ok (after_mix media runtime))
      × Keeps w (maybe_mix media id runtime w).1
unfolding maybe_mix record_stage
maybe_mix_lem media id runtime w =
    let music = media_of "music_generation" runtime in
    let vocal = media_of "vocal_tts" runtime in
    ground (
      arith,
      keep_mix_lem id vocal music runtime (mixed media (text_of music) (text_of vocal))
          (record_stage id JobStage.mix_master StageStatus.running w).1,
    )

abbrev pub output : Media → Fields → Output
output media runtime = pick_output (after_mix media runtime)

finalize_lem :
    (media : Media) (settings : Settings) (id : ℕ) (runtime : Fields) (w : Work)
    → (w' : Work) × (Keeps (set_status id JobStatus.post_processing w).1 w')
      × (finalize media settings id runtime w
          ≡ finish settings
              (probed media)
              (derive_track_title media.words "song")
              TrackKind.song
              id
              (output media runtime)
              w')
unfolding finalize record_stage set_status
finalize_lem media settings id runtime w =
    let w1 = (set_status id JobStatus.post_processing w).1 in
    let s = skip_missing_lem id async_stages w.stages w1 in
    let w2 = (skip_missing id async_stages w.stages w1).1 in
    let m = maybe_mix_lem media id runtime w2 in
    let w3 = (maybe_mix media id runtime w2).1 in
    let w4 = (record_stage id JobStage.upload_cdn StageStatus.succeeded w3).1 in
    (w4, ground (arith, s, m), ground (arith, s, m))

-- `_finalize` of a job always returns, and the job has ended: with audio it is completed, its
-- reserved coins are captured and it has a track (one is made only where it had none); with no audio it
-- is failed, its coins are released and no track is made. Nothing else of the coins changes.
pub finalize-Settles :
    (media : Media) (settings : Settings) (id : ℕ) (runtime : Fields) (j : Job) (w : Work)
    → get_job id w ≡ some j
    → Settles settings id j w
        (truthy (output media runtime).audio_url)
        (finalize media settings id runtime w)
unfolding set_status
finalize-Settles media settings id runtime j w e =
    let j' = record j { status = JobStatus.post_processing } in
    let (w', k, f) = finalize_lem media settings id runtime w in
    let found : get_job id w' ≡ some j' =
      ap (lookup id) k.1 ∙ set_status_lem id JobStatus.post_processing j w e in
    subst (Settles settings id j w (truthy (output media runtime).audio_url)) (sym f) (
      Settles-cong settings id j w w' (truthy (output media runtime).audio_url) _ k.0 k.2 (
        finish_lem settings (probed media) (derive_track_title media.words "song") TrackKind.song id
          (output media runtime) j' w' found
          (inl (ap is_ok (song_title_lem media.words j.input_payload).1))))

-- Where a webhook and the poller both finish a job, with audio in either's runtime, the second leaves
-- the coins and the number of the job's tracks as the first left them.
finalize_again :
    (media : Media) (settings : Settings) (id : ℕ) (runtime runtime' : Fields) (j : Job) (w : Work)
    → get_job id w ≡ some j
    → truthy (output media runtime).audio_url ≡ true
    → truthy (output media runtime').audio_url ≡ true
    → let w1 = (finalize media settings id runtime w).1 in
      let w2 = (finalize media settings id runtime' w1).1 in
      (w2.bank ≡ w1.bank) × (tracks_of id w2.tracks ≡ tracks_of id w1.tracks)
finalize_again media settings id runtime runtime' j w e a b =
    let w1 = (finalize media settings id runtime w).1 in
    let j1 = record j {
      status = JobStatus.completed;
      captured_credits = captured_coins settings j;
    } in
    let s =
      subst (λ t. Settles settings id j w t (finalize media settings id runtime w)) a
        (finalize-Settles media settings id runtime j w e) in
    let s' =
      subst (λ t. Settles settings id j1 w1 t (finalize media settings id runtime' w1)) b
        (finalize-Settles media settings id runtime' j1 w1 s.1) in
    (
      s'.2
          ∙ (ap (captured_bank settings id j1) s.2
              ∙ captured_bank_again settings id j w.bank
              ∙ sym s.2),
      ground (arith, s.3, s'.3),
    )
