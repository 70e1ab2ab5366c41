-- ===== src/Tests/Songs.antt =====
-- A song from its end on, on the store of the tests.
use musicfy.Prelude.{◌+◌, String, ◌≡◌, refl, ◌⊎◌, true, some, [], ◌∷◌, err, runtime_error}
use musicfy.Tests.Data.{words, runtime, song, studio, provider, tools, paid, both_stages}
use musicfy.Titles.Derive.{derive_track_title}
use musicfy.Cover.Settle.{SettlesOr, finalize_cover-Settles}
use musicfy.Video.Finish.{finalize_video}
use musicfy.Video.Laws.{
  Finishes, finalize_video-Finishes, asset_of, completed_job, finalize_video_twice,
}
use musicfy.Work.Coins.{captured_bank}
use musicfy.Prelude.Int.{pos}
use musicfy.Work.Runtime.{Stage}
use musicfy.Song.Start.{start}
use musicfy.Song.Events.{advance, fail, try_music_fallback, keep_fallback}
use musicfy.Song.Starts.{Starts, start-Starts}
use musicfy.Song.Advances.{Advances, advance-Advances}
use musicfy.Json.{field, end, Fields, Json}
use musicfy.Cover.Pipeline.{finalize_cover}
use musicfy.Work.Settle.{tracks_of, Settles}
use musicfy.Enums.{JobStage-discrete, JobStage, JobStatus}
use musicfy.Wallet.Balance.{available}
use musicfy.Work.Rows.{Job, Work}
use musicfy.Work.Repository.{get_job, set_current_stage, record_stage}
use musicfy.Song.Finish.{finalize}
use musicfy.Work.Base.{update_payload, set_current}
use musicfy.Song.Text.{pick_output}
use musicfy.Song.Settle.{finalize-Settles}
use musicfy.Song.Failures.{GivenUp, fail_twice}
use musicfy.Song.Late.{late_failure}

finalize-Settles_example :
    Settles paid 7 song studio true (finalize tools paid 7 both_stages studio)
unfolding pick_output JobStage-discrete
finalize-Settles_example = finalize-Settles tools paid 7 both_stages song studio refl

abbrev after_first : Work
after_first =
    (fail runtime provider tools paid 7 song JobStage.music_generation "PROVIDER_FAILED" "down"
      studio).1

abbrev retried_song : Job
retried_song = record song {
  provider_model = some "fal-ai/stable-audio";
  provider_request_id = some "r2";
  input_payload = field "prompt" (Json.str "rain") (
      field "_music_fallback_used" (Json.bool true) (
        field "_music_fallback_prev_error" (Json.str "down")
          (field "_fal_status_url" (Json.str "status") (field "_fal_response_url" Json.null end))));
}

fail_twice_example :
    GivenUp paid 7 retried_song "PROVIDER_FAILED" after_first
      (fail runtime provider tools paid 7 retried_song JobStage.music_generation "PROVIDER_FAILED"
        "down again" after_first).1
    ⊎ ((e : String) × ((fail runtime provider tools paid 7 song JobStage.music_generation
            "PROVIDER_FAILED" "down" studio).0
          ≡ err (runtime_error e))
        × (after_first ≡ studio))
unfolding fail try_music_fallback keep_fallback update_payload set_current set_current_stage
    record_stage JobStage-discrete
fail_twice_example =
    fail_twice runtime provider tools paid 7 song retried_song JobStage.music_generation
      JobStage.music_generation "PROVIDER_FAILED" "PROVIDER_FAILED" "down" "down again" studio refl
      refl refl

late_failure_example :
    let w1 = (finalize tools paid 7 both_stages studio).1 in
    let done_song = record song { status = JobStatus.completed; captured_credits = 10 } in
    let w2 =
      (fail runtime provider tools paid 7 done_song JobStage.vocal_tts "PROVIDER_CANCELED" "late"
        w1).1 in
    (get_job 7 w1 ≡ some done_song)
    × (get_job 7 w2
        ≡ some
            (record done_song { status = JobStatus.failed; error_code = some "PROVIDER_CANCELED" }))
    × (tracks_of 7 w2.tracks ≡ 1)
    × (available 1 w2.bank ≡ available 1 studio.bank + 10)
unfolding pick_output JobStage-discrete
late_failure_example =
    late_failure runtime provider tools paid 7 both_stages song
      (record { coins_available = 90; coins_reserved = 10 }) JobStage.vocal_tts "PROVIDER_CANCELED"
      "late" studio refl refl refl refl refl refl

-- The runtime of a cover after its voice.
abbrev converted : Fields
converted = field "voice_conversion" (Json.obj (field "media_url" (Json.str "sung") end)) end

finalize_cover-Settles_example :
    SettlesOr paid 7 song studio true
      (derive_track_title words "cover" song.input_payload)
      (finalize_cover tools paid 7 converted studio)
finalize_cover-Settles_example =
    finalize_cover-Settles tools paid 7 converted (some "sung") song studio refl refl

start-Starts_example : Starts 7 song studio (start runtime provider 7 song studio)
start-Starts_example = start-Starts runtime provider 7 song studio refl

abbrev music_result : Stage
music_result = record {
  media_url = some "music";
  duration_seconds = Json.int (pos 31);
  stems = Json.null;
  event_id = "e1";
}

advance-Advances_example :
    Advances paid 7 song studio true
      (advance runtime provider tools paid 7 song JobStage.music_generation music_result studio)
unfolding JobStage-discrete
advance-Advances_example =
    advance-Advances runtime provider tools paid 7 JobStage.music_generation music_result song
      studio refl

finalize_video-Finishes_example :
    Finishes paid 7 "clip"
      (Json.int (pos 5))
      song
      studio
      (finalize_video tools paid 7 "clip" (Json.int (pos 5)) studio)
finalize_video-Finishes_example =
    finalize_video-Finishes tools paid 7 "clip" (Json.int (pos 5)) song studio refl

finalize_video_twice_example :
    let w1 = (finalize_video tools paid 7 "clip" Json.null studio).1 in
    let w2 = (finalize_video tools paid 7 "clip2" Json.null w1).1 in
    (get_job 7 w2 ≡ some (completed_job paid song))
    × (w2.bank ≡ captured_bank paid 7 song studio.bank)
    × (w2.assets ≡ asset_of 7 song "clip2" Json.null ∷ (asset_of 7 song "clip" Json.null ∷ []))
finalize_video_twice_example =
    finalize_video_twice tools paid 7 "clip" "clip2" Json.null Json.null song studio refl
