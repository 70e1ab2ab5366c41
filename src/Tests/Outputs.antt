-- ===== src/Tests/Outputs.antt =====
-- The provider's answers, titles and subtitles on small inputs.
use musicfy.Prelude.{◌+◌, ◌-◌, ◌*◌, ◌≤◌, max, ◌≡◌, refl, false, none, some, [], ◌∷◌, arith, Table}
use musicfy.Tests.Data.{words, runtime}
use musicfy.Titles.Laws.{Titles, derive_track_title_limits}
use musicfy.RateLimit.Retry.{after_dispatches, call, dispatch_again}
use musicfy.Fal.Calls.{
  FalStatus, fetch_status, take_status, read_status, take_result, read_result, submit, status_upper,
}
use musicfy.Json.{Json, Fields, field, end}
use musicfy.Fal.Parsing.{
  parse_fal_webhook_event, extract_media, find_media, look_through, to_float, event_status,
  success_of, event_of, extract_stems, top_stems,
}
use musicfy.Fal.Events.{Reads, parse_fal_webhook_event-Reads}
use musicfy.Fal.Media.{when_true, first_true, media_urls, find_media_url}
use musicfy.Fal.Answers.{Gives, fetch_status_completed}
use musicfy.Fal.Caught.{IsCaught, submit-IsCaught, object}
use musicfy.Fal.Signature.{verify_fal_ed25519, some_key_passes}
use musicfy.Fal.Trust.{IsSigned, verify_fal_ed25519-IsSigned}
use musicfy.Titles.Derive.{derive_track_title}
use musicfy.Subtitles.Cues.{Splitter, write_srt}
use musicfy.Subtitles.Laws.{Tiles, Crossed, write_srt-Tiles, write_srt-Crossed}
use musicfy.RateLimit.{Limit, Bucket, dispatch, take_token, consume, goes_on}
use musicfy.RateLimit.Runs.{passed, passed_limits}
use musicfy.Tests.Outside.{
  completed_body, always_completed, models, counting, trusting, all_headers, one_key, music_event,
}

verify_fal_ed25519-IsSigned_example : IsSigned counting trusting 10000 one_key all_headers "body"
unfolding verify_fal_ed25519 some_key_passes
verify_fal_ed25519-IsSigned_example =
    verify_fal_ed25519-IsSigned counting trusting 10000 one_key all_headers "body" refl

submit-IsCaught_example : IsCaught (submit runtime always_completed models "song" end none "key")
unfolding find_media look_through
submit-IsCaught_example =
    submit-IsCaught runtime always_completed models "song" end none "key"
      (object 200 "" completed_body refl refl)

abbrev event_body : Fields
event_body = field "status" (Json.str "ok") (
    field "request_id" (Json.str "r1") (
      field "event_id" (Json.str "e1")
        (field "payload" (Json.obj (field "audio_url" (Json.str "music") end)) end)))

parse_fal_webhook_event-Reads_example :
    (d : Fields) × (some (Json.obj event_body) ≡ some (Json.obj d))
    × Reads runtime d (record music_event { event_id = "e1" })
unfolding parse_fal_webhook_event event_status event_of success_of extract_media find_media
    look_through to_float extract_stems top_stems
parse_fal_webhook_event-Reads_example =
    parse_fal_webhook_event-Reads runtime (some (Json.obj event_body))
      (record music_event { event_id = "e1" }) refl

abbrev answer : FalStatus
answer = record {
  request_id = "r1";
  status = "COMPLETED";
  media_url = Json.str "music";
  duration_seconds = Json.null;
  stems = Json.null;
  error_message = none;
}

fetch_status_completed_example :
    (d : Fields) × Gives (always_completed.fetch "s") (Json.obj d)
    × (status_upper runtime always_completed models d ≡ "COMPLETED")
    × ((j : Json) × Gives (always_completed.fetch "r") j)
unfolding fetch_status take_status read_status take_result read_result extract_media find_media
    look_through to_float
fetch_status_completed_example =
    fetch_status_completed runtime always_completed models "song" "r1" (some "s") (some "r") answer
      refl refl

find_media_url_example :
    when_true (find_media completed_body).url ≡ first_true (media_urls completed_body)
find_media_url_example = find_media_url completed_body

derive_track_title_limits_example :
    Titles words "song" completed_body (derive_track_title words "song" completed_body)
derive_track_title_limits_example = derive_track_title_limits words "song" completed_body

abbrev splitter : Splitter
splitter = record {
  splitlines = λ s. s ∷ (s ∷ []);
  strip = λ s. s;
  starts_with = λ s t. false;
  ends_with = λ s t. false;
  replace = λ s old new. s;
}

write_srt-Tiles_example : Tiles 0 (3000 * 2) (write_srt splitter ("la" ∷ ("li" ∷ [])) 3000)
write_srt-Tiles_example = write_srt-Tiles splitter ("la" ∷ ("li" ∷ [])) 3000 (omega arith)

write_srt-Crossed_example : Crossed (write_srt splitter ("a" ∷ ("b" ∷ ("c" ∷ []))) 900)
write_srt-Crossed_example = write_srt-Crossed splitter ("a" ∷ ("b" ∷ ("c" ∷ []))) 900 (omega arith)

abbrev slow : Limit
slow = record { per_minute = 60; burst = 1 }

-- One request a second: the second of two at once is denied for a second.
abbrev emptied : Table Bucket
emptied = (7, record { tokens = 0; last_refill = 5000 }) ∷ []

dispatch_again_example :
    (dispatch slow (call slow 6000 "/v1/jobs" 7) (
      after_dispatches slow
        (call slow 5500 "/v1/jobs" 8 ∷ [])
        (dispatch slow (call slow 5000 "/v1/jobs" 7) emptied).1)).0
    ≡ goes_on
unfolding dispatch take_token consume
dispatch_again_example =
    dispatch_again slow 5000 6000 7 1 "/v1/jobs" (call slow 5500 "/v1/jobs" 8 ∷ []) emptied
      (omega arith) refl (omega arith) (refl, tt)

passed_limits_example :
    passed slow 7 ((10, 7) ∷ ((20, 8) ∷ ((30, 7) ∷ []))) [] * 60000
    ≤ max 1 1 * 60000 + (40 - 10) * 60
passed_limits_example =
    passed_limits slow 7 10 40 ((10, 7) ∷ ((20, 8) ∷ ((30, 7) ∷ []))) [] refl
      (omega arith, (omega arith, (omega arith, omega arith)))
