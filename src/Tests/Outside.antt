-- ===== src/Tests/Outside.antt =====
-- A fal, its webhooks and its keys for the tests.
use musicfy.Prelude.{true, false, none, some, [], ◌∷◌}
use musicfy.Prelude.Int.{pos}
use musicfy.Json.{Json, Fields, Items, end, field, nil, cons}
use musicfy.Platform.{Platform}
use musicfy.Fal.Http.{Http, Config, response}
use musicfy.Fal.Parsing.{FalEvent, EventStatus}
use musicfy.Fal.Signature.{Crypto, Headers}
use musicfy.Delivery.Runner.{Deps}
use musicfy.Generation.Service.{Generator, JobRequest}
use musicfy.Enums.{JobType, JobStatus}
use musicfy.Work.Rows.{Job, Work}
use musicfy.Tests.Data.{runtime, provider, tools, paid, song, studio}

-- A runtime whose every number is 10.
abbrev pub counting : Platform
counting = record runtime { parse_int = λ s. some (pos 10) }

abbrev pub completed_body : Fields
completed_body =
    field "status" (Json.str "COMPLETED")
      (field "request_id" (Json.str "r1") (field "audio_url" (Json.str "music") end))

abbrev pub always_completed : Http
always_completed = record {
  post = λ r. response 200 "" (some (Json.obj completed_body));
  fetch = λ u. response 200 "" (some (Json.obj completed_body));
  put = λ u c t. response 200 "" none;
}

abbrev pub models : Config
models = record {
  base_url = "queue";
  song_model = "song";
  refine_model = "refine";
  speech_model = "speech";
  voice_clone_model = "clone";
  lyrics_llm = "llm";
  demucs_model = "demucs";
  voice_changer_model = "changer";
  voice_conversion_model = "conversion";
  video_avatar_model = "avatar";
  video_avatar_image_model = "avatar-image";
  video_visual_model = "visual";
  video_visual_image_model = "visual-image";
  video_lyrics_bg_model = "background";
}

-- Every signature passes.
abbrev pub trusting : Crypto
trusting = record {
  hmac_hex = λ s b. "00";
  sha256_hex = λ s. s;
  from_hex = λ s. some s;
  ed25519_verify = λ k s m. true;
}

abbrev pub all_headers : Headers
all_headers name = some "10"

abbrev pub one_key : Items
one_key = cons (Json.obj (field "x" (Json.str "key") end)) nil

abbrev pub music_event : FalEvent
music_event = record {
  request_id = "r1";
  status = EventStatus.completed;
  media_url = Json.str "music";
  duration_seconds = Json.null;
  stems = Json.null;
  error_message = none;
  event_id = "r1:completed";
}

abbrev pub world : Deps
world = record {
  platform = runtime;
  fal = provider;
  media = tools;
  settings = paid;
  surprise = none;
}

abbrev pub service : Generator
service = record { deps = world; config = models; contains = λ p t. false; presets = [] }

abbrev pub request : JobRequest
request = record {
  user_id = 1;
  job_type = JobType.song;
  payload = field "prompt" (Json.str "snow") end;
  store_stems = false;
  key = some "again";
}

abbrev pub voice_job : Job
voice_job = record song {
  job_type = JobType.voice_clone;
  status = JobStatus.created;
  current_stage = none;
  input_payload =
      field "voice_profile_id" (Json.str "user-1")
        (field "consent_id" (Json.str "user-1") (field "sample_asset_url" (Json.str "sample") end));
}

-- The studio with a voice to clone.
abbrev pub booth : Work
booth = record studio { jobs = (9, voice_job) ∷ studio.jobs }
