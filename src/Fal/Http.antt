-- ===== src/Fal/Http.antt =====
-- What the client of fal (app/domain/providers/fal/client.py) takes from outside: the exchanges of `httpx`,
-- with bodies decoded from JSON, and the models of its constructor.
use musicfy.Prelude.{
  runtime_error, fal_error, ℕ, String, Option, none, some, Error, Result, ok, err,
}
use musicfy.Prelude.Int.{pos}
use musicfy.Json.{Json, Fields}
use musicfy.Platform.{Platform}

-- A call raised `httpx.TimeoutException`, or another `httpx.HTTPError` with its text, or was answered with
-- a status code, a text, and what `json()` makes of it (`none` for `ValueError`).
pub data Exchange : Type 0 where
  timed_out : Exchange
  broken : String → Exchange
  response : ℕ → String → Option Json → Exchange

-- A POST with a JSON body, and the parameters and headers that a submission adds.
pub record Request : Type 0 where
  pub url : String
  pub body : Fields
  pub fal_webhook : Option String
  pub idempotency_key : Option String

pub record Http : Type 0 where
  pub post : Request → Exchange
  pub fetch : String → Exchange
  -- url, content, content type
  pub put : String → String → String → Exchange

pub record Config : Type 0 where
  pub base_url : String
  pub song_model : String
  pub refine_model : String
  pub speech_model : String
  pub voice_clone_model : String
  pub lyrics_llm : String
  pub demucs_model : String
  pub voice_changer_model : String
  pub voice_conversion_model : String
  pub video_avatar_model : String
  pub video_avatar_image_model : String
  pub video_visual_model : String
  pub video_visual_image_model : String
  pub video_lyrics_bg_model : String

-- `FalTimeout()`
abbrev pub fal_timeout : Error
fal_timeout = fal_error "PROVIDER_TIMEOUT" "fal.ai provider timed out"

-- `FalProviderError(message)`
abbrev pub fal_provider_error : String → Error
fal_provider_error message = fal_error "PROVIDER_FAILED" message

-- `resp.json()` where nothing catches its `ValueError`
abbrev pub decoded : Option Json → Result Json
decoded none = err (runtime_error "ValueError")
decoded (some j) = ok j

-- The receiver of `.get`
abbrev pub as_object : Json → Result Fields
as_object (Json.obj d) = ok d
as_object _ = err (runtime_error "AttributeError")

-- A code in a message.
abbrev pub code_text : Platform → ℕ → String
code_text platform n = platform.show_int (pos n)
