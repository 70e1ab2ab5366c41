-- ===== src/Fal/Calls.antt =====
-- The calls of `FalAiProvider` (app/domain/providers/fal/client.py): `_submit`, `fetch_status`, `_run_llm`,
-- `voice_clone` and `upload_to_storage`. The raw answer that a result carries is never read back.
use musicfy.Fal.Http.{
  Request, decoded, code_text, as_object, fal_timeout, fal_provider_error, Exchange, timed_out,
  broken, response, Http, Config,
}
use musicfy.Prelude.{
  String, ◌&&◌, Option, none, some, leb, ◌==◌, str_eq, if◌then◌else◌, truthy, Result, ok, err, cut,
  and_then, runtime_error,
}
use musicfy.Fal.Parsing.{request_id_of, to_str, extract_media, is_dict, Found}
use musicfy.Json.{Json, Fields, end, field, get, truth, text_of}
use musicfy.Platform.{Platform}
use musicfy.Work.Runtime.{or_else}
use musicfy.Work.Base.{Submit}
use Prim.Native.String.{◌++◌}

-- `FalSubmitResult`
pub record Submission : Type 0 where
  pub submit : Submit
  pub status : String
  pub media_url : Json
  pub duration_seconds : Json

-- `FalStatusResult`
pub record FalStatus : Type 0 where
  pub request_id : String
  pub status : String
  pub media_url : Json
  pub duration_seconds : Json
  pub stems : Json
  pub error_message : Option String

abbrev pub plain_status : String → String → Option String → FalStatus
plain_status request_id status message = record {
  request_id = request_id;
  status = status;
  media_url = Json.null;
  duration_seconds = Json.null;
  stems = Json.null;
  error_message = message;
}

-- `extract_media` of any value.
abbrev pub media_in : Platform → Json → Result Found
media_in platform (Json.obj d) = extract_media platform d
media_in platform _ = ok (record { url = Json.null; duration = Json.null })

-- The payload of an envelope, or the answer itself.
abbrev pub unwrap : Json → Json
unwrap (Json.obj d) = if is_dict (get "payload" d) then get "payload" d else Json.obj d
unwrap v = v

-- `stems`, where they are an object.
abbrev pub stems_of : Json → Json
stems_of (Json.obj d) = if is_dict (get "stems" d) then get "stems" d else Json.null
stems_of _ = Json.null

-- `url or default`
abbrev pub url_or : Option String → String → String
url_or none default = default
url_or (some u) default = if str_eq u "" then default else u

module _ (platform : Platform) (http : Http) (config : Config) where
  open platform use {lower, upper}

  abbrev pub status_lower : Json → Result String
  status_lower (Json.str s) = ok (lower (if str_eq s "" then "queued" else s))
  status_lower v = if truth v then err (runtime_error "AttributeError") else ok (lower "queued")

  abbrev pub submission : Fields → String → Found → Submission
  submission d status f = record {
    submit = record {
      request_id = to_str platform (request_id_of d);
      status_url = text_of (get "status_url" d);
      response_url = text_of (get "response_url" d);
    };
    status = status;
    media_url = f.url;
    duration_seconds = f.duration;
  }

  unfoldable pub read_submission : Fields → Result Submission
  read_submission d =
      if truth (request_id_of d)
      then and_then (extract_media platform d)
          (λ f. and_then (status_lower (get "status" d)) (λ s. ok (submission d s f)))
      else err (fal_provider_error "fal response missing request_id")

  abbrev pub read_answer : Option Json → Result Submission
  read_answer none = err (fal_provider_error "fal returned non-JSON body")
  read_answer (some j) = and_then (as_object j) read_submission

  unfoldable pub accept : String → Exchange → Result Submission
  accept model timed_out = err fal_timeout
  accept model (broken e) = err (fal_provider_error ("fal submit failed: " ++ e))
  accept model (response code text body) =
      if leb 500 code
      then err (fal_provider_error ("fal returned " ++ code_text platform code ++ " for " ++ model))
      else if leb 400 code
      then err (
          fal_provider_error
            ("fal rejected submit (" ++ code_text platform code ++ "): " ++ cut 200 text))
      else read_answer body

  abbrev pub post_of : String → Fields → Option String → String → Request
  post_of model payload webhook_url idempotency_key = record {
    url = config.base_url ++ "/" ++ model;
    body = payload;
    fal_webhook = if truthy webhook_url then webhook_url else none;
    idempotency_key = some idempotency_key;
  }

  -- `_submit`
  unfoldable pub submit : String → Fields → Option String → String → Result Submission
  submit model payload webhook_url idempotency_key =
      accept model (http.post (post_of model payload webhook_url idempotency_key))

  unfoldable pub read_result : String → Json → Result FalStatus
  read_result request_id j =
      let result = unwrap j in
      and_then (media_in platform result) (λ f. ok (record {
        request_id = request_id;
        status = "COMPLETED";
        media_url = f.url;
        duration_seconds = f.duration;
        stems = stems_of result;
        error_message = none;
      }))

  -- The answer of the result's url.
  unfoldable pub take_result : String → Exchange → Result FalStatus
  take_result request_id timed_out =
      err (fal_provider_error "fal result fetch failed: TimeoutException")
  take_result request_id (broken e) = err (fal_provider_error ("fal result fetch failed: " ++ e))
  take_result request_id (response code text body) =
      if code == 422
      then ok (plain_status request_id "FAILED" (some ("422 Unprocessable: " ++ cut 300 text)))
      else if leb 400 code
      then ok (
          plain_status request_id "FAILED"
            (some ("result " ++ code_text platform code ++ ": " ++ cut 200 text)))
      else and_then (decoded body) (read_result request_id)

  -- `str(data.get("status") or "").upper()`
  abbrev pub status_upper : Fields → String
  status_upper d = let v = get "status" d in upper (if truth v then to_str platform v else "")

  unfoldable pub read_status : String → String → Fields → Result FalStatus
  read_status result_url request_id d =
      let status = status_upper d in
      if str_eq status "COMPLETED"
      then take_result request_id (http.fetch result_url)
      else ok (plain_status request_id (if str_eq status "" then "IN_QUEUE" else status) none)

  unfoldable pub take_status : String → String → Exchange → Result FalStatus
  take_status result_url request_id timed_out = err fal_timeout
  take_status result_url request_id (broken e) =
      err (fal_provider_error ("fal status fetch failed: " ++ e))
  take_status result_url request_id (response code text body) =
      if code == 404
      then ok (plain_status request_id "IN_QUEUE" none)
      else if leb 400 code
      then err (
          fal_provider_error
            ("fal status returned " ++ code_text platform code ++ ": " ++ cut 200 text))
      else and_then (decoded body) (λ j. and_then (as_object j) (read_status result_url request_id))

  abbrev pub request_url : String → String → String
  request_url model request_id = config.base_url ++ "/" ++ model ++ "/requests/" ++ request_id

  -- `fetch_status`
  unfoldable pub fetch_status : String → String → Option String → Option String → Result FalStatus
  fetch_status model request_id status_url response_url =
      take_status (url_or response_url (request_url model request_id)) request_id
        (http.fetch (url_or status_url (request_url model request_id ++ "/status")))

  abbrev pub sync_base : String
  sync_base = "https://fal.run"

  abbrev pub llm_output : Fields → Result String
  llm_output d =
      let v = get "output" d in
      let output = platform.strip (if truth v then to_str platform v else "") in
      if str_eq output ""
      then err (fal_provider_error "fal LLM returned empty output")
      else ok output

  unfoldable pub read_llm : Exchange → Result String
  read_llm timed_out = err fal_timeout
  read_llm (broken e) = err (fal_provider_error ("fal LLM call failed: " ++ e))
  read_llm (response code text body) =
      if leb 400 code
      then err (
          fal_provider_error
            ("fal LLM returned " ++ code_text platform code ++ ": " ++ cut 200 text))
      else and_then (decoded body) (λ j. and_then (as_object j) llm_output)

  -- `_run_llm`
  unfoldable pub run_llm : String → Result String
  run_llm prompt = read_llm (
      http.post (record {
        url = sync_base ++ "/fal-ai/any-llm";
        body = field "model" (Json.str config.lyrics_llm) (field "prompt" (Json.str prompt) end);
        fal_webhook = none;
        idempotency_key = none;
      }))

  abbrev pub voice_id_of : Fields → Result String
  voice_id_of d =
      let v = or_else (get "custom_voice_id" d) (get "voice_id" d) in
      if truth v
      then ok (to_str platform v)
      else err (
          fal_provider_error
            ("voice_clone no custom_voice_id in response: " ++ platform.show (Json.obj d)))

  unfoldable pub read_voice : Exchange → Result String
  read_voice timed_out = err fal_timeout
  read_voice (broken e) = err (fal_provider_error ("voice_clone failed: " ++ e))
  read_voice (response code text body) =
      if leb 400 code
      then err (
          fal_provider_error
            ("voice_clone returned " ++ code_text platform code ++ ": " ++ cut 200 text))
      else and_then (decoded body) (λ j. and_then (as_object j) voice_id_of)

  -- `voice_clone`
  unfoldable pub clone_voice : String → Result String
  clone_voice audio_url = read_voice (
      http.post (record {
        url = sync_base ++ "/" ++ config.voice_clone_model;
        body = field "audio_url" (Json.str audio_url) end;
        fal_webhook = none;
        idempotency_key = none;
      }))

  abbrev pub put_done : String → Exchange → Result String
  put_done file_url timed_out = err fal_timeout
  put_done file_url (broken e) = err (fal_provider_error ("fal storage PUT failed: " ++ e))
  put_done file_url (response code text body) =
      if leb 400 code
      then err (
          fal_provider_error
            ("fal storage PUT rejected (" ++ code_text platform code ++ "): " ++ cut 200 text))
      else ok file_url

  -- The urls of the upload, where both are there.
  abbrev pub put_file : String → String → Option String → Option String → Result String
  put_file content content_type (some upload_url) (some file_url) =
      if truthy (some upload_url) && truthy (some file_url)
      then put_done file_url (http.put upload_url content content_type)
      else err (fal_provider_error "fal storage initiate response missing upload_url/file_url")
  put_file content content_type _ _ =
      err (fal_provider_error "fal storage initiate response missing upload_url/file_url")

  abbrev pub initiated : String → String → Exchange → Result String
  initiated content content_type timed_out = err fal_timeout
  initiated content content_type (broken e) =
      err (fal_provider_error ("fal storage initiate failed: " ++ e))
  initiated content content_type (response code text body) =
      if leb 400 code
      then err (
          fal_provider_error
            ("fal storage initiate rejected (" ++ code_text platform code ++ "): " ++ cut 200 text))
      else and_then (decoded body) (λ j. and_then (as_object j) (λ d.
        put_file content content_type (text_of (get "upload_url" d)) (text_of (get "file_url" d))))

  -- `upload_to_storage`
  unfoldable pub upload_to_storage : String → String → String → Result String
  upload_to_storage content filename content_type = initiated content content_type (
      http.post (record {
        url = "https://rest.alpha.fal.ai/storage/upload/initiate";
        body =
            field "file_name" (Json.str filename)
              (field "content_type" (Json.str content_type) end);
        fal_webhook = none;
        idempotency_key = none;
      }))
