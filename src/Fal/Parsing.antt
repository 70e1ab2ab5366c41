-- ===== src/Fal/Parsing.antt =====
-- app/domain/providers/fal/parsing.py: the events of fal's queue, read from the decoded body of a
-- webhook. The digest of the body is stored and never read back: it is left out.
use musicfy.Prelude.{
  ℕ, suc, ◌+◌, ◌*◌, String, Bool, true, false, not, ◌&&◌, ◌||◌, Option, none, some, List, [], ◌∷◌,
  leb, str_eq, if◌then◌else◌, Result, ok, err, cut, and_then, webhook_payload_invalid,
  runtime_error,
}
use musicfy.Prelude.Int.{ℤ, pos, negsuc}
use musicfy.Json.{Json, Fields, end, field, get, as_dict, truth}
use musicfy.Work.Runtime.{or_else}
use musicfy.Platform.{Platform}
use Prim.Native.String.{◌++◌}

pub data EventStatus : Type 0 where
  completed failed canceled in_progress : EventStatus

pub record FalEvent : Type 0 where
  pub request_id : String
  pub status : EventStatus
  pub media_url : Json
  pub duration_seconds : Json
  pub stems : Json
  pub error_message : Option String
  pub event_id : String

abbrev pub is_one_of : String → List String → Bool
is_one_of s [] = false
is_one_of s (t ∷ ts) = str_eq s t || is_one_of s ts

abbrev pub is_dict : Json → Bool
is_dict (Json.obj _) = true
is_dict _ = false

-- `STEM_NAMES`
abbrev pub stem_names : List String
stem_names =
    "vocals" ∷ "vocal" ∷ "drums" ∷ "bass" ∷ "other" ∷ "guitar" ∷ "piano" ∷ "accompaniment"
    ∷ "instrumental" ∷ "backing" ∷ []

-- The url of a stem: `{"url": ..}`, or a text.
abbrev pub stem_url : Json → Json
stem_url (Json.obj fs) = get "url" fs
stem_url (Json.str s) = Json.str s
stem_url _ = Json.null

abbrev pub is_stem : String → Json → Bool
is_stem k v = is_one_of k stem_names && truth (stem_url v)

abbrev pub keep_if : Bool → String → Json → Fields → Fields
keep_if true k v fs = field k v fs
keep_if false k v fs = fs

-- The stems among the fields at the top of a result.
unfoldable pub top_stems : Fields → Fields
top_stems end = end
top_stems (field k v fs) = keep_if (is_stem k v) k v (top_stems fs)

abbrev pub count_fields : Fields → ℕ
count_fields end = 0
count_fields (field k v fs) = suc (count_fields fs)

abbrev pub enough_stems : Fields → Json
enough_stems top = if leb 2 (count_fields top) then Json.obj top else Json.null

abbrev pub explicit_stems : Json → Fields → Json
explicit_stems stems result =
    if is_dict stems && truth stems then stems else enough_stems (top_stems result)

unfoldable pub extract_stems : Fields → Json
extract_stems result = explicit_stems (get "stems" result) result

-- The media url and the duration found so far.
pub record Found : Type 0 where
  pub url : Json
  pub duration : Json

abbrev pub media_keys : List String
media_keys = "audio" ∷ "audio_file" ∷ "video" ∷ "video_file" ∷ "output" ∷ "result" ∷ []

-- One round of the loop of `extract_media`.
abbrev pub look_at : Json → Found → Found
look_at (Json.obj v) f = record {
  url = or_else f.url (or_else (get "url" v) (or_else (get "audio_url" v) (get "video_url" v)));
  duration = or_else f.duration (or_else (get "duration" v) (get "duration_seconds" v));
}
look_at (Json.str s) f = record f { url = or_else f.url (Json.str s) }
look_at _ f = f

unfoldable pub look_through : List String → Fields → Found → Found
look_through [] obj f = f
look_through (k ∷ ks) obj f = look_through ks obj (look_at (get k obj) f)

unfoldable pub find_media : Fields → Found
find_media obj =
    let f = look_through media_keys obj (record { url = Json.null; duration = Json.null }) in
    record {
      url = or_else f.url (or_else (get "audio_url" obj) (get "video_url" obj));
      duration = or_else f.duration (or_else (get "duration_seconds" obj) (get "duration" obj));
    }

-- n in millionths
abbrev pub scale : ℤ → ℤ
scale (pos n) = pos (n * 1000000)
scale (negsuc n) = negsuc (n * 1000000 + 999999)

-- A status as `parse_fal_webhook_event` takes it, where it knows it.
unfoldable pub event_status : String → Option EventStatus
event_status s =
    if is_one_of s ("completed" ∷ "ok" ∷ "success" ∷ [])
    then some EventStatus.completed
    else if is_one_of s ("failed" ∷ "error" ∷ [])
    then some EventStatus.failed
    else if is_one_of s ("canceled" ∷ "cancelled" ∷ [])
    then some EventStatus.canceled
    else if str_eq s "in_progress"
    then some EventStatus.in_progress
    else none

abbrev pub status_value : EventStatus → String
status_value EventStatus.completed = "completed"
status_value EventStatus.failed = "failed"
status_value EventStatus.canceled = "canceled"
status_value EventStatus.in_progress = "in_progress"

-- A success whose payload fal could not serialise is a failure.
abbrev pub effective_status : Bool → EventStatus → EventStatus
effective_status true EventStatus.completed = EventStatus.failed
effective_status _ s = s

abbrev pub lacks_payload : Fields → Bool
lacks_payload d = not (truth (get "payload" d)) && truth (get "payload_error" d)

abbrev pub request_id_of : Fields → Json
request_id_of d = or_else (get "request_id" d) (or_else (get "requestId" d) (get "id" d))

-- `_ERROR_MESSAGE_MAX_LEN`
abbrev pub error_message_max_len : ℕ
error_message_max_len = 500

-- `payload or data.get("result") or data.get("output") or {}`, where it is an object
abbrev pub result_of : Fields → Fields
result_of d = as_dict (or_else (get "payload" d) (or_else (get "result" d) (get "output" d)))

module _ (platform : Platform) where
  open platform use {lower, show, dumps, parse_float}

  -- `str(value)`
  abbrev pub to_str : Json → String
  to_str (Json.str s) = s
  to_str v = show v

  -- `float(value)`, where the value is not None
  unfoldable pub to_float : Json → Result Json
  to_float Json.null = ok Json.null
  to_float (Json.bool b) = ok (Json.float (pos (if b then 1000000 else 0)))
  to_float (Json.int n) = ok (Json.float (scale n))
  to_float (Json.float n) = ok (Json.float n)
  to_float (Json.str s) = elim (parse_float s) [
    | none ↦ err (runtime_error "ValueError")
    | some n ↦ ok (Json.float n)
  ]
  to_float (Json.arr _) = err (runtime_error "TypeError")
  to_float (Json.obj _) = err (runtime_error "TypeError")

  -- `extract_media` of an object
  unfoldable pub extract_media : Fields → Result Found
  extract_media obj =
      let f = find_media obj in and_then (to_float f.duration) (λ d. ok (record f { duration = d }))

  abbrev pub payload_source : Json → Fields → Json
  payload_source Json.null payload = Json.obj payload
  payload_source detail payload = detail

  abbrev pub payload_message : Json → Option String
  payload_message (Json.obj p) =
      let source = payload_source (get "detail" p) p in
      if truth source then some (dumps source) else none
  payload_message _ = none

  -- `_resolve_error_message`
  unfoldable pub resolve_error_message : Fields → Option String
  resolve_error_message d =
      let candidate =
        or_else (get "error" d) (or_else (get "error_message" d) (get "payload_error" d)) in
      elim (if truth candidate
        then some (to_str candidate)
        else payload_message (get "payload" d)) [
          | none ↦ none
          | some m ↦ some (cut error_message_max_len m)
        ]

  abbrev pub top_error : Fields → Option String
  top_error d =
      let e = or_else (get "error" d) (get "error_message" d) in
      if truth e then some (to_str e) else none

  abbrev pub event_id_of : Fields → EventStatus → String
  event_id_of d status =
      let own = or_else (get "event_id" d) (get "eventId" d) in
      if truth own then to_str own else to_str (request_id_of d) ++ ":" ++ status_value status

  abbrev pub make_event : Fields → EventStatus → Found → Json → Option String → FalEvent
  make_event d status f stems message = record {
    request_id = to_str (request_id_of d);
    status = status;
    media_url = f.url;
    duration_seconds = f.duration;
    stems = stems;
    error_message = message;
    event_id = event_id_of d status;
  }

  unfoldable pub success_of : Fields → EventStatus → Result FalEvent
  success_of d status =
      let result = result_of d in
      and_then (extract_media result)
        (λ (f : Found). ok (make_event d status f (extract_stems result) (top_error d)))

  -- From the status on: a failure carries its reason, any other its media.
  unfoldable pub event_of : Fields → EventStatus → Result FalEvent
  event_of d EventStatus.failed = ok (
      make_event d EventStatus.failed (record { url = Json.null; duration = Json.null }) Json.null
        (resolve_error_message d))
  event_of d EventStatus.completed = success_of d EventStatus.completed
  event_of d EventStatus.canceled = success_of d EventStatus.canceled
  event_of d EventStatus.in_progress = success_of d EventStatus.in_progress

  -- `(data.get("status") or "").lower()`
  abbrev pub raw_status : Json → Result String
  raw_status (Json.str s) = ok (lower s)
  raw_status v = if truth v then err (runtime_error "AttributeError") else ok (lower "")

  abbrev pub parse_status : Fields → Option EventStatus → Result FalEvent
  parse_status d none = err (webhook_payload_invalid "unknown_status")
  parse_status d (some s) = event_of d (effective_status (lacks_payload d) s)

  abbrev pub parse_object : Json → Result FalEvent
  parse_object (Json.obj d) =
      if truth (request_id_of d)
      then and_then (raw_status (get "status" d)) (λ s. parse_status d (event_status s))
      else err (webhook_payload_invalid "no_request_id")
  parse_object _ = err (webhook_payload_invalid "not_object")

  -- `parse_fal_webhook_event`, from what `json.loads` gave
  unfoldable pub parse_fal_webhook_event : Option Json → Result FalEvent
  parse_fal_webhook_event none = err (webhook_payload_invalid "not_json")
  parse_fal_webhook_event (some body) = parse_object body
