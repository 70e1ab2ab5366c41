-- ===== src/Fal/Events.antt =====
-- What holds of an event that `parse_fal_webhook_event` read (app/domain/providers/fal/parsing.py).
use musicfy.Prelude.{
  ◌≤◌, String, ◌≡◌, refl, sym, ap, subst, Bool, true, false, Option, none, some, arith,
  if◌then◌else◌, Result, ok, err, size, cut, size-cut, and_then, ok_inj, webhook_payload_invalid,
}
use musicfy.Json.{get, Json, Fields, truth}
use musicfy.Fal.Parsing.{
  event_status, raw_status, parse_fal_webhook_event, parse_status, parse_object, effective_status,
  lacks_payload, to_str, event_of, success_of, request_id_of, resolve_error_message, FalEvent,
  EventStatus, completed, failed, canceled, in_progress,
}
use musicfy.Platform.{Platform}

abbrev pub IsShort : Option String → Type 0
IsShort none = Unit
IsShort (some m) = size m ≤ 500

-- What the status of an event says of the rest of it.
abbrev pub OfStatus : Fields → FalEvent → EventStatus → Type 0
OfStatus d e failed =
    (e.media_url ≡ Json.null)
    × (e.duration_seconds ≡ Json.null)
    × (e.stems ≡ Json.null)
    × IsShort e.error_message
OfStatus d e completed = lacks_payload d ≡ false
OfStatus d e canceled = Unit
OfStatus d e in_progress = Unit

-- The event that a body stands for.
pub record Reads (platform : Platform) (d : Fields) (e : FalEvent) : Type 0 where
  pub named : truth (request_id_of d) ≡ true
  pub request : e.request_id ≡ to_str platform (request_id_of d)
  pub of_status : OfStatus d e e.status

cut-IsShort : (o : Option String) → IsShort (elim o [ none ↦ none | some m ↦ some (cut 500 m) ])
cut-IsShort none = tt
cut-IsShort (some m) = size-cut 500 m

module _ (platform : Platform) where
  resolve_error_message-IsShort : (d : Fields) → IsShort (resolve_error_message platform d)
  unfolding resolve_error_message
  resolve_error_message-IsShort d = cut-IsShort _

  success_of-keeps :
      (d : Fields) (s : EventStatus) (e : FalEvent)
      → success_of platform d s ≡ ok e
      → (e.status ≡ s) × (e.request_id ≡ to_str platform (request_id_of d))
  unfolding success_of
  success_of-keeps d s e h = ground (arith)

  success_of-Reads :
      (d : Fields) (s : EventStatus) (e : FalEvent)
      → OfStatus d e s
      → truth (request_id_of d) ≡ true
      → success_of platform d s ≡ ok e
      → Reads platform d e
  success_of-Reads d s e o n h =
      let k = success_of-keeps d s e h in
      record { named = n; request = k.1; of_status = subst (OfStatus d e) (sym k.0) o }

  failure-Reads :
      (d : Fields) (e : FalEvent)
      → truth (request_id_of d) ≡ true
      → event_of platform d failed ≡ ok e
      → Reads platform d e
  unfolding event_of
  failure-Reads d e n h =
      subst (λ x. Reads platform d x) (ok_inj h)
        (record {
          named = n;
          request = refl;
          of_status = (refl, refl, refl, resolve_error_message-IsShort d);
        })

  event_of-Reads :
      (d : Fields) (lacks : Bool) (s : EventStatus) (e : FalEvent)
      → lacks_payload d ≡ lacks
      → truth (request_id_of d) ≡ true
      → event_of platform d (effective_status lacks s) ≡ ok e
      → Reads platform d e
  unfolding event_of
  event_of-Reads d true completed e l n h = failure-Reads d e n h
  event_of-Reads d false completed e l n h = success_of-Reads d completed e l n h
  event_of-Reads d true failed e l n h = failure-Reads d e n h
  event_of-Reads d false failed e l n h = failure-Reads d e n h
  event_of-Reads d true canceled e l n h = success_of-Reads d canceled e tt n h
  event_of-Reads d false canceled e l n h = success_of-Reads d canceled e tt n h
  event_of-Reads d true in_progress e l n h = success_of-Reads d in_progress e tt n h
  event_of-Reads d false in_progress e l n h = success_of-Reads d in_progress e tt n h

  parse_status-Reads :
      (d : Fields) (s : Option EventStatus) (e : FalEvent)
      → truth (request_id_of d) ≡ true
      → parse_status platform d s ≡ ok e
      → Reads platform d e
  parse_status-Reads d none e n h = cc
  parse_status-Reads d (some s) e n h = event_of-Reads d (lacks_payload d) s e refl n h

  raw_status-Reads :
      (d : Fields) (r : Result String) (e : FalEvent)
      → truth (request_id_of d) ≡ true
      → and_then r (λ s. parse_status platform d (event_status s)) ≡ ok e
      → Reads platform d e
  raw_status-Reads d (ok s) e n h = parse_status-Reads d (event_status s) e n h
  raw_status-Reads d (err x) e n h = cc

  named-Reads :
      (d : Fields) (named : Bool) (e : FalEvent)
      → truth (request_id_of d) ≡ named
      → (if named
          then and_then
              (raw_status platform (get "status" d))
              (λ s. parse_status platform d (event_status s))
          else err (webhook_payload_invalid "no_request_id"))
        ≡ ok e
      → Reads platform d e
  named-Reads d true e n h = raw_status-Reads d (raw_status platform (get "status" d)) e n h
  named-Reads d false e n h = cc

  parse_object-Reads :
      (body : Json) (e : FalEvent)
      → parse_object platform body ≡ ok e
      → (d : Fields) × (body ≡ Json.obj d) × Reads platform d e
  parse_object-Reads (Json.obj d) e h = (d, refl, named-Reads d (truth (request_id_of d)) e refl h)
  parse_object-Reads Json.null e h = cc
  parse_object-Reads (Json.bool b) e h = cc
  parse_object-Reads (Json.int n) e h = cc
  parse_object-Reads (Json.float n) e h = cc
  parse_object-Reads (Json.str s) e h = cc
  parse_object-Reads (Json.arr l) e h = cc

  -- A body that is read is an object with a request id. The event bears that id; where it is a failure
  -- it has no media and no stems, and a reason of 500 characters at most; where it is a completion,
  -- the payload is there or fal named no error in making it.
  pub parse_fal_webhook_event-Reads :
      (body : Option Json) (e : FalEvent)
      → parse_fal_webhook_event platform body ≡ ok e
      → (d : Fields) × (body ≡ some (Json.obj d)) × Reads platform d e
  unfolding parse_fal_webhook_event
  parse_fal_webhook_event-Reads none e h = cc
  parse_fal_webhook_event-Reads (some body) e h =
      let r = parse_object-Reads body e h in (r.0, ap some r.1, r.2)
