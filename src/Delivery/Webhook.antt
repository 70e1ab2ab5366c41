-- ===== src/Delivery/Webhook.antt =====
-- The webhook of fal (`fal_webhook` of app/api/v1/webhooks.py) over `WebhooksRepository`
-- (app/domain/repositories/webhooks.py). What is written of an event beside its id and outcome is never read.
use musicfy.Prelude.{
  ℕ, String, Bool, true, false, Option, none, some, List, [], ◌∷◌, str_eq, if◌then◌else◌, get_or,
  truthy, Result, ok, Action, pure, gets, branch, ◌>>=◌, ◌>>◌,
}
use musicfy.Voice.Pipeline.{lift}
use musicfy.Json.{Json, text_of}
use musicfy.Enums.{JobStage}
use musicfy.Work.Rows.{Job, Work, Webhook, received, applied}
use musicfy.Work.Repository.{find_by_request_id}
use musicfy.Work.Runtime.{Stage}
use musicfy.Fal.Parsing.{
  FalEvent, EventStatus, completed, failed, canceled, in_progress, parse_fal_webhook_event,
}
use musicfy.Delivery.Runner.{Deps, advance_job, fail_job}

abbrev pub is_claimed : String → List Webhook → Bool
is_claimed event_id [] = false
is_claimed event_id (h ∷ hs) = if str_eq h.event_id event_id then true else is_claimed event_id hs

abbrev pub record_unless : Bool → String → Action Work Bool
record_unless true event_id w = (ok false, w)
record_unless false event_id w = (
  ok true,
  record w { webhooks = record { event_id = event_id; outcome = received } ∷ w.webhooks },
)

-- `try_record`: whether the event is new
unfoldable pub try_record : String → Action Work Bool
try_record event_id w = record_unless (is_claimed event_id w.webhooks) event_id w

abbrev pub apply_rows : String → List Webhook → List Webhook
apply_rows event_id [] = []
apply_rows event_id (h ∷ hs) =
    (if str_eq h.event_id event_id then record h { outcome = applied } else h)
    ∷ apply_rows event_id hs

-- `mark_applied`
unfoldable pub mark_applied : String → Action Work (Unit {0})
mark_applied event_id w = (ok tt, record w { webhooks = apply_rows event_id w.webhooks })

-- The answers of the webhook.
pub data Answer : Type 0 where
  duplicate ignored ack accepted : Answer

-- `current_stage or JobStage.music_generation`
abbrev pub stage_or_music : Option JobStage → JobStage
stage_or_music none = JobStage.music_generation
stage_or_music (some s) = s

-- What the event says of the stage; its url is a text, as fal gives it.
abbrev pub stage_of : FalEvent → Stage
stage_of e = record {
  media_url = text_of e.media_url;
  duration_seconds = e.duration_seconds;
  stems = e.stems;
  event_id = e.event_id;
}

abbrev pub message_or : Option String → String → String
message_or message default = if truthy message then get_or default message else default

module _ (deps : Deps) where
  unfoldable pub finish_event : FalEvent → Action Work Answer
  finish_event e = do mark_applied e.event_id; pure accepted

  -- The branches on the status.
  abbrev pub apply_event : EventStatus → FalEvent → ℕ → JobStage → Action Work Answer
  apply_event completed e id stage = do advance_job deps id stage (stage_of e); finish_event e
  apply_event failed e id stage = do
    fail_job deps id stage "PROVIDER_FAILED" (message_or e.error_message "failed")
    finish_event e
  apply_event canceled e id stage = do
    fail_job deps id stage "PROVIDER_CANCELED" (message_or e.error_message "canceled")
    finish_event e
  apply_event in_progress e id stage = pure ack

  abbrev pub dispatch_event : FalEvent → Option (ℕ × Job) → Action Work Answer
  dispatch_event e none = pure ignored
  dispatch_event e (some r) = apply_event e.status e r.0 (stage_or_music r.1.current_stage)

  -- What follows the claim: the job that waits for the request is found, and told.
  unfoldable pub after_claim : FalEvent → Bool → Action Work Answer
  after_claim e recorded =
      branch recorded
        (do job ← gets (λ (w : Work). find_by_request_id e.request_id w.jobs); dispatch_event e job)
        (pure duplicate)

  -- The handler from the parsed event on: the claim is committed first.
  unfoldable pub deliver : FalEvent → Action Work Answer
  deliver e = try_record e.event_id >>= after_claim e

  -- `fal_webhook`, with the answer of the signature's check and the decoded body
  unfoldable pub fal_webhook : Result (Unit {0}) → Option Json → Action Work Answer
  fal_webhook verified body =
      lift verified >> (lift (parse_fal_webhook_event deps.platform body) >>= deliver)
