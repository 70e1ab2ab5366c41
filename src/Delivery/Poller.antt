-- ===== src/Delivery/Poller.antt =====
-- `FalPoller` (app/domain/services/poller.py): one round over the jobs that wait for fal. The clock that starts
-- a round is outside.
use musicfy.Prelude.{
  ℕ, String, ◌||◌, Option, [], ◌∷◌, str_eq, if◌then◌else◌, get_or, Result, ok, err, Action, pure,
  raise, gets, catch, branch, ◌>>=◌, ◌>>◌, Table, fal_error,
}
use musicfy.Json.{text_of, get}
use musicfy.Work.Rows.{Job, Work}
use musicfy.Work.Repository.{list_active_with_request}
use musicfy.Work.Runtime.{Stage}
use musicfy.Fal.Calls.{FalStatus}
use musicfy.Delivery.Runner.{Deps, advance_job, fail_job}
use musicfy.Delivery.Webhook.{stage_or_music, message_or}
use Prim.Native.String.{◌++◌}

-- `fetch_status` of the provider: model, request id, status url, response url
abbrev pub Fetch : Type 0
Fetch = Option String → String → Option String → Option String → Result FalStatus

abbrev pub polled : String → FalStatus → Stage
polled request_id r = record {
  media_url = text_of r.media_url;
  duration_seconds = r.duration_seconds;
  stems = r.stems;
  event_id = "poll:" ++ request_id;
}

-- The `limit` of `_poll_once`
abbrev pub poll_limit : ℕ
poll_limit = 50

module _ (deps : Deps) (fetch : Fetch) where
  -- `_apply`, with the snapshot of the job
  unfoldable pub apply_status : ℕ → Job → String → FalStatus → Action Work (Unit {0})
  apply_status id j request_id r =
      let status = deps.platform.upper r.status in
      let stage = stage_or_music j.current_stage in
      branch (str_eq status "IN_QUEUE" || str_eq status "IN_PROGRESS") (pure tt) (
        branch (str_eq status "COMPLETED") (advance_job deps id stage (polled request_id r)) (
          branch (str_eq status "FAILED" || str_eq status "CANCELED" || str_eq status "ERROR")
            (fail_job deps id stage
              (if str_eq status "CANCELED" then "PROVIDER_CANCELED" else "PROVIDER_FAILED")
              (message_or r.error_message status))
            (pure tt)))

  -- `FalProviderError` and `FalTimeout` skip the job; any other error ends the round.
  abbrev pub apply_fetched : ℕ → Job → String → Result FalStatus → Action Work (Unit {0})
  apply_fetched id j request_id (ok r) = apply_status id j request_id r
  apply_fetched id j request_id (err (fal_error _ _)) = pure tt
  apply_fetched id j request_id (err e) = raise e

  unfoldable pub poll_job : ℕ → Job → Action Work (Unit {0})
  poll_job id j =
      let request_id = get_or "" j.provider_request_id in
      apply_fetched id j request_id (
        fetch j.provider_model request_id (text_of (get "_fal_status_url" j.input_payload))
          (text_of (get "_fal_response_url" j.input_payload)))

  -- The loop over the snapshots.
  unfoldable pub poll_all : Table Job → Action Work (Unit {0})
  poll_all [] = pure tt
  poll_all ((id, j) ∷ t) = poll_job id j >> poll_all t

  -- `_poll_once`
  unfoldable pub poll_once : Action Work (Unit {0})
  poll_once = do
    snapshots ← gets (λ (w : Work). list_active_with_request poll_limit w.jobs)
    poll_all snapshots

  -- One round of `_run`: what a round raises is logged.
  unfoldable pub poll_round : Action Work (Unit {0})
  poll_round = catch poll_once (λ _. pure tt)
