-- ===== src/Delivery/Once.antt =====
-- An event of fal is applied once, whatever comes between its deliveries (app/api/v1/webhooks.py).
use musicfy.Prelude.{
  ℕ, String, ◌≡◌, refl, ap, Bool, true, false, Option, none, some, List, [], ◌∷◌, arith, Result, ok,
  err, ◌>>=◌, Table, fal_error,
}
use musicfy.Delivery.Webhook.{
  after_claim, duplicate, is_claimed, record_unless, try_record, apply_rows, mark_applied,
  finish_event, deliver, fal_webhook, apply_event, dispatch_event,
}
use musicfy.Delivery.Claims.{
  continued, Grows-raise, Grows-gets, Grows-then, Grows-catch, Grows-bind, Grows-pure, Grows-Framed,
  Grows, grow_rules,
}
use text.Mathlib.TextPositions.{eq_refl}
use musicfy.Delivery.Runner.{advance_job, fail_job, Deps, start_job}
use musicfy.Work.Runtime.{Stage}
use musicfy.Enums.{JobStage}
use musicfy.Json.{Json}
use musicfy.Work.Rows.{Job, Work, Webhook}
use musicfy.Fal.Parsing.{FalEvent, EventStatus, completed, failed, canceled, in_progress}
use musicfy.Fal.Calls.{FalStatus}
use musicfy.Delivery.Frame.{Framed-start_job, Framed-advance_job, Framed-fail_job}
use musicfy.Delivery.Poller.{
  Fetch, apply_status, apply_fetched, poll_job, poll_all, poll_once, poll_round,
}

apply_rows_lem :
    (e event_id : String) (l : List Webhook)
    → is_claimed e l ≡ true
    → is_claimed e (apply_rows event_id l) ≡ true
apply_rows_lem e event_id [] h = cc
apply_rows_lem e event_id (r ∷ l) h = ground (arith, apply_rows_lem e event_id l)

Grows-mark_applied : (event_id : String) → Grows (mark_applied event_id)
unfolding mark_applied
Grows-mark_applied event_id = record { at = λ w e h. apply_rows_lem e event_id w.webhooks h }

record_unless-Grows : (b : Bool) (event_id : String) → Grows (record_unless b event_id)
record_unless-Grows true event_id = record { at = λ w e h. h }
record_unless-Grows false event_id = record { at = λ w e h. ground (arith, h) }

Grows-try_record : (event_id : String) → Grows (try_record event_id)
unfolding try_record
Grows-try_record event_id = record {
  at = λ w. (record_unless-Grows (is_claimed event_id w.webhooks) event_id).at w;
}

module _ (deps : Deps) where
  Grows-advance_job : (id : ℕ) (stage : JobStage) (r : Stage) → Grows (advance_job deps id stage r)
  Grows-advance_job id stage r = Grows-Framed id _ (Framed-advance_job deps id stage r)

  Grows-fail_job :
      (id : ℕ) (stage : JobStage) (code message : String)
      → Grows (fail_job deps id stage code message)
  Grows-fail_job id stage code message =
      Grows-Framed id _ (Framed-fail_job deps id stage code message)

  Grows-start_job : (id : ℕ) (j : Job) → Grows (start_job deps id j)
  Grows-start_job id j = Grows-Framed id _ (Framed-start_job deps id j)

  Grows-finish_event : (e : FalEvent) → Grows (finish_event deps e)
  unfolding finish_event
  Grows-finish_event e = search (grow_rules, Grows-mark_applied)

  Grows-apply_event :
      (s : EventStatus) (e : FalEvent) (id : ℕ) (stage : JobStage)
      → Grows (apply_event deps s e id stage)
  Grows-apply_event completed e id stage =
      search (grow_rules, Grows-finish_event, Grows-advance_job)
  Grows-apply_event failed e id stage = search (grow_rules, Grows-finish_event, Grows-fail_job)
  Grows-apply_event canceled e id stage = search (grow_rules, Grows-finish_event, Grows-fail_job)
  Grows-apply_event in_progress e id stage = search grow_rules

  Grows-dispatch_event : (e : FalEvent) (o : Option (ℕ × Job)) → Grows (dispatch_event deps e o)
  Grows-dispatch_event e none = search grow_rules
  Grows-dispatch_event e (some r) = Grows-apply_event e.status e r.0 _

  Grows-after_claim : (e : FalEvent) (recorded : Bool) → Grows (after_claim deps e recorded)
  unfolding after_claim
  Grows-after_claim e recorded = search (grow_rules, Grows-dispatch_event)

  Grows-deliver : (e : FalEvent) → Grows (deliver deps e)
  unfolding deliver
  Grows-deliver e = Grows-bind _ _ (Grows-try_record e.event_id) (Grows-after_claim e)

  Grows-fal_webhook :
      (verified : Result (Unit {0})) (body : Option Json) → Grows (fal_webhook deps verified body)
  unfolding fal_webhook
  Grows-fal_webhook verified body = search (grow_rules, Grows-deliver)

module _ (deps : Deps) (fetch : Fetch) where
  Grows-apply_status :
      (id : ℕ) (j : Job) (request_id : String) (r : FalStatus)
      → Grows (apply_status deps fetch id j request_id r)
  unfolding apply_status
  Grows-apply_status id j request_id r = search (grow_rules, Grows-advance_job, Grows-fail_job)

  Grows-apply_fetched :
      (id : ℕ) (j : Job) (request_id : String) (r : Result FalStatus)
      → Grows (apply_fetched deps fetch id j request_id r)
  Grows-apply_fetched id j request_id (ok r) = Grows-apply_status id j request_id r
  Grows-apply_fetched id j request_id (err (fal_error code message)) = Grows-pure tt
  Grows-apply_fetched id j request_id (err _) = Grows-raise _

  Grows-poll_job : (id : ℕ) (j : Job) → Grows (poll_job deps fetch id j)
  unfolding poll_job
  Grows-poll_job id j = Grows-apply_fetched id j _ _

  Grows-poll_all : (t : Table Job) → Grows (poll_all deps fetch t)
  unfolding poll_all
  Grows-poll_all [] = Grows-pure tt
  Grows-poll_all ((id, j) ∷ t) = Grows-then _ _ (Grows-poll_job id j) (Grows-poll_all t)

  Grows-poll_once : Grows (poll_once deps fetch)
  unfolding poll_once
  Grows-poll_once = Grows-bind _ _ (Grows-gets _) Grows-poll_all

  Grows-poll_round : Grows (poll_round deps fetch)
  unfolding poll_round
  Grows-poll_round = Grows-catch _ _ Grows-poll_once (λ x. Grows-pure tt)

-- What the program does with the store, in any order: a webhook of fal comes, the poller makes a round
-- with whatever fal answers, or a job that was made is started.
pub data Step (deps : Deps) (w : Work) : Work → Type 0 where
  webhook :
      (verified : Result (Unit {0})) (body : Option Json)
      → Step deps w (fal_webhook deps verified body w).1
  poll : (fetch : Fetch) → Step deps w (poll_round deps fetch w).1
  start : (id : ℕ) (j : Job) → Step deps w (start_job deps id j w).1

pub data Reach (deps : Deps) (w : Work) : Work → Type 0 where
  here : Reach deps w w
  next : {u v : Work} → Reach deps w u → Step deps u v → Reach deps w v

Step-claimed :
    (deps : Deps) {u v : Work} (e : String)
    → Step deps u v
    → is_claimed e u.webhooks ≡ true
    → is_claimed e v.webhooks ≡ true
Step-claimed deps {u} e (webhook verified body) h = (Grows-fal_webhook deps verified body).at u e h
Step-claimed deps {u} e (poll fetch) h = (Grows-poll_round deps fetch).at u e h
Step-claimed deps {u} e (start id j) h = (Grows-start_job deps id j).at u e h

Reach-claimed :
    (deps : Deps) {u v : Work} (e : String)
    → Reach deps u v
    → is_claimed e u.webhooks ≡ true
    → is_claimed e v.webhooks ≡ true
Reach-claimed deps e here h = h
Reach-claimed deps e (next r s) h = Step-claimed deps e s (Reach-claimed deps e r h)

record_unless-claimed :
    (b : Bool) (event_id : String) (w : Work)
    → is_claimed event_id w.webhooks ≡ b
    → is_claimed event_id (record_unless b event_id w).1.webhooks ≡ true
record_unless-claimed true event_id w h = h
record_unless-claimed false event_id w h = rw (eq_refl event_id)

try_record-claimed :
    (event_id : String) (w : Work) → is_claimed event_id (try_record event_id w).1.webhooks ≡ true
unfolding try_record
try_record-claimed event_id w = record_unless-claimed _ event_id w refl

deliver-claimed :
    (deps : Deps) (e : FalEvent) (w : Work)
    → is_claimed e.event_id (deliver deps e w).1.webhooks ≡ true
unfolding deliver
deliver-claimed deps e w =
    continued (try_record e.event_id w).0 (try_record e.event_id w).1 (after_claim deps e)
      e.event_id (try_record-claimed e.event_id w) (Grows-after_claim deps e)

try_record_again :
    (event_id : String) (w : Work)
    → is_claimed event_id w.webhooks ≡ true
    → try_record event_id w ≡ (ok false, w)
unfolding try_record
try_record_again event_id w h = rw h

claimed_again :
    (deps : Deps) (e : FalEvent) (w : Work)
    → is_claimed e.event_id w.webhooks ≡ true
    → deliver deps e w ≡ (ok duplicate, w)
unfolding deliver after_claim
claimed_again deps e w h =
    ap (λ (p : Result Bool × Work). ((λ (_ : Work). p) >>= after_claim deps e) w)
      (try_record_again e.event_id w h)

-- An event of fal that was delivered once is never applied again: in every state that any webhooks, rounds
-- of the poller and starts of jobs lead to, its next delivery is answered as a duplicate and writes
-- nothing.
pub deliver_once :
    (deps : Deps) (e : FalEvent) (w : Work) {v : Work}
    → Reach deps (deliver deps e w).1 v
    → deliver deps e v ≡ (ok duplicate, v)
deliver_once deps e w {v} r =
    claimed_again deps e v (Reach-claimed deps e.event_id r (deliver-claimed deps e w))
