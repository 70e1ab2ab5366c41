-- ===== src/Delivery/Apart.antt =====
-- What a delivery leaves alone: the rows of other jobs (app/api/v1/webhooks.py, app/domain/services/poller.py).
use musicfy.Prelude.{
  ℕ, zero, suc, ◌≤◌, String, ◌≡◌, refl, ◌∙◌, Bool, true, false, ◌||◌, Option, none, some, [], ◌∷◌,
  arith, ◌==◌, Error, Result, ok, err, Action, pure, raise, ◌>>=◌, Table, fal_error,
}
use musicfy.Delivery.Webhook.{
  is_claimed, try_record, record_unless, stage_or_music, dispatch_event, deliver, after_claim,
  mark_applied, finish_event, apply_event,
}
use musicfy.Work.Repository.{find_by_request_id, get_job, list_active_with_request}
use musicfy.Delivery.Poller.{
  poll_limit, Fetch, apply_status, apply_fetched, poll_job, poll_all, poll_once,
}
use musicfy.Enums.{JobStage}
use musicfy.Work.Rows.{Job, Work}
use musicfy.Work.Frame.{Framed, Framed-pure, Framed-raise, frame_rules}
use musicfy.Fal.Parsing.{FalEvent, EventStatus, completed, failed, canceled, in_progress}
use musicfy.Fal.Calls.{FalStatus}
use musicfy.Delivery.Runner.{Deps}
use musicfy.Delivery.Frame.{Framed-advance_job, Framed-fail_job}

-- The row of the job `k` stays.
pub record KeepsRow {A : Type 0} (k : ℕ) (m : Action Work A) : Type 0 where
  pub at : (w : Work) → get_job k (m w).1 ≡ get_job k w

module _ {A : Type 0} (k : ℕ) where
  KeepsRow-Framed : (id : ℕ) (m : Action Work A) → (k == id) ≡ false → Framed id m → KeepsRow k m
  KeepsRow-Framed id m n f = record { at = λ w. (f.at w).others k n }

  KeepsRow-pure : (a : A) → KeepsRow k (pure a)
  KeepsRow-pure a = record { at = λ w. refl }

  KeepsRow-raise : (e : Error) → KeepsRow k (raise {A = A} e)
  KeepsRow-raise e = record { at = λ w. refl }

module _ {A B : Type 0} (k : ℕ) where
  continued :
      (r : Result A) (u w : Work) (f : A → Action Work B)
      → get_job k w ≡ get_job k u
      → ((a : A) → KeepsRow k (f a))
      → get_job k (((λ (_ : Work). (r, w)) >>= f) u).1 ≡ get_job k u
  continued (ok a) u w f h g = (g a).at w ∙ h
  continued (err x) u w f h g = h

  KeepsRow-bind :
      (m : Action Work A) (f : A → Action Work B)
      → KeepsRow k m
      → ((a : A) → KeepsRow k (f a))
      → KeepsRow k (m >>= f)
  KeepsRow-bind m f p g = record { at = λ w. continued (m w).0 w (m w).1 f (p.at w) g }

module _ (deps : Deps) (k : ℕ) where
  KeepsRow-finish_event : (e : FalEvent) → KeepsRow k (finish_event deps e)
  unfolding finish_event mark_applied
  KeepsRow-finish_event e = record { at = λ w. refl }

  KeepsRow-apply_event :
      (s : EventStatus) (e : FalEvent) (id : ℕ) (stage : JobStage)
      → (k == id) ≡ false
      → KeepsRow k (apply_event deps s e id stage)
  KeepsRow-apply_event completed e id stage n =
      KeepsRow-bind k _ _ (KeepsRow-Framed k id _ n (Framed-advance_job deps id stage _))
        (λ _. KeepsRow-finish_event e)
  KeepsRow-apply_event failed e id stage n =
      KeepsRow-bind k _ _ (KeepsRow-Framed k id _ n (Framed-fail_job deps id stage _ _))
        (λ _. KeepsRow-finish_event e)
  KeepsRow-apply_event canceled e id stage n =
      KeepsRow-bind k _ _ (KeepsRow-Framed k id _ n (Framed-fail_job deps id stage _ _))
        (λ _. KeepsRow-finish_event e)
  KeepsRow-apply_event in_progress e id stage n = KeepsRow-pure k _

  dispatch_event-row :
      (e : FalEvent) (o : Option (ℕ × Job)) (v : Work)
      → ((r : ℕ × Job) → o ≡ some r → (k == r.0) ≡ false)
      → get_job k (dispatch_event deps e o v).1 ≡ get_job k v
  dispatch_event-row e none v h = refl
  dispatch_event-row e (some r) v h =
      (KeepsRow-apply_event e.status e r.0 (stage_or_music r.1.current_stage) (h r refl)).at v

  after_claim-row :
      (e : FalEvent) (recorded : Bool) (v : Work)
      → ((r : ℕ × Job) → find_by_request_id e.request_id v.jobs ≡ some r → (k == r.0) ≡ false)
      → get_job k (after_claim deps e recorded v).1 ≡ get_job k v
  unfolding after_claim
  after_claim-row e true v h = dispatch_event-row e (find_by_request_id e.request_id v.jobs) v h
  after_claim-row e false v h = refl

recorded-row :
    (deps : Deps) (e : FalEvent) (k : ℕ) (b : Bool) (w : Work)
    → ((r : ℕ × Job) → find_by_request_id e.request_id w.jobs ≡ some r → (k == r.0) ≡ false)
    → get_job k ((record_unless b e.event_id >>= after_claim deps e) w).1 ≡ get_job k w
recorded-row deps e k true w h = after_claim-row deps k e false w h
recorded-row deps e k false w h =
    after_claim-row deps k e true (record_unless false e.event_id w).1 h

-- An event changes no row but that of the job that waits for its request: every other job stays as it
-- was, whatever the pipeline does with the event.
pub deliver_apart :
    (deps : Deps) (e : FalEvent) (w : Work) (k : ℕ)
    → ((r : ℕ × Job) → find_by_request_id e.request_id w.jobs ≡ some r → (k == r.0) ≡ false)
    → get_job k (deliver deps e w).1 ≡ get_job k w
unfolding deliver try_record
deliver_apart deps e w k h = recorded-row deps e k (is_claimed e.event_id w.webhooks) w h

-- Whether the job is one of these.
abbrev pub is_listed : ℕ → Table Job → Bool
is_listed k [] = false
is_listed k ((id, j) ∷ t) = k == id || is_listed k t

module _ (deps : Deps) (fetch : Fetch) where
  Framed-apply_status :
      (id : ℕ) (j : Job) (request_id : String) (r : FalStatus)
      → Framed id (apply_status deps fetch id j request_id r)
  unfolding apply_status
  Framed-apply_status id j request_id r = search (frame_rules, Framed-advance_job, Framed-fail_job)

  Framed-apply_fetched :
      (id : ℕ) (j : Job) (request_id : String) (r : Result FalStatus)
      → Framed id (apply_fetched deps fetch id j request_id r)
  Framed-apply_fetched id j request_id (ok r) = Framed-apply_status id j request_id r
  Framed-apply_fetched id j request_id (err (fal_error code message)) = Framed-pure id tt
  Framed-apply_fetched id j request_id (err _) = Framed-raise id _

  Framed-poll_job : (id : ℕ) (j : Job) → Framed id (poll_job deps fetch id j)
  unfolding poll_job
  Framed-poll_job id j = Framed-apply_fetched id j _ _

  poll_all-KeepsRow :
      (k : ℕ) (t : Table Job) → is_listed k t ≡ false → KeepsRow k (poll_all deps fetch t)
  unfolding poll_all
  poll_all-KeepsRow k [] h = KeepsRow-pure k tt
  poll_all-KeepsRow k ((id, j) ∷ t) h =
      KeepsRow-bind k _ _ (KeepsRow-Framed k id _ (ground arith) (Framed-poll_job id j))
        (λ _. poll_all-KeepsRow k t (ground arith))

-- The number of jobs in a list.
abbrev pub count_jobs : Table Job → ℕ
count_jobs [] = 0
count_jobs (r ∷ t) = suc (count_jobs t)

active_within : (n : ℕ) (t : Table Job) → count_jobs (list_active_with_request n t) ≤ n
unfolding list_active_with_request
active_within zero t = omega arith
active_within (suc n) [] = omega arith
active_within (suc n) ((id, j) ∷ t) = ground (arith, active_within n t, active_within (suc n) t)

-- The rows that a round of the poller may change are those of the jobs it lists, 50 at most; the row of every
-- other job stays as it was.
pub poll_once_limits :
    (deps : Deps) (fetch : Fetch) (w : Work) (k : ℕ)
    → is_listed k (list_active_with_request poll_limit w.jobs) ≡ false
    → (count_jobs (list_active_with_request poll_limit w.jobs) ≤ 50)
      × (get_job k (poll_once deps fetch w).1 ≡ get_job k w)
unfolding poll_once
poll_once_limits deps fetch w k h = (
  active_within 50 w.jobs,
  (poll_all-KeepsRow deps fetch k (list_active_with_request 50 w.jobs) h).at w,
)
