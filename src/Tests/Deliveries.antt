-- ===== src/Tests/Deliveries.antt =====
-- Events, rounds of the poller and new jobs on the store of the tests.
use musicfy.Prelude.{◌≤◌, ◌≡◌, refl, sym, ap, false, none, some, ◌==◌, ok, err}
use musicfy.Json.{Json}
use musicfy.Fal.Http.{fal_timeout}
use musicfy.Delivery.Webhook.{deliver, duplicate}
use musicfy.Delivery.Poller.{poll_once, poll_round}
use musicfy.Delivery.Once.{deliver_once, poll, here, next}
use musicfy.Delivery.Apart.{deliver_apart, poll_once_limits, count_jobs}
use musicfy.Work.Repository.{list_active_with_request, get_job}
use musicfy.Tests.Data.{studio}
use musicfy.Tests.Outside.{world, music_event}

deliver_once_example :
    let v =
      (poll_round world (λ _ _ _ _. err fal_timeout) (deliver world music_event studio).1).1 in
    deliver world music_event v ≡ (ok duplicate, v)
deliver_once_example =
    deliver_once world music_event studio (next here (poll (λ _ _ _ _. err fal_timeout)))

deliver_apart_example : get_job 8 (deliver world music_event studio).1 ≡ get_job 8 studio
deliver_apart_example =
    deliver_apart world music_event studio 8
      (λ r h. ap (λ o. elim o [ none ↦ false | some x ↦ 8 == x.0 ]) (sym h))

poll_once_limits_example :
    (count_jobs (list_active_with_request 50 studio.jobs) ≤ 50)
    × (get_job 8 (poll_once world (λ _ _ _ _. err fal_timeout) studio).1 ≡ get_job 8 studio)
unfolding list_active_with_request
poll_once_limits_example = poll_once_limits world (λ _ _ _ _. err fal_timeout) studio 8 refl
