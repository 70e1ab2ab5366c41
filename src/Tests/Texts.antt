-- ===== src/Tests/Texts.antt =====
-- Lyrics and a merge, on the store of the tests.
use musicfy.Prelude.{
  ◌+◌, ◌≡◌, refl, true, none, some, [], ◌∷◌, arith, ok, err, is_ok, lookup, invalid_session,
  fal_error,
}
use musicfy.Tests.Data.{runtime, song, paid, store, provider, studio, lyrics_price}
use musicfy.Enums.{JobStatus}
use musicfy.Work.Rows.{Job, Work}
use musicfy.Work.Repository.{get_job}
use musicfy.Recovery.{recover_orphan_jobs}
use musicfy.Recovery.Laws.{recover_orphan_jobs_effect}
use musicfy.Sessions.{Site, create_guest, logout, resolve}
use musicfy.Sessions.Laws.{Opens, resolve-create_guest, resolve-logout}
use musicfy.Json.{Json}
use musicfy.Bank.{Bank}
use musicfy.Wallet.{charge}
use musicfy.Wallet.Balance.{available}
use musicfy.Wallet.Effects.{price}
use musicfy.Provider.{Fal}
use musicfy.Work.Base.{failure}
use musicfy.Lyrics.{Desk, Draft, generated, generate}
use musicfy.Lyrics.Saga.{generate_failed, generate_done, generate_retried}

abbrev shop : Bank
shop = record store { prices = lyrics_price ∷ [] }

abbrev poem : Draft
poem = record { user_id = 1; content = "old"; source = generated }

abbrev desk : Desk
desk = record { bank = shop; drafts = (3, poem) ∷ [] }

abbrev broken_provider : Fal
broken_provider = record provider { generate_lyrics = λ _ _ _ _. failure "FAL_TIMEOUT" "slow" }

generate_failed_example :
    let r = generate broken_provider 1 "k" 4 Json.null Json.null Json.null Json.null desk in
    (r.0 ≡ err (fal_error "FAL_TIMEOUT" "slow"))
    × (available 1 r.1.bank ≡ available 1 desk.bank)
    × (r.1.drafts ≡ desk.drafts)
unfolding charge
generate_failed_example =
    generate_failed broken_provider 1 1 "k" 4 Json.null Json.null Json.null Json.null desk refl refl
      refl refl

generate_done_example :
    let draft : Draft = record { user_id = 1; content = "la la la"; source = generated } in
    let r = generate provider 1 "k" 4 Json.null Json.null Json.null Json.null desk in
    (r.0 ≡ ok draft)
    × (lookup 4 r.1.drafts ≡ some draft)
    × (available 1 r.1.bank + price "lyrics" desk.bank ≡ available 1 desk.bank)
unfolding charge
generate_done_example =
    generate_done provider 1 1 "k" 4 Json.null Json.null Json.null Json.null desk refl refl refl

generate_retried_example :
    let d1 = (generate broken_provider 1 "k" 4 Json.null Json.null Json.null Json.null desk).1 in
    let r = generate provider 1 "k" 4 Json.null Json.null Json.null Json.null d1 in
    (r.0 ≡ ok (record { user_id = 1; content = "la la la"; source = generated }))
    × (available 1 r.1.bank ≡ available 1 desk.bank)
unfolding charge
generate_retried_example =
    generate_retried broken_provider provider 1 1 "k" 4 Json.null Json.null Json.null Json.null desk
      refl refl refl refl refl

-- A song that was never handed to the provider.
abbrev lost_song : Job
lost_song = record song { provider_request_id = none }

abbrev lost_studio : Work
lost_studio = record studio { jobs = (7, lost_song) ∷ [] }

recover_orphan_jobs_effect_example :
    (is_ok (recover_orphan_jobs paid lost_studio).0 ≡ true)
    × (get_job 7 (recover_orphan_jobs paid lost_studio).1
        ≡ some
            (record lost_song { status = JobStatus.failed; error_code = some "STARTUP_RECOVERY" }))
recover_orphan_jobs_effect_example =
    recover_orphan_jobs_effect paid 7 lost_song lost_studio refl refl

-- No user yet.
abbrev site : Site
site = record { users = []; identities = []; sessions = [] }

resolve-create_guest_example :
    Opens runtime 60 50 3 (create_guest runtime 60 10 1 3 (some "phone") site)
resolve-create_guest_example =
    resolve-create_guest runtime 60 10 50 1 3 (some "phone") site (omega arith)

resolve-logout_example :
    let s = (logout 20 3 (create_guest runtime 60 10 1 3 (some "phone") site).1).1 in
    resolve 50 3 s ≡ (err invalid_session, s)
resolve-logout_example =
    resolve-logout 20 50 3 (create_guest runtime 60 10 1 3 (some "phone") site).1
