-- ===== src/Song/Late.antt =====
-- A failure that arrives for a song that is already out (app/domain/services/pipelines/song.py `fail`, which
-- looks at no status, and app/domain/services/pipelines/base.py `_mark_failed`).
use musicfy.Prelude.{ℕ, ◌+◌, max, String, ◌≡◌, subst, true, false, some, arith, truthy}
use musicfy.Work.Settle.{tracks_of, Settles}
use musicfy.Bank.{Wallet, Key, idempotency_exists, get_wallet}
use musicfy.Wallet.Balance.{available}
use musicfy.Wallet.Effects.{release-capture}
use musicfy.Json.{Fields}
use musicfy.Enums.{JobStage, JobStatus}
use musicfy.Platform.{Platform}
use musicfy.Provider.{Fal, Media}
use musicfy.Work.Rows.{Job, Work}
use musicfy.Work.Base.{Settings, reserved_of}
use musicfy.Work.Repository.{get_job, same_stage}
use musicfy.Work.Coins.{captured_coins}
use musicfy.Song.Finish.{finalize}
use musicfy.Song.Events.{fail}
use musicfy.Song.Settle.{output, finalize-Settles}
use musicfy.Song.Failures.{give_up_lem}

-- Where the coins of a finished song are settled and a failure of a stage other than the music arrives
-- later, the job turns to failed and the user has the price back, above what was there
-- before the end of the song; the track stays.
pub late_failure :
    (platform : Platform) (fal : Fal) (media : Media) (settings : Settings) (id : ℕ)
    (runtime : Fields) (j : Job) (x : Wallet) (stage : JobStage) (code message : String) (w : Work)
    → settings.has_credits ≡ true
    → get_job id w ≡ some j
    → get_wallet j.user_id w.bank ≡ some x
    → idempotency_exists (Key.release id) w.bank ≡ false
    → truthy (output media runtime).audio_url ≡ true
    → same_stage stage JobStage.music_generation ≡ false
    → let w1 = (finalize media settings id runtime w).1 in
      let j1 = record j {
        status = JobStatus.completed;
        captured_credits = captured_coins settings j;
      } in
      let w2 = (fail platform fal media settings id j1 stage code message w1).1 in
      (get_job id w1 ≡ some j1)
      × (get_job id w2 ≡ some (record j1 { status = JobStatus.failed; error_code = some code }))
      × (tracks_of id w2.tracks ≡ max 1 (tracks_of id w.tracks))
      × (available j.user_id w2.bank ≡ available j.user_id w.bank + j.reserved_credits)
unfolding fail
late_failure platform fal media settings id runtime j x stage code message w credits e here fresh
      audio other =
    let w1 = (finalize media settings id runtime w).1 in
    let j1 = record j {
      status = JobStatus.completed;
      captured_credits = captured_coins settings j;
    } in
    let s =
      subst (λ t. Settles settings id j w t (finalize media settings id runtime w)) audio
        (finalize-Settles media settings id runtime j w e) in
    let g = give_up_lem platform fal media settings id j1 stage code w1 s.1 in
    ground (arith, s, g, other, credits, release-capture (reserved_of id j) x w.bank fresh here)
