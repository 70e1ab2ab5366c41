-- ===== src/Generation/Making.antt =====
-- How the making of a song's job ends (app/domain/services/generation_service.py, from the reservation on).
use musicfy.Prelude.{
  ℕ, ◌+◌, ◌<◌, String, ◌≡◌, refl, sym, ap, ◌∙◌, subst, ◌⊎◌, inl, inr, Bool, true, false, none, some,
  arith, ◌==◌, Error, Result, ok, err, pure, raise, catch, branch, ◌>>=◌, ◌>>◌, insert,
  lookup-insert, runtime_error, insufficient_credits, fal_error,
}
use musicfy.Generation.Service.{
  type_name, reserve_coins, make_job, provider_model, new_job, create_row, make_reserved,
  JobRequest, start_failed, start_or_undo, Generator, undo_start,
}
use musicfy.Work.Repository.{on_bank, get_job, set_failed}
use musicfy.Wallet.Effects.{release-reserve, reserve_effect, Reserves, price}
use musicfy.Bank.{Key, idempotency_exists, Bank}
use musicfy.Song.Starts.{start-Starts, Starts}
use musicfy.Wallet.Balance.{reserved, available}
use musicfy.Delivery.Runner.{start_of, start_job}
use musicfy.Wallet.{reserve, Reserved, release}
use musicfy.Song.Start.{start}
use musicfy.Json.{Fields}
use musicfy.Enums.{JobType, JobStage, JobStatus}
use musicfy.Work.Rows.{Job, Work}
use musicfy.Work.Coins.{release_lem}
use musicfy.Work.Base.{reserved_of}

release_nothing :
    (r : Reserved) (b : Bank) → (r.reserved_credits == 0) ≡ true → release r b ≡ (ok tt, b)
unfolding release
release_nothing r b h = rw h

module _ (g : Generator) (paid : g.deps.settings.has_credits ≡ true) where
  -- The coins go back and the job is failed, whatever became of its row.
  undo_start_lem :
      (id : ℕ) (j k : Job) (code : String) (v : Work)
      → get_job id v ≡ some k
      → ((undo_start g id j code v).0 ≡ ok tt)
        × ((undo_start g id j code v).1.bank ≡ (release (reserved_of id j) v.bank).1)
        × (get_job id (undo_start g id j code v).1
            ≡ some (record k { status = JobStatus.failed; error_code = some code }))
  unfolding undo_start set_failed
  undo_start_lem id j k code v e = grind (
    arith,
    lookup-insert,
    release_lem (reserved_of id j) v.bank,
    release_nothing (reserved_of id j) v.bank,
  )

  -- A job that runs, with its coins reserved and no request sent for its music, after an error of the client.
  abbrev pub LeftOver : ℕ → Error → ℕ → Work → Type 0
  LeftOver p e id v =
      (x : String) × (e ≡ runtime_error x)
      × ((k : Job) × (get_job id v ≡ some k)
          × (k.status ≡ JobStatus.running)
          × (k.provider_request_id ≡ none)
          × (k.reserved_credits ≡ p))

  -- How the start of a new song ends, with what is undone of a failed one. An error of the client that the
  -- service does not catch leaves the job running and its coins reserved.
  abbrev Started : ℕ → Job → Work → Result (Unit {0}) × Work → Type 0
  Started id j w (ok _, v) =
      (v.bank ≡ w.bank)
      × ((k : Job) × (get_job id v ≡ some k)
          × (k.status ≡ JobStatus.running)
          × (k.current_stage ≡ some JobStage.music_generation)
          × (k.reserved_credits ≡ j.reserved_credits))
  Started id j w (err e, v) =
      ((v.bank ≡ (release (reserved_of id j) w.bank).1)
        × ((code : String) × (message : String) × (e ≡ fal_error code message)
            × ((k : Job) × (get_job id v ≡ some k)
                × (k.status ≡ JobStatus.failed)
                × (k.error_code ≡ some code))))
      ⊎ ((v.bank ≡ w.bank) × LeftOver j.reserved_credits e id v)

  undone-Started :
      (id : ℕ) (j k : Job) (code message : String) (w v : Work)
      → get_job id v ≡ some k
      → v.bank ≡ w.bank
      → Started id j w (start_failed g id j (fal_error code message) v)
  undone-Started id j k code message w v e b =
      let u = undo_start_lem id j k code v e in
      let k' = record k { status = JobStatus.failed; error_code = some code } in
      subst
        (λ (x : Result (Unit {0})).
          Started id j w (
            ((λ (_ : Work). (x, (undo_start g id j code v).1)) >> raise (fal_error code message))
              v))
        (sym u.0)
        (inl (
          u.1 ∙ ap (λ (c : Bank). (release (reserved_of id j) c).1) b,
          (code, message, refl, (k', u.2, refl, refl)),
        ))

  caught-Started :
      (id : ℕ) (j : Job) (r : Result (Unit {0})) (w v : Work)
      → j.provider_request_id ≡ none
      → Starts id j w (r, v)
      → Started id j w (catch (λ (_ : Work). (r, v)) (start_failed g id j) w)
  caught-Started id j (ok a) w v n (p, q, c) = (c.0, (_, c.2, refl, refl, refl))
  caught-Started id j (err e) w v n (inr (x, q), p, c) =
      subst (λ x. Started id j w (start_failed g id j x v)) (sym q)
        (inr (c.0, (x, refl, (_, c.2, refl, n, refl))))
  caught-Started id j (err e) w v n (inl (code, message, q), p, c) =
      subst (λ x. Started id j w (start_failed g id j x v)) (sym q)
        (undone-Started id j _ code message w v c.2 c.0)

  start_or_undo-Started :
      (id : ℕ) (j : Job) (w : Work)
      → get_job id w ≡ some j
      → j.job_type ≡ JobType.song
      → j.provider_request_id ≡ none
      → Started id j w (start_or_undo g id j w)
  unfolding start_or_undo start_job
  start_or_undo-Started id j w e song n =
      let s = start g.deps.platform g.deps.fal id j w in
      subst (λ t. Started id j w (catch (start_of g.deps t id j) (start_failed g id j) w))
        (sym song)
        (caught-Started id j s.0 w s.1 n (start-Starts g.deps.platform g.deps.fal id j w e))

  -- How the making of a song's job ends, at the price `p`: the coins are reserved and the job runs; or the
  -- coins are too few, and nothing is written; or the provider failed, the coins are back and the job is
  -- failed; or the client raised another error, and the job is left with its coins reserved.
  abbrev pub Makes : ℕ → JobRequest → ℕ → Work → Result (ℕ × Bool) × Work → Type 0
  Makes id r p w (ok a, v) =
      (a ≡ (id, false))
      × (available r.user_id v.bank + p ≡ available r.user_id w.bank)
      × (reserved r.user_id v.bank ≡ reserved r.user_id w.bank + p)
      × ((k : Job) × (get_job id v ≡ some k)
          × (k.status ≡ JobStatus.running)
          × (k.current_stage ≡ some JobStage.music_generation)
          × (k.reserved_credits ≡ p))
  Makes id r p w (err e, v) =
      (e ≡ insufficient_credits p (available r.user_id w.bank))
        × (available r.user_id w.bank < p)
        × (v ≡ w)
      ⊎ (((available r.user_id v.bank ≡ available r.user_id w.bank)
            × (reserved r.user_id v.bank ≡ reserved r.user_id w.bank)
            × ((code : String) × (message : String) × (e ≡ fal_error code message)
                × ((k : Job) × (get_job id v ≡ some k)
                    × (k.status ≡ JobStatus.failed)
                    × (k.error_code ≡ some code))))
          ⊎ ((available r.user_id v.bank + p ≡ available r.user_id w.bank)
              × (reserved r.user_id v.bank ≡ reserved r.user_id w.bank + p)
              × LeftOver p e id v))

  module _ (id : ℕ) (r : JobRequest) (payload : Fields) (song : r.job_type ≡ JobType.song) where
    finished-Makes :
        (x : Result (Unit {0})) (n : ℕ) (j : Job) (w w1 v : Work)
        → (reserve r.user_id "song" w.bank) ≡ (ok n, w1.bank)
        → j.reserved_credits ≡ n
        → j.user_id ≡ r.user_id
        → idempotency_exists (Key.release id) w.bank ≡ false
        → Started id j w1 (x, v)
        → Makes id r (price "song" w.bank) w (((λ (_ : Work). (x, v)) >> pure (id, false)) w1)
    finished-Makes (ok a) n j w w1 v e c u fresh s =
        let f =
          subst (λ x. Reserves r.user_id (price "song" w.bank) w.bank x) e
            (reserve_effect r.user_id "song" w.bank) in
        (
          refl,
          ap (λ b. available r.user_id b + price "song" w.bank) s.0 ∙ f.1,
          ap (λ b. reserved r.user_id b) s.0 ∙ f.2,
          (s.1.0, s.1.1, s.1.2, s.1.3, s.1.4 ∙ c ∙ f.0),
        )
    finished-Makes (err a) n j w w1 v e c u fresh (inr (b, (x, q, (k, h, t, o, d)))) =
        let f =
          subst (λ x. Reserves r.user_id (price "song" w.bank) w.bank x) e
            (reserve_effect r.user_id "song" w.bank) in
        inr (
          inr (
            ap (λ b. available r.user_id b + price "song" w.bank) b ∙ f.1,
            ap (λ b. reserved r.user_id b) b ∙ f.2,
            (x, q, (k, h, t, o, d ∙ c ∙ f.0)),
          ))
    finished-Makes (err a) n j w w1 v e c u fresh (inl s) =
        let f =
          subst (λ x. Reserves r.user_id (price "song" w.bank) w.bank x) e
            (reserve_effect r.user_id "song" w.bank) in
        let back =
          release-reserve r.user_id id "song" w.bank
            (ap (λ (x : Result ℕ × Bank). x.0) e ∙ ap ok f.0) fresh in
        let same : v.bank
            ≡ (release
                (record { id = id; user_id = r.user_id; reserved_credits = price "song" w.bank })
                (reserve r.user_id "song" w.bank).1).1 =
          s.0 ∙ (λ i.
            (release (record { id = id; user_id = u i; reserved_credits = (c ∙ f.0) i })
              ((sym e) i).1).1) in
        inr (
          inl (
            ap (λ b. available r.user_id b) same ∙ back.0,
            ap (λ b. reserved r.user_id b) same ∙ back.1,
            (s.1.0, s.1.1, s.1.2, s.1.3),
          ))

    reserved-Makes :
        (x : Result ℕ) (b : Bank) (w : Work)
        → reserve r.user_id "song" w.bank ≡ (x, b)
        → idempotency_exists (Key.release id) w.bank ≡ false
        → Makes id r
            (price "song" w.bank)
            w
            (((λ (_ : Work). (x, record w { bank = b })) >>= make_reserved g id r payload) w)
    unfolding make_reserved create_row
    reserved-Makes (ok n) b w e fresh =
        let j =
          new_job r.user_id r.job_type payload (provider_model g r.job_type payload) n r.store_stems
            r.key in
        let w1 : Work = record w { bank = b; jobs = insert id j w.jobs } in
        let s = start_or_undo g id j w1 in
        finished-Makes s.0 n j w w1 s.1 e refl refl fresh
          (start_or_undo-Started id j w1 (ground (arith, lookup-insert id id j w.jobs)) song refl)
    reserved-Makes (err a) b w e fresh =
        let f =
          subst (λ x. Reserves r.user_id (price "song" w.bank) w.bank x) e
            (reserve_effect r.user_id "song" w.bank) in
        inl (f.0, f.1, ap (λ (c : Bank). record w { bank = c }) f.2)

    -- The making of a song's job by a service that takes coins, under an id whose coins were not
    -- released before, ends in one of four ways: the price is
    -- reserved and the job runs with its music sent; the price is more than the user has, and nothing
    -- is written; or the provider failed, the user has the coins back, and the job is failed with the
    -- error that is raised; or another error of the client is raised, and the job is left running with the
    -- price reserved.
    pub make_job-Makes :
        (w : Work)
        → idempotency_exists (Key.release id) w.bank ≡ false
        → Makes id r (price "song" w.bank) w (make_job g id r payload w)
    unfolding make_job reserve_coins
    make_job-Makes w fresh =
        let m = reserve r.user_id "song" w.bank in
        subst
          (λ t. Makes id r (price "song" w.bank) w (
            (branch g.deps.settings.has_credits (on_bank (reserve r.user_id (type_name t))) (pure 0)
                >>= make_reserved g id r payload)
              w))
          (sym song)
          (subst
            (λ b. Makes id r (price "song" w.bank) w (
              (branch b (on_bank (reserve r.user_id "song")) (pure 0)
                  >>= make_reserved g id r payload)
                w))
            (sym paid) (reserved-Makes m.0 m.1 w refl fresh))
