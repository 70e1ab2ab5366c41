-- ===== src/Song/Failures.antt =====
-- What `SongPipeline.fail` does (app/domain/services/pipelines/song.py): one retry on another model, and then the
-- job fails and its coins go back.
use musicfy.Prelude.{
  ℕ, String, ◌≡◌, refl, sym, ap, ◌∙◌, subst, ◌⊎◌, inl, inr, Bool, true, false, ◌&&◌, Option, none,
  some, arith, str_eq, Result, ok, err, Action, pure, branch, ◌>>=◌, lookup-insert, runtime_error,
}
use musicfy.Enums.{JobStage, JobStatus, StageStatus}
use musicfy.Json.{get, truth}
use musicfy.Platform.{Platform}
use musicfy.Provider.{Fal, Media}
use musicfy.Work.Rows.{Job, Work}
use musicfy.Work.Base.{Settings}
use musicfy.Work.Repository.{get_job, record_stage, same_stage}
use musicfy.Work.Coins.{released_bank, mark_failed_lem}
use musicfy.Song.Events.{try_music_fallback, give_up, fail}
use musicfy.Song.Fallback.{Retried, Tries, try_music_fallback-Tries}

-- The job has failed, and its coins are released.
abbrev pub GivenUp : Settings → ℕ → Job → String → Work → Work → Type 0
GivenUp settings id j code w w' =
    (w'.bank ≡ released_bank settings id j w.bank)
    × (w'.tracks ≡ w.tracks)
    × (get_job id w' ≡ some (record j { status = JobStatus.failed; error_code = some code }))

pub give_up_lem :
    (platform : Platform) (fal : Fal) (media : Media) (settings : Settings) (id : ℕ) (j : Job)
    (stage : JobStage) (code : String) (w : Work)
    → get_job id w ≡ some j
    → ((give_up platform fal media settings id stage code w).0 ≡ ok tt)
      × GivenUp settings id j code w (give_up platform fal media settings id stage code w).1
unfolding give_up record_stage
give_up_lem platform fal media settings id j stage code w e = grind (
  arith,
  lookup-insert,
  mark_failed_lem settings id j code (record_stage id stage StageStatus.failed w).1 e,
)

-- How a call of `fail` ends: as it means to, or with an error of the client and nothing changed.
abbrev pub Fails : Settings → ℕ → Job → String → Work → Result (Unit {0}) × Work → Type 0
Fails settings id j code w (r, w') =
    ((r ≡ ok tt) × (Retried id w w' ⊎ GivenUp settings id j code w w'))
    ⊎ ((e : String) × (r ≡ err (runtime_error e)) × (w' ≡ w))

settle_try :
    (settings : Settings) (id : ℕ) (j : Job) (code : String) (w : Work) (k : Action Work (Unit {0}))
    (r : Result Bool) (w' : Work)
    → Tries id w (r, w')
    → Fails settings id j code w (k w)
    → Fails settings id j code w (((λ _. (r, w')) >>= λ retried. branch retried (pure tt) k) w)
settle_try settings id j code w k (ok true) w' t g = inl (refl, inl t)
settle_try settings id j code w k (ok false) w' t g =
    subst (λ x. Fails settings id j code w (k x)) (sym t) g
settle_try settings id j code w k (err x) w' (s, e, q) g = inr (e, ap err q, s)

branch-Fails :
    (settings : Settings) (id : ℕ) (j : Job) (code : String) (w : Work) (t : Bool)
    (m k : Action Work (Unit {0}))
    → Fails settings id j code w (m w)
    → Fails settings id j code w (k w)
    → Fails settings id j code w (branch t m k w)
branch-Fails settings id j code w true m k p q = p
branch-Fails settings id j code w false m k p q = q

-- Either the song is out again on the other model, with no coin moved
-- and its payload marked, or the job is failed with the given code and its reserved coins are released, or the
-- client raises an error of its own and nothing is changed.
fail_outcome :
    (platform : Platform) (fal : Fal) (media : Media) (settings : Settings) (id : ℕ) (j : Job)
    (stage : JobStage) (code message : String) (w : Work)
    → get_job id w ≡ some j
    → Fails settings id j code w (fail platform fal media settings id j stage code message w)
unfolding fail
fail_outcome platform fal media settings id j stage code message w e =
    let (r, g) = give_up_lem platform fal media settings id j stage code w e in
    let giving = give_up platform fal media settings id stage code in
    let try = try_music_fallback platform fal media settings id j message in
    let given : Fails settings id j code w (giving w) = inl (r, inr g) in
    branch-Fails settings id j code w
      (same_stage stage JobStage.music_generation && str_eq code "PROVIDER_FAILED")
      (try >>= λ retried. branch retried (pure tt) giving) giving
      (settle_try settings id j code w giving (try w).0 (try w).1
        (try_music_fallback-Tries platform fal media settings id message j w e) given)
      given

-- A song whose payload is marked is not sent out again: `fail` ends the job and releases its coins.
fail_marked :
    (platform : Platform) (fal : Fal) (media : Media) (settings : Settings) (id : ℕ) (j : Job)
    (stage : JobStage) (code message : String) (w : Work)
    → get_job id w ≡ some j
    → truth (get "_music_fallback_used" j.input_payload) ≡ true
    → GivenUp settings id j code w (fail platform fal media settings id j stage code message w).1
unfolding fail try_music_fallback
fail_marked platform fal media settings id j stage code message w e used =
    let g = give_up_lem platform fal media settings id j stage code w e in ground (arith, g)

abbrev is_marked : Option Job → Bool
is_marked none = false
is_marked (some j) = truth (get "_music_fallback_used" j.input_payload)

abbrev status_of : Option Job → JobStatus
status_of none = JobStatus.created
status_of (some j) = j.status

-- A song is sent out again once at most: where a job still runs after a failure, the next
-- failure, of whatever stage and code, ends it and releases its coins, unless the first raised an error
-- of the client on its way to the other model, and changed nothing.
pub fail_twice :
    (platform : Platform) (fal : Fal) (media : Media) (settings : Settings) (id : ℕ) (j j' : Job)
    (stage stage' : JobStage) (code code' message message' : String) (w : Work)
    → get_job id w ≡ some j
    → let w1 = (fail platform fal media settings id j stage code message w).1 in
      get_job id w1 ≡ some j'
      → j'.status ≡ JobStatus.running
      → GivenUp settings id j' code' w1
          (fail platform fal media settings id j' stage' code' message' w1).1
        ⊎ ((e : String) × ((fail platform fal media settings id j stage code message w).0
              ≡ err (runtime_error e))
            × (w1 ≡ w))
fail_twice platform fal media settings id j j' stage stage' code code' message message' w e e'
      running =
    let w1 = (fail platform fal media settings id j stage code message w).1 in
    elim (fail_outcome platform fal media settings id j stage code message w e) [
      | inl (_, inl (k, (_, _, f), _, used)) ↦ inl (
          fail_marked platform fal media settings id j' stage' code' message' w1 e'
            (ap is_marked (sym e' ∙ f) ∙ used))
      | inl (_, inr (_, _, f)) ↦ ground (arith, sym running ∙ ap status_of (sym e' ∙ f))
      | inr q ↦ inr q
    ]
