-- ===== src/Work/Settle.antt =====
-- How the end of a job that makes a track settles it (app/domain/services/pipelines/song.py, cover.py,
-- `_finalize`): the job ends, the coins are settled, and there is one track.
use musicfy.Prelude.{
  ℕ, ◌+◌, ◌≤◌, max, String, ◌≡◌, refl, sym, ◌⊎◌, Bool, true, false, some, List, [], ◌∷◌, arith,
  ◌==◌, if◌then◌else◌, get_or, truthy, Error, Result, ok, err, is_ok, Action, branch, lookup-insert,
}
use musicfy.Json.{Fields}
use musicfy.Work.Base.{Settings}
use musicfy.Work.Coins.{
  captured_bank, released_bank, captured_coins, capture_credits_lem, mark_failed_lem,
}
use musicfy.Work.Rows.{Job, Work, Track}
use musicfy.Work.Repository.{get_job, mark_succeeded, ensure_track, record_stage, has_track}
use musicfy.Enums.{JobStage, JobStatus, StageStatus, TrackKind}
use musicfy.Work.Runtime.{Output}
use musicfy.Work.Tracks.{track_of, save_track, finish}

-- The number of tracks of a job.
abbrev pub tracks_of : ℕ → List Track → ℕ
tracks_of id [] = 0
tracks_of id (t ∷ ts) = (if t.job_id == id then 1 else 0) + tracks_of id ts

-- How a job `id`, `j` ends, by whether there is audio.
abbrev pub Settles : Settings → ℕ → Job → Work → Bool → Result (Unit {0}) × Work → Type 0
Settles settings id j w true (r, w') =
    (r ≡ ok tt)
    × (get_job id w'
        ≡ some (record j {
          status = JobStatus.completed;
          captured_credits = captured_coins settings j;
        }))
    × (w'.bank ≡ captured_bank settings id j w.bank)
    × (tracks_of id w'.tracks ≡ max 1 (tracks_of id w.tracks))
Settles settings id j w false (r, w') =
    (r ≡ ok tt)
    × (get_job id w'
        ≡ some (record j { status = JobStatus.failed; error_code = some "PROVIDER_FAILED" }))
    × (w'.bank ≡ released_bank settings id j w.bank)
    × (w'.tracks ≡ w.tracks)

tracks_of-has_track :
    (id : ℕ) (ts : List Track) → (if has_track id ts then 1 else 0) ≤ tracks_of id ts
tracks_of-has_track id [] = ground arith
tracks_of-has_track id (t ∷ ts) = ground (arith, tracks_of-has_track id ts)

pub tracks_of-none : (id : ℕ) (ts : List Track) → has_track id ts ≡ false → tracks_of id ts ≡ 0
tracks_of-none id [] e = refl
tracks_of-none id (t ∷ ts) e = ground (arith, tracks_of-none id ts)

ensure_track_lem :
    (id : ℕ) (make : String → Track) (title : Result String) (w : Work)
    → ((t : String) → (make t).job_id ≡ id)
    → (is_ok title ≡ true) ⊎ (has_track id w.tracks ≡ true)
    → ((ensure_track id title make w).0 ≡ ok tt)
      × ((ensure_track id title make w).1.bank ≡ w.bank)
      × ((ensure_track id title make w).1.jobs ≡ w.jobs)
      × (tracks_of id (ensure_track id title make w).1.tracks ≡ max 1 (tracks_of id w.tracks))
unfolding ensure_track
ensure_track_lem id make (ok t) w same o =
    ground (arith, same t, tracks_of-has_track id w.tracks, tracks_of-none id w.tracks)
ensure_track_lem id make (err x) w same o =
    ground (arith, o, tracks_of-has_track id w.tracks, tracks_of-none id w.tracks)

save_track_lem :
    (kind : TrackKind) (titled : Fields → Result String) (id : ℕ) (out : Output) (url : String)
    (captured : ℕ) (j : Job) (w : Work)
    → get_job id w ≡ some j
    → (is_ok (titled j.input_payload) ≡ true) ⊎ (has_track id w.tracks ≡ true)
    → let r = save_track kind titled id out url captured (some j) w in
      (r.0 ≡ ok tt)
      × (get_job id r.1
          ≡ some (record j { status = JobStatus.completed; captured_credits = captured }))
      × (r.1.bank ≡ w.bank)
      × (tracks_of id r.1.tracks ≡ max 1 (tracks_of id w.tracks))
unfolding save_track mark_succeeded record_stage
save_track_lem kind titled id out url captured j w e o = grind (
  arith,
  lookup-insert,
  ensure_track_lem id (track_of kind id j url out.duration_seconds out.stems)
      (titled j.input_payload) w (λ t. refl) o,
)

branch-Settles :
    (settings : Settings) (id : ℕ) (j : Job) (w : Work) (t : Bool) (m k : Action Work (Unit {0}))
    → Settles settings id j w true (m w)
    → Settles settings id j w false (k w)
    → Settles settings id j w t (branch t m k w)
branch-Settles settings id j w true m k p q = p
branch-Settles settings id j w false m k p q = q

pub finish_lem :
    (settings : Settings) (probed : String → Output → Output) (titled : Fields → Result String)
    (kind : TrackKind) (id : ℕ) (out : Output) (j : Job) (w : Work)
    → get_job id w ≡ some j
    → (is_ok (titled j.input_payload) ≡ true) ⊎ (has_track id w.tracks ≡ true)
    → Settles settings id j w (truthy out.audio_url) (finish settings probed titled kind id out w)
unfolding finish record_stage
finish_lem settings probed titled kind id out j w e o =
    let url = get_or "" out.audio_url in
    let w1 = record w { bank = captured_bank settings id j w.bank } in
    let w2 = (record_stage id JobStage.finalize StageStatus.running w1).1 in
    branch-Settles settings id j w (truthy out.audio_url) _ _
      (ground (
        arith,
        capture_credits_lem settings id j w e,
        save_track_lem kind titled id (probed url out) url (captured_coins settings j) j w2 e o,
      ))
      (grind (
        arith,
        lookup-insert,
        mark_failed_lem settings id j "PROVIDER_FAILED"
            (record_stage id JobStage.finalize StageStatus.failed w).1 e,
      ))

-- With no audio the title is not made.
pub finish_silent :
    (settings : Settings) (probed : String → Output → Output) (titled : Fields → Result String)
    (kind : TrackKind) (id : ℕ) (out : Output) (j : Job) (w : Work)
    → get_job id w ≡ some j
    → truthy out.audio_url ≡ false
    → Settles settings id j w (truthy out.audio_url) (finish settings probed titled kind id out w)
unfolding finish record_stage
finish_silent settings probed titled kind id out j w e silent =
    let m =
      mark_failed_lem settings id j "PROVIDER_FAILED"
        (record_stage id JobStage.finalize StageStatus.failed w).1 e in
    rw silent (grind (arith, lookup-insert, m))

pub Settles-cong :
    (settings : Settings) (id : ℕ) (j : Job) (w w' : Work) (t : Bool) (r : Result (Unit {0}) × Work)
    → w'.bank ≡ w.bank
    → w'.tracks ≡ w.tracks
    → Settles settings id j w' t r
    → Settles settings id j w t r
Settles-cong settings id j w w' true r e f (a, b, c, d) = (a, b, rw (sym e) c, rw (sym f) d)
Settles-cong settings id j w w' false r e f (a, b, c, d) = (a, b, rw (sym e) c, rw (sym f) d)

-- The end of a job whose title raises where it has audio and no track: its coins are captured, and it is left
-- where it was.
abbrev pub Stalls : Settings → ℕ → Job → Work → Error → Result (Unit {0}) × Work → Type 0
Stalls settings id j w x (r, w') =
    (r ≡ err x)
    × (get_job id w' ≡ some (record j { status = JobStatus.post_processing }))
    × (w'.bank ≡ captured_bank settings id j w.bank)
    × (w'.tracks ≡ w.tracks)

pub Stalls-cong :
    (settings : Settings) (id : ℕ) (j : Job) (w w' : Work) (x : Error)
    (r : Result (Unit {0}) × Work)
    → w'.bank ≡ w.bank
    → w'.tracks ≡ w.tracks
    → Stalls settings id j w' x r
    → Stalls settings id j w x r
Stalls-cong settings id j w w' x r e f (a, b, c, d) = (a, b, rw (sym e) c, rw (sym f) d)

save_track_raised :
    (kind : TrackKind) (titled : Fields → Result String) (id : ℕ) (out : Output) (url : String)
    (captured : ℕ) (j : Job) (w : Work) {x : Error}
    → titled j.input_payload ≡ err x
    → has_track id w.tracks ≡ false
    → save_track kind titled id out url captured (some j) w ≡ (err x, w)
unfolding save_track ensure_track
save_track_raised kind titled id out url captured j w raised bare = ground arith

pub finish_raised :
    (settings : Settings) (probed : String → Output → Output) (titled : Fields → Result String)
    (kind : TrackKind) (id : ℕ) (out : Output) (j : Job) (w : Work) {x : Error}
    → get_job id w ≡ some (record j { status = JobStatus.post_processing })
    → titled j.input_payload ≡ err x
    → has_track id w.tracks ≡ false
    → truthy out.audio_url ≡ true
    → Stalls settings id j w x (finish settings probed titled kind id out w)
unfolding finish record_stage
finish_raised settings probed titled kind id out j w e raised bare audio =
    let url = get_or "" out.audio_url in
    let j' = record j { status = JobStatus.post_processing } in
    let w1 = record w { bank = captured_bank settings id j w.bank } in
    let w2 = (record_stage id JobStage.finalize StageStatus.running w1).1 in
    ground (
      arith,
      capture_credits_lem settings id j' w e,
      save_track_raised kind titled id (probed url out) url (captured_coins settings j) j' w2 raised
          bare,
    )
