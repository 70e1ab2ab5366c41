-- ===== src/Voice/Endings.antt =====
-- What the steps of `VoiceClonePipeline` leave behind (app/domain/services/pipelines/voice_clone.py).
use musicfy.Prelude.{
  ℕ, String, ◌≡◌, refl, Option, none, some, arith, get_or, ok, Table, lookup, lookup-insert,
}
use musicfy.Work.Base.{Settings}
use musicfy.Work.Rows.{Job, Work, VoiceProfile}
use musicfy.Work.Coins.{released_bank, mark_failed_lem}
use musicfy.Voice.Pipeline.{
  find_consent, sample_seconds, finalize_voice, uuid_of, update_if, change_profile, update_profile,
  fail_profile, refuse, with_voice,
}
use musicfy.Json.{text_of, Json}
use musicfy.Work.Repository.{mark_succeeded, set_status, get_job, record_stage}
use musicfy.Platform.{Platform}
use musicfy.Enums.{JobStage, JobStatus, StageStatus, VoiceProfileStatus}
use musicfy.Provider.{Fal, Media}

-- The profiles after an update of the one that the payload names.
abbrev pub profiles_after :
    Option ℕ
    → Option String
    → VoiceProfileStatus
    → Option ℕ
    → Table VoiceProfile
    → Table VoiceProfile
profiles_after none voice_id status duration t = t
profiles_after (some id) voice_id status duration t =
    change_profile id (with_voice voice_id status duration) (lookup id t) t

update_if_lem :
    (p : Option ℕ) (voice_id : Option String) (status : VoiceProfileStatus) (d : Option ℕ)
    (w : Work)
    → update_if p voice_id status d w
      ≡ (ok tt, record w { profiles = profiles_after p voice_id status d w.profiles })
unfolding update_profile
update_if_lem none voice_id status d w = refl
update_if_lem (some id) voice_id status d w = refl

record_stage_keeps :
    (id : ℕ) (stage : JobStage) (status : StageStatus) (w : Work)
    → ((record_stage id stage status w).0 ≡ ok tt)
      × ((record_stage id stage status w).1.bank ≡ w.bank)
      × ((record_stage id stage status w).1.jobs ≡ w.jobs)
      × ((record_stage id stage status w).1.profiles ≡ w.profiles)
      × ((record_stage id stage status w).1.consents ≡ w.consents)
unfolding record_stage
record_stage_keeps id stage status w = (refl, refl, refl, refl, refl)

-- The job failed with this code: its coins go back, and the profile fails too.
abbrev pub FailedWith : String → Settings → ℕ → Job → Option ℕ → Work → Work → Type 0
FailedWith code settings id j p w w' =
    (w'.bank ≡ released_bank settings id j w.bank)
    × (get_job id w' ≡ some (record j { status = JobStatus.failed; error_code = some code }))
    × (w'.profiles ≡ profiles_after p none VoiceProfileStatus.failed none w.profiles)

-- The voice was cloned: no coin moves, and the profile is ready with the provider's id.
abbrev pub Cloned : String → Option ℕ → ℕ → Job → Option ℕ → Work → Work → Type 0
Cloned voice_id seconds id j p w w' =
    (w'.bank ≡ w.bank)
    × (get_job id w' ≡ some (record j { status = JobStatus.completed; captured_credits = 0 }))
    × (w'.profiles ≡ profiles_after p (some voice_id) VoiceProfileStatus.ready seconds w.profiles)

-- The client's own error: the job runs on, with the coins and the profiles as they were.
abbrev pub LeftRunning : ℕ → Job → Work → Work → Type 0
LeftRunning id j w w' =
    (w'.bank ≡ w.bank)
    × (get_job id w' ≡ some (record j { status = JobStatus.running }))
    × (w'.profiles ≡ w.profiles)

pub find_consent_lem :
    (id : ℕ) (c : Option ℕ) (w : Work)
    → find_consent c (set_status id JobStatus.running w).1 ≡ find_consent c w
unfolding set_status
find_consent_lem id none w = refl
find_consent_lem id (some k) w = refl

module _ (platform : Platform) (fal : Fal) (media : Media) (settings : Settings) where
  fail_profile_lem :
      (profile : Json) (p : Option ℕ) (w : Work)
      → uuid_of platform profile ≡ ok p
      → fail_profile platform fal media settings profile w ≡ (
        ok tt,
        record w { profiles = profiles_after p none VoiceProfileStatus.failed none w.profiles },
      )
  unfolding fail_profile
  fail_profile_lem profile p w u = rw u (update_if_lem p none VoiceProfileStatus.failed none w)

  pub refuse_lem :
      (id : ℕ) (profile : Json) (stage : JobStage) (code : String) (p : Option ℕ) (j : Job)
      (w : Work)
      → uuid_of platform profile ≡ ok p
      → get_job id w ≡ some j
      → ((refuse platform fal media settings id profile stage code w).0 ≡ ok tt)
        × FailedWith code settings id j p w
            (refuse platform fal media settings id profile stage code w).1
  unfolding refuse
  refuse_lem id profile stage code p j w u e =
      let w1 = (record_stage id stage StageStatus.failed w).1 in
      let w2 = record w1 {
        profiles = profiles_after p none VoiceProfileStatus.failed none w1.profiles;
      } in
      grind (
        arith,
        record_stage_keeps id stage StageStatus.failed w,
        fail_profile_lem profile p w1 u,
        mark_failed_lem settings id j code w2,
        lookup-insert,
      )

  pub finalize_voice_lem :
      (id : ℕ) (profile sample : Json) (voice_id : String) (p : Option ℕ) (j : Job) (w : Work)
      → uuid_of platform profile ≡ ok p
      → get_job id w ≡ some j
      → ((finalize_voice platform fal media settings id profile sample voice_id w).0 ≡ ok tt)
        × Cloned voice_id
            (sample_seconds (media.probe_duration (get_or "" (text_of sample))))
            id
            j
            p
            w
            (finalize_voice platform fal media settings id profile sample voice_id w).1
  unfolding finalize_voice set_status mark_succeeded record_stage
  finalize_voice_lem id profile sample voice_id p j w u e =
      let seconds = sample_seconds (media.probe_duration (get_or "" (text_of sample))) in
      let w1 = (record_stage id JobStage.voice_clone StageStatus.succeeded w).1 in
      let w2 = (set_status id JobStatus.post_processing w1).1 in
      rw u (
        grind (
          arith,
          update_if_lem p (some voice_id) VoiceProfileStatus.ready seconds w2,
          lookup-insert,
        ))
