-- ===== src/Voice/Pipeline.antt =====
-- `VoiceClonePipeline` (app/domain/services/pipelines/voice_clone.py) and what it calls of `VoiceRepository`
-- (app/domain/repositories/voice.py). A profile's `meta` is never given here.
use musicfy.Prelude.{
  ℕ, ◌+◌, ◌-◌, ◌*◌, ◌/◌, String, Bool, false, ◌&&◌, Option, none, some, ltb, ◌==◌, str_eq,
  if◌then◌else◌, get_or, first_some, Result, ok, err, Action, pure, raise, gets, branch, ◌>>=◌,
  ◌>>◌, Table, lookup, insert, runtime_error,
}
use musicfy.Work.Base.{crashed, Settings, Reply, done, failure, mark_failed}
use musicfy.Prelude.Int.{pos}
use musicfy.Json.{Json, get, truth, text_of}
use musicfy.Platform.{Platform}
use musicfy.Enums.{JobStage, JobStatus, StageStatus, VoiceProfileStatus}
use musicfy.Work.Rows.{Job, Work, VoiceConsent, VoiceProfile}
use musicfy.Work.Repository.{set_status, record_stage, mark_succeeded}
use musicfy.Provider.{Fal, Media}

abbrev pub get_consent : ℕ → Work → Option VoiceConsent
get_consent id w = lookup id w.consents

abbrev pub get_profile : ℕ → Work → Option VoiceProfile
get_profile id w = lookup id w.profiles

abbrev pub with_voice : Option String → VoiceProfileStatus → Option ℕ → VoiceProfile → VoiceProfile
with_voice voice_id status duration p = record p {
  provider_voice_id = voice_id;
  status = status;
  sample_duration_seconds = first_some duration p.sample_duration_seconds;
}

abbrev pub change_profile :
    ℕ
    → (VoiceProfile → VoiceProfile)
    → Option VoiceProfile
    → Table VoiceProfile
    → Table VoiceProfile
change_profile id f none t = t
change_profile id f (some p) t = insert id (f p) t

-- `update_profile`
unfoldable pub update_profile :
    ℕ → Option String → VoiceProfileStatus → Option ℕ → Action Work (Unit {0})
update_profile id voice_id status duration w = (
  ok tt,
  record w {
    profiles =
        change_profile id (with_voice voice_id status duration) (get_profile id w) w.profiles;
  },
)

-- `int(round(x))` of a number of millionths that is not below 0: a half goes to the even neighbour.
abbrev pub round_millionths : ℕ → ℕ
round_millionths n =
    let q = n / 1000000 in
    let r = n - q * 1000000 in
    if ltb r 500000
    then q
    else if ltb 500000 r
    then q + 1
    else if (q - q / 2 * 2) == 0
    then q
    else q + 1

-- `duration`: a probed number above 0, rounded
abbrev pub sample_seconds : Json → Option ℕ
sample_seconds (Json.int (pos n)) = if n == 0 then none else some n
sample_seconds (Json.float (pos n)) = if n == 0 then none else some (round_millionths n)
sample_seconds _ = none

module _ (platform : Platform) where
  -- `UUID(value)`, where there is a value
  abbrev pub uuid_of : Json → Result (Option ℕ)
  uuid_of (Json.str s) = if str_eq s "" then ok none else elim (platform.parse_uuid s) [
    | none ↦ err (runtime_error "ValueError")
    | some id ↦ ok (some id)
  ]
  uuid_of v = if truth v then err (runtime_error "AttributeError") else ok none

abbrev pub lift : {A : Type 0} → Result A → Action Work A
lift r w = (r, w)

abbrev pub consent_given : ℕ → Option VoiceConsent → Bool
consent_given user_id none = false
consent_given user_id (some c) = c.user_id == user_id && c.accepted

abbrev pub find_consent : Option ℕ → Work → Option VoiceConsent
find_consent none w = none
find_consent (some id) w = get_consent id w

-- `update_profile` where the payload names a profile
abbrev pub update_if :
    Option ℕ → Option String → VoiceProfileStatus → Option ℕ → Action Work (Unit {0})
update_if none voice_id status duration = pure tt
update_if (some id) voice_id status duration = update_profile id voice_id status duration

module _ (platform : Platform) (fal : Fal) (media : Media) (settings : Settings) where
  -- `_fail_profile`
  unfoldable pub fail_profile : Json → Action Work (Unit {0})
  fail_profile profile = do
    id ← lift (uuid_of platform profile)
    update_if id none VoiceProfileStatus.failed none

  -- The three ways in which a stage fails.
  unfoldable pub refuse : ℕ → Json → JobStage → String → Action Work (Unit {0})
  refuse id profile stage code = do
    record_stage id stage StageStatus.failed
    fail_profile profile
    mark_failed settings id code

  -- `finalize`
  unfoldable pub finalize_voice : ℕ → Json → Json → String → Action Work (Unit {0})
  finalize_voice id profile sample voice_id = do
    record_stage id JobStage.voice_clone StageStatus.succeeded
    set_status id JobStatus.post_processing
    profile_id ← lift (uuid_of platform profile)
    update_if profile_id (some voice_id) VoiceProfileStatus.ready
        (sample_seconds (media.probe_duration (get_or "" (text_of sample))))
    mark_succeeded id 0
    record_stage id JobStage.finalize StageStatus.succeeded

  abbrev pub keep_voice_clone : ℕ → Json → Json → Reply String → Action Work (Unit {0})
  keep_voice_clone id profile sample (failure code message) =
      refuse id profile JobStage.voice_clone code
  keep_voice_clone id profile sample (crashed e) = raise (runtime_error e)
  keep_voice_clone id profile sample (done voice_id) = finalize_voice id profile sample voice_id

  -- `quality_check` and what follows it
  unfoldable pub check_quality : ℕ → Json → Json → Action Work (Unit {0})
  check_quality id profile sample =
      branch (truth sample)
        (do
          record_stage id JobStage.quality_check StageStatus.succeeded
          record_stage id JobStage.voice_clone StageStatus.running
          keep_voice_clone id profile sample (fal.voice_clone sample))
        (refuse id profile JobStage.quality_check "INVALID_INPUT")

  abbrev pub check_consent : ℕ → Json → Json → Bool → Action Work (Unit {0})
  check_consent id profile sample given =
      branch given
        (do
          record_stage id JobStage.consent_check StageStatus.succeeded
          check_quality id profile sample)
        (refuse id profile JobStage.consent_check "CONSENT_REQUIRED")

  -- `start`
  unfoldable pub start_voice : ℕ → Job → Action Work (Unit {0})
  start_voice id j = do
    set_status id JobStatus.running
    consent_id ← lift (uuid_of platform (get "consent_id" j.input_payload))
    consent ← gets (find_consent consent_id)
    check_consent id (get "voice_profile_id" j.input_payload)
        (get "sample_asset_url" j.input_payload) (consent_given j.user_id consent)

  -- `advance`: the pipeline runs within its start
  abbrev pub advance_voice : Action Work (Unit {0})
  advance_voice = pure tt

  -- `fail`
  unfoldable pub fail_voice : ℕ → String → Action Work (Unit {0})
  fail_voice id error_code = mark_failed settings id error_code
