-- ===== src/Voice/Laws.antt =====
-- How the start of a voice's clone ends (app/domain/services/pipelines/voice_clone.py).
use musicfy.Prelude.{
  ℕ, String, ◌≡◌, ◌⊎◌, Bool, true, false, Option, none, some, get_or, Result, ok, err,
  runtime_error,
}
use musicfy.Work.Base.{crashed, failure, done, Settings}
use musicfy.Work.Rows.{VoiceConsent, Job, Work}
use musicfy.Voice.Pipeline.{sample_seconds}
use musicfy.Json.{text_of, Json}
use musicfy.Platform.{Platform}
use musicfy.Provider.{Fal, Media}
use musicfy.Voice.Endings.{FailedWith, Cloned, LeftRunning}

module _ (platform : Platform) (fal : Fal) (media : Media) (settings : Settings) where
  -- Why a clone failed: no consent, no sample, or the provider.
  abbrev pub Reason : Type 0 → Bool → Json → String → Type 0
  Reason Refused sampled sample code =
      (Refused × (code ≡ "CONSENT_REQUIRED"))
      ⊎ (((sampled ≡ false) × (code ≡ "INVALID_INPUT"))
          ⊎ ((message : String) × (fal.voice_clone sample ≡ failure code message)))

  -- Either consent was given, a sample was there, and the provider cloned the voice; or the job failed.
  -- Where the client raises an error of its own, the job runs on.
  abbrev pub VoiceEnds :
      Type 0 → Type 0 → Bool → Json → ℕ → Job → Option ℕ → Work → Result (Unit {0}) × Work → Type 0
  VoiceEnds Given Refused sampled sample id j p w x =
      ((x.0 ≡ ok tt)
        × Given
        × (sampled ≡ true)
        × ((voice_id : String) × (fal.voice_clone sample ≡ done voice_id)
            × Cloned voice_id (sample_seconds (media.probe_duration (get_or "" (text_of sample))))
                id j p w x.1))
      ⊎ (((x.0 ≡ ok tt)
            × ((code : String) × Reason Refused sampled sample code
                × FailedWith code settings id j p w x.1))
          ⊎ (Given
              × (sampled ≡ true)
              × ((e : String) × (fal.voice_clone sample ≡ crashed e)
                  × (x.0 ≡ err (runtime_error e))
                  × LeftRunning id j w x.1)))

  -- The endings by whether consent was given.
  abbrev Ends : Bool → Bool → Json → ℕ → Job → Option ℕ → Work → Result (Unit {0}) × Work → Type 0
  Ends given = VoiceEnds (given ≡ true) (given ≡ false)

  -- The consent is the user's own, and accepted.
  abbrev pub IsConsent : ℕ → Option VoiceConsent → Type 0
  IsConsent user_id none = ⊥
  IsConsent user_id (some c) = (c.user_id ≡ user_id) × (c.accepted ≡ true)
