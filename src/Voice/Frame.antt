-- ===== src/Voice/Frame.antt =====
-- The pipeline of voices stays with its job (app/domain/services/pipelines/voice_clone.py).
use musicfy.Prelude.{ℕ, String, refl, Bool, Option, none, some, Result}
use musicfy.Work.Base.{crashed, done, failure, Reply, Settings}
use musicfy.Json.{Json}
use musicfy.Platform.{Platform}
use musicfy.Enums.{JobStage, VoiceProfileStatus}
use musicfy.Work.Rows.{Job}
use musicfy.Work.Frame.{Framed, step_rules}
use musicfy.Provider.{Fal, Media}
use musicfy.Voice.Pipeline.{
  lift, update_profile, update_if, fail_profile, refuse, finalize_voice, keep_voice_clone,
  check_quality, check_consent, start_voice, fail_voice,
}

Framed-lift : {A : Type 0} (id : ℕ) (r : Result A) → Framed id (lift r)
Framed-lift id r = record { at = λ w. record { log = refl; others = λ k h. refl } }

Framed-update_profile :
    (id p : ℕ) (voice_id : Option String) (status : VoiceProfileStatus) (d : Option ℕ)
    → Framed id (update_profile p voice_id status d)
unfolding update_profile
Framed-update_profile id p voice_id status d = record {
  at = λ w. record { log = refl; others = λ k h. refl };
}

Framed-update_if :
    (id : ℕ) (p : Option ℕ) (voice_id : Option String) (status : VoiceProfileStatus) (d : Option ℕ)
    → Framed id (update_if p voice_id status d)
Framed-update_if id none voice_id status d = search step_rules
Framed-update_if id (some p) voice_id status d = Framed-update_profile id p voice_id status d

ruleset voice_rules = (step_rules, Framed-lift, Framed-update_if)

module _ (platform : Platform) (fal : Fal) (media : Media) (settings : Settings) (id : ℕ) where
  Framed-fail_profile : (p : Json) → Framed id (fail_profile platform fal media settings p)
  unfolding fail_profile
  Framed-fail_profile p = search voice_rules

  Framed-refuse :
      (p : Json) (stage : JobStage) (code : String)
      → Framed id (refuse platform fal media settings id p stage code)
  unfolding refuse
  Framed-refuse p stage code = search (voice_rules, Framed-fail_profile)

  Framed-finalize_voice :
      (p sample : Json) (v : String)
      → Framed id (finalize_voice platform fal media settings id p sample v)
  unfolding finalize_voice
  Framed-finalize_voice p sample v = search voice_rules depth 12

  Framed-keep_voice_clone :
      (p sample : Json) (r : Reply String)
      → Framed id (keep_voice_clone platform fal media settings id p sample r)
  Framed-keep_voice_clone p sample (failure _ code) = Framed-refuse p _ _
  Framed-keep_voice_clone p sample (crashed e) = search step_rules
  Framed-keep_voice_clone p sample (done v) = Framed-finalize_voice p sample v

  Framed-check_quality :
      (p sample : Json) → Framed id (check_quality platform fal media settings id p sample)
  unfolding check_quality
  Framed-check_quality p sample = search (voice_rules, Framed-keep_voice_clone, Framed-refuse)

  Framed-check_consent :
      (p sample : Json) (given : Bool)
      → Framed id (check_consent platform fal media settings id p sample given)
  Framed-check_consent p sample given = search (voice_rules, Framed-check_quality, Framed-refuse)

  pub Framed-start_voice : (j : Job) → Framed id (start_voice platform fal media settings id j)
  unfolding start_voice
  Framed-start_voice j = search (voice_rules, Framed-check_consent)

  pub Framed-fail_voice :
      (code : String) → Framed id (fail_voice platform fal media settings id code)
  unfolding fail_voice
  Framed-fail_voice code = search step_rules
