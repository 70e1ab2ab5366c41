-- ===== src/Cover/Frame.antt =====
-- The pipeline of covers stays with its job (app/domain/services/pipelines/cover.py).
use musicfy.Prelude.{ℕ, String, Option}
use musicfy.Work.Base.{crashed, done, failure, Submit, Reply, Settings}
use musicfy.Work.Runtime.{Stage}
use musicfy.Json.{Json, Fields}
use musicfy.Enums.{JobStage}
use musicfy.Work.Rows.{Job}
use musicfy.Work.Frame.{Framed, step_rules, Framed-finish}
use musicfy.Provider.{Fal, Media, Made, broken, made}
use musicfy.Cover.Pipeline.{
  start_cover, keep_cover_mix, mix_cover, finalize_cover, finalize_loaded, keep_stems, submit_stems,
  keep_voice, submit_voice_conversion, convert_voice, advance_cover, fail_cover,
}

Framed-keep_cover_mix :
    (id : ℕ) (vocal : Json) (instrumental : Option String) (m : Made)
    → Framed id (keep_cover_mix id vocal instrumental m)
unfolding keep_cover_mix
Framed-keep_cover_mix id vocal instrumental broken = search step_rules
Framed-keep_cover_mix id vocal instrumental (made u d) = search step_rules

Framed-mix_cover :
    (media : Media) (id : ℕ) (vocal stems : Json) → Framed id (mix_cover media id vocal stems)
unfolding mix_cover
Framed-mix_cover media id vocal stems = search (step_rules, Framed-keep_cover_mix)

Framed-finalize_cover :
    (media : Media) (settings : Settings) (id : ℕ) (runtime : Fields)
    → Framed id (finalize_cover media settings id runtime)
unfolding finalize_cover
Framed-finalize_cover media settings id runtime =
    search (step_rules, Framed-mix_cover, Framed-finish) depth 12

module _ (fal : Fal) (media : Media) (settings : Settings) (id : ℕ) where
  Framed-keep_stems : (r : Reply Submit) → Framed id (keep_stems fal media settings id r)
  unfolding keep_stems
  Framed-keep_stems (failure _ _) = search step_rules
  Framed-keep_stems (crashed e) = search step_rules
  Framed-keep_stems (done submit) = search step_rules

  Framed-submit_stems : (source : Json) → Framed id (submit_stems fal media settings id source)
  unfolding submit_stems
  Framed-submit_stems source = search (step_rules, Framed-keep_stems)

  pub Framed-start_cover : (j : Job) → Framed id (start_cover fal media settings id j)
  unfolding start_cover
  Framed-start_cover j = search (step_rules, Framed-submit_stems)

  Framed-finalize_loaded : Framed id (finalize_loaded fal media settings id)
  unfolding finalize_loaded
  Framed-finalize_loaded = search (step_rules, Framed-finalize_cover)

  Framed-keep_voice : (r : Reply Submit) → Framed id (keep_voice fal media settings id r)
  unfolding keep_voice
  Framed-keep_voice (failure _ _) = search (step_rules, Framed-finalize_loaded)
  Framed-keep_voice (crashed e) = search step_rules
  Framed-keep_voice (done submit) = search step_rules

  Framed-submit_voice_conversion :
      (j : Job) (vocal : Json) → Framed id (submit_voice_conversion fal media settings id j vocal)
  unfolding submit_voice_conversion
  Framed-submit_voice_conversion j vocal = search (step_rules, Framed-keep_voice)

  Framed-convert_voice :
      (j : Job) (stems : Fields) → Framed id (convert_voice fal media settings id j stems)
  unfolding convert_voice
  Framed-convert_voice j stems =
      search (step_rules, Framed-submit_voice_conversion, Framed-finalize_loaded)

  pub Framed-advance_cover :
      (j : Job) (stage : JobStage) (r : Stage)
      → Framed id (advance_cover fal media settings id j stage r)
  unfolding advance_cover
  Framed-advance_cover j stage r =
      search (step_rules, Framed-convert_voice, Framed-finalize_loaded) depth 12

  pub Framed-fail_cover :
      (stage : JobStage) (code : String) → Framed id (fail_cover fal media settings id stage code)
  unfolding fail_cover
  Framed-fail_cover stage code = search step_rules
