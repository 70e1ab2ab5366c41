-- ===== src/Song/Frame.antt =====
-- The pipeline of songs stays with its job (app/domain/services/pipelines/song.py).
use musicfy.Prelude.{ℕ, String, none, some}
use musicfy.Work.Base.{crashed, Settings, done, failure, Submit, Reply}
use musicfy.Provider.{broken, made, Made, Media, Fal}
use musicfy.Work.Frame.{Framed-finish, Framed, step_rules}
use musicfy.Work.Runtime.{Stage}
use musicfy.Enums.{JobStage}
use musicfy.Json.{Fields, Json}
use musicfy.Song.Events.{
  try_music_fallback, fail, give_up, speak, advance, without_vocal, keep_speech, submit_vocal_tts,
  keep_fallback,
}
use musicfy.Song.Finish.{keep_mix, finalize, maybe_mix}
use musicfy.Platform.{Platform}
use musicfy.Work.Rows.{Job}
use musicfy.Song.Start.{
  keep_lyrics, keep_title, keep_music, resolve_lyrics, resolve_title, submit_music, start,
}

Framed-keep_lyrics :
    (platform : Platform) (id : ℕ) (r : Reply String) → Framed id (keep_lyrics platform id r)
unfolding keep_lyrics
Framed-keep_lyrics platform id (failure _ _) = search step_rules
Framed-keep_lyrics platform id (crashed e) = search step_rules
Framed-keep_lyrics platform id (done lyrics) = search step_rules

Framed-keep_title :
    (platform : Platform) (id : ℕ) (r : Reply String) → Framed id (keep_title platform id r)
unfolding keep_title
Framed-keep_title platform id (failure _ _) = search step_rules
Framed-keep_title platform id (crashed e) = search step_rules
Framed-keep_title platform id (done title) = search step_rules

Framed-keep_music : (id : ℕ) (r : Reply Submit) → Framed id (keep_music id r)
unfolding keep_music
Framed-keep_music id (failure _ _) = search step_rules
Framed-keep_music id (crashed e) = search step_rules
Framed-keep_music id (done submit) = search step_rules

module _ (platform : Platform) (fal : Fal) (id : ℕ) where
  Framed-resolve_lyrics : (j : Job) → Framed id (resolve_lyrics platform fal id j)
  unfolding resolve_lyrics
  Framed-resolve_lyrics j = search (step_rules, Framed-keep_lyrics)

  Framed-resolve_title :
      (j : Job) (lyrics : Json) → Framed id (resolve_title platform fal id j lyrics)
  unfolding resolve_title
  Framed-resolve_title j lyrics = search (step_rules, Framed-keep_title)

  Framed-submit_music :
      (j : Job) (lyrics : Json) → Framed id (submit_music platform fal id j lyrics)
  unfolding submit_music
  Framed-submit_music j lyrics = search (step_rules, Framed-keep_music)

  pub Framed-start : (j : Job) → Framed id (start platform fal id j)
  unfolding start
  Framed-start j =
      search (step_rules, Framed-resolve_lyrics, Framed-resolve_title, Framed-submit_music)

module _ (media : Media) (settings : Settings) (id : ℕ) where
  Framed-keep_mix :
      (vocal music : Json) (runtime : Fields) (m : Made)
      → Framed id (keep_mix id vocal music runtime m)
  unfolding keep_mix
  Framed-keep_mix vocal music runtime broken = search step_rules
  Framed-keep_mix vocal music runtime (made none d) = search step_rules
  Framed-keep_mix vocal music runtime (made (some u) d) = search step_rules

  Framed-maybe_mix : (runtime : Fields) → Framed id (maybe_mix media id runtime)
  unfolding maybe_mix
  Framed-maybe_mix runtime = search (step_rules, Framed-keep_mix)

  Framed-finalize : (runtime : Fields) → Framed id (finalize media settings id runtime)
  unfolding finalize
  Framed-finalize runtime = search (step_rules, Framed-maybe_mix, Framed-finish) depth 12

module _ (platform : Platform) (fal : Fal) (media : Media) (settings : Settings) (id : ℕ) where
  Framed-without_vocal : Framed id (without_vocal platform fal media settings id)
  unfolding without_vocal
  Framed-without_vocal = search (step_rules, Framed-finalize)

  Framed-keep_speech : (r : Reply Submit) → Framed id (keep_speech platform fal media settings id r)
  unfolding keep_speech
  Framed-keep_speech (failure _ _) = Framed-without_vocal
  Framed-keep_speech (crashed e) = search step_rules
  Framed-keep_speech (done submit) = search step_rules

  Framed-speak :
      (lyrics : Json) (r : Reply String) → Framed id (speak platform fal media settings id lyrics r)
  unfolding speak
  Framed-speak lyrics (failure _ _) = Framed-without_vocal
  Framed-speak lyrics (crashed e) = search step_rules
  Framed-speak lyrics (done cloned) = search (step_rules, Framed-keep_speech)

  Framed-submit_vocal_tts :
      (j : Job) (lyrics : Json)
      → Framed id (submit_vocal_tts platform fal media settings id j lyrics)
  unfolding submit_vocal_tts
  Framed-submit_vocal_tts j lyrics = search (step_rules, Framed-keep_speech, Framed-speak)

  pub Framed-advance :
      (j : Job) (stage : JobStage) (r : Stage)
      → Framed id (advance platform fal media settings id j stage r)
  unfolding advance
  Framed-advance j stage r = search (step_rules, Framed-submit_vocal_tts, Framed-finalize) depth 12

  Framed-keep_fallback :
      (message model : String) (r : Reply Submit)
      → Framed id (keep_fallback platform fal media settings id message model r)
  unfolding keep_fallback
  Framed-keep_fallback message model (failure _ _) = search step_rules
  Framed-keep_fallback message model (crashed e) = search step_rules
  Framed-keep_fallback message model (done submit) = search step_rules

  Framed-try_music_fallback :
      (j : Job) (message : String)
      → Framed id (try_music_fallback platform fal media settings id j message)
  unfolding try_music_fallback
  Framed-try_music_fallback j message = search (step_rules, Framed-keep_fallback)

  Framed-give_up :
      (stage : JobStage) (code : String)
      → Framed id (give_up platform fal media settings id stage code)
  unfolding give_up
  Framed-give_up stage code = search step_rules

  pub Framed-fail :
      (j : Job) (stage : JobStage) (code message : String)
      → Framed id (fail platform fal media settings id j stage code message)
  unfolding fail
  Framed-fail j stage code message = search (step_rules, Framed-try_music_fallback, Framed-give_up)
