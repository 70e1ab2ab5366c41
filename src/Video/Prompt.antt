-- ===== src/Video/Prompt.antt =====
-- The prompts of app/domain/services/pipelines/video.py.
use musicfy.Prelude.{String, Option, none, some, str_eq, if◌then◌else◌, get_or}
use Prim.Native.String.{◌++◌}
use musicfy.Json.{Fields, get, text_of}
use musicfy.Platform.{Platform}

abbrev default_visual_prompt : String
default_visual_prompt = "an abstract cinematic music visualizer, flowing colors, high detail"

abbrev default_lyrics_bg_prompt : String
default_lyrics_bg_prompt =
    "a soft abstract animated background for a lyrics video, gentle flowing gradients, subtle bokeh, cinematic ambient mood, no text"

-- `STYLE_PROMPT_SUFFIX`
abbrev style_suffix : String → Option String
style_suffix style =
    if str_eq style "realistic"
    then some "photorealistic, natural lighting, realistic textures, lifelike detail"
    else if str_eq style "cartoon"
    then some "cartoon style, vibrant flat colors, bold clean outlines, playful animation"
    else if str_eq style "anime"
    then some "anime style, cel-shaded, expressive characters, detailed anime scenery"
    else if str_eq style "cinematic"
    then some "cinematic, film grain, dramatic lighting, shallow depth of field, color-graded"
    else none

module _ (platform : Platform) where
  -- `(payload.get(name) or "").strip()`
  abbrev stripped : String → Fields → String
  stripped name p = platform.strip (get_or "" (text_of (get name p)))

  -- `_apply_style`
  unfoldable pub apply_style : String → Fields → String
  apply_style prompt p = elim (style_suffix (stripped "style" p)) [
    | none ↦ prompt
    | some suffix ↦ prompt ++ ", " ++ suffix
  ]

  -- `_lyrics_bg_prompt`
  unfoldable pub lyrics_bg_prompt : Fields → String
  lyrics_bg_prompt p =
      let prompt = stripped "prompt" p in
      apply_style (if str_eq prompt "" then default_lyrics_bg_prompt else prompt) p

  abbrev pub own_prompt : Fields → String
  own_prompt p = stripped "prompt" p

  abbrev pub fallback_prompt : String
  fallback_prompt = default_visual_prompt
