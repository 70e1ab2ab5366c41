-- ===== src/Fal/Requests.antt =====
-- The submissions of `FalAiProvider` (app/domain/providers/fal/client.py): the payload of each, over `_submit`.
use musicfy.Prelude.{
  ℕ, min, max, String, Bool, true, Option, none, some, ltb, str_eq, if◌then◌else◌, Result, size,
  cut,
}
use musicfy.Prelude.Int.{pos}
use musicfy.Json.{Json, Fields, end, field, set}
use musicfy.Platform.{Platform}
use musicfy.Fal.Http.{Http, Config}
use musicfy.Fal.Calls.{Submission, submit}
use Prim.Native.String.{◌++◌}

-- `payload[name] = value`, where there is a value
abbrev pub set_if : String → Option String → Fields → Fields
set_if name none p = p
set_if name (some v) p = if str_eq v "" then p else set name (Json.str v) p

abbrev pub pair : String → String → Fields → Fields
pair name v p = field name (Json.str v) p

module _ (platform : Platform) where
  -- `(prompt or "").strip()`, made ten characters long at least
  abbrev pub safe_prompt : String → String
  safe_prompt prompt =
      let s = platform.strip prompt in
      if ltb (size s) 10 then platform.strip (s ++ " — original music track") else s

  unfoldable pub song_payload : String → Option String → Fields
  song_payload prompt lyrics =
      let p = pair "prompt" (cut 2000 (safe_prompt prompt)) end in
      elim lyrics [
        | none ↦ set "lyrics_optimizer" (Json.bool true) p
        | some l ↦
            if str_eq l ""
            then set "lyrics_optimizer" (Json.bool true) p
            else set "lyrics" (Json.str (cut 3500 l)) p
      ]

-- `max(1, min(47, int(seconds_total)))`, of a number of seconds that is not below 0
unfoldable pub stable_audio_payload : String → ℕ → Fields
stable_audio_payload prompt seconds_total =
    pair "prompt" prompt (field "seconds_total" (Json.int (pos (max 1 (min 47 seconds_total)))) end)

-- The payload of a clip from a text, and of one from an image.
unfoldable pub clip_payload :
    String → Option String → Bool → Option String → Option String → Option String → Fields
clip_payload prompt image_url generate_audio aspect_ratio resolution duration =
    let audio = field "generate_audio" (Json.bool generate_audio) end in
    let p =
      pair "prompt" prompt (elim image_url [ none ↦ audio | some u ↦ pair "image_url" u audio ]) in
    set_if "duration" duration
      (set_if "resolution" resolution (set_if "aspect_ratio" aspect_ratio p))

abbrev pub speech_payload : String → Option String → Fields
speech_payload text voice_id =
    let p = pair "text" text end in
    elim voice_id [
      | none ↦ p
      | some v ↦ if str_eq v "" then p else set "voice_setting" (Json.obj (pair "voice_id" v end)) p
    ]

module _ (platform : Platform) (http : Http) (config : Config) where
  -- The payload, the webhook's url and the idempotency key of a submission to a model.
  abbrev send : String → Fields → Option String → String → Result Submission
  send = submit platform http config

  unfoldable pub submit_song : String → Option String → Option String → String → Result Submission
  submit_song prompt lyrics = send config.song_model (song_payload platform prompt lyrics)

  unfoldable pub submit_audio_to_audio_refine :
      String → String → Option String → String → Result Submission
  submit_audio_to_audio_refine source_audio_url prompt =
      send config.refine_model (pair "audio_url" source_audio_url (pair "prompt" prompt end))

  unfoldable pub submit_stable_audio : String → ℕ → Option String → String → Result Submission
  submit_stable_audio prompt seconds_total =
      send "fal-ai/stable-audio" (stable_audio_payload prompt seconds_total)

  unfoldable pub submit_ace_step_vocal :
      String → String → Option String → String → Result Submission
  submit_ace_step_vocal tags lyrics =
      send "fal-ai/ace-step" (pair "tags" tags (pair "lyrics" lyrics end))

  unfoldable pub submit_speech : String → Option String → Option String → String → Result Submission
  submit_speech text voice_id = send config.speech_model (speech_payload text voice_id)

  unfoldable pub submit_stem_separation : String → Option String → String → Result Submission
  submit_stem_separation audio_url = send config.demucs_model (pair "audio_url" audio_url end)

  unfoldable pub submit_voice_changer : String → String → Option String → String → Result Submission
  submit_voice_changer audio_url target_voice =
      send config.voice_changer_model (pair "audio_url" audio_url (pair "voice" target_voice end))

  unfoldable pub submit_speech_to_speech :
      String → String → Option String → String → Result Submission
  submit_speech_to_speech source_audio_url target_voice_audio_url =
      send config.voice_conversion_model (
        pair "source_audio_url" source_audio_url
          (pair "target_voice_audio_url" target_voice_audio_url end))

  unfoldable pub submit_lipsync_video : String → String → Option String → String → Result Submission
  submit_lipsync_video video_url audio_url =
      send config.video_avatar_model (pair "video_url" video_url (pair "audio_url" audio_url end))

  unfoldable pub submit_avatar_image_video :
      String → String → Option String → String → Result Submission
  submit_avatar_image_video image_url audio_url =
      send config.video_avatar_image_model
        (pair "image_url" image_url (pair "audio_url" audio_url end))

  -- prompt, aspect ratio, resolution, whether to make audio, duration
  unfoldable pub submit_text_to_video :
      String
      → Option String
      → Option String
      → Bool
      → Option String
      → Option String
      → String
      → Result Submission
  submit_text_to_video prompt aspect_ratio resolution generate_audio duration =
      send config.video_visual_model
        (clip_payload prompt none generate_audio aspect_ratio resolution duration)

  unfoldable pub submit_lyrics_background :
      String
      → Option String
      → Option String
      → Bool
      → Option String
      → Option String
      → String
      → Result Submission
  submit_lyrics_background prompt aspect_ratio resolution generate_audio duration =
      send config.video_lyrics_bg_model
        (clip_payload prompt none generate_audio aspect_ratio resolution duration)

  unfoldable pub submit_image_to_video :
      String
      → String
      → Option String
      → Option String
      → Bool
      → Option String
      → Option String
      → String
      → Result Submission
  submit_image_to_video prompt image_url aspect_ratio resolution generate_audio duration =
      send config.video_visual_image_model
        (clip_payload prompt (some image_url) generate_audio aspect_ratio resolution duration)
