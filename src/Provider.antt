-- ===== src/Provider.antt =====
-- What the pipelines call and do not implement: the provider fal over HTTP
-- (app/domain/providers/fal/base.py) and the media tools over ffmpeg (app/domain/services/audio_mixer.py,
-- video_mux.py, audio_duration.py), with what the titles take of Python's texts. A submission gets the job's id, from which its idempotency key is made.
use musicfy.Prelude.{ℕ, String, Bool, Option}
use musicfy.Json.{Json}
use musicfy.Work.Base.{Reply, Submit}
use musicfy.Titles.Derive.{Words}

pub record Fal : Type 0 where
  -- prompt, language, genre, mood
  pub generate_lyrics : Json → Json → Json → Json → Reply String
  -- action, target, text, language
  pub assist_text : String → String → Json → Json → Reply (String × Json)
  -- prompt, lyrics, language
  pub generate_track_title : Json → Json → Json → Reply String
  -- prompt, duration, lyrics, reference audio
  pub submit_song : ℕ → String → Json → Json → Json → Reply Submit
  pub voice_clone : Json → Reply String
  -- text, voice
  pub submit_speech : ℕ → Json → String → Reply Submit
  -- tags, lyrics
  pub submit_ace_step_vocal : ℕ → String → Json → Reply Submit
  -- prompt, seconds
  pub submit_stable_audio : ℕ → String → ℕ → Reply Submit
  pub submit_stem_separation : ℕ → Json → Reply Submit
  -- source audio, target voice sample
  pub submit_speech_to_speech : ℕ → Json → Json → Reply Submit
  -- audio, target voice
  pub submit_voice_changer : ℕ → Json → Json → Reply Submit
  -- video, audio
  pub submit_lipsync_video : ℕ → Json → Json → Reply Submit
  -- image, audio
  pub submit_avatar_image_video : ℕ → Json → Json → Reply Submit
  -- prompt, image, aspect ratio
  pub submit_image_to_video : ℕ → String → Json → Json → Reply Submit
  -- prompt, aspect ratio
  pub submit_text_to_video : ℕ → String → Json → Reply Submit
  pub submit_lyrics_background : ℕ → String → Json → Reply Submit

-- The result of a media tool: it raised, or it gave a url, or none, and a duration.
pub data Made : Type 0 where
  broken : Made
  made : Option String → Json → Made

pub record Media : Type 0 where
  pub words : Words
  pub ffmpeg_available : Bool
  -- music, vocal
  pub mix_music_and_vocal : String → String → Made
  -- the urls of the stems
  pub build_instrumental : Json → Option String
  -- a number of seconds, or null
  pub probe_duration : String → Json
  -- video, audio
  pub mux_audio_into_video : String → Json → Made
  -- background, audio, lyrics, aspect ratio
  pub render_lyrics_video : String → Json → Json → Json → Made
