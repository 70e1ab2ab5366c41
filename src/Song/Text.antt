-- ===== src/Song/Text.antt =====
-- The pure helpers of app/domain/services/pipelines/song.py, and the names of the stages.
use musicfy.Prelude.{ℕ, min, max, String, List, [], ◌∷◌, if◌then◌else◌}
use musicfy.Work.Runtime.{Output, no_output, media_of}
use Prim.Native.String.{◌++◌}
use musicfy.Json.{Json, Fields, get, truth, as_dict, text_of}
use musicfy.Prelude.Int.{pos_part}
use musicfy.Platform.{Platform}
use musicfy.Billing.{truncate}

-- `separator.join(parts)`
abbrev pub join : String → List String → String
join separator [] = ""
join separator (s ∷ []) = s
join separator (s ∷ (t ∷ ts)) = s ++ separator ++ join separator (t ∷ ts)

abbrev append_parts : List String → List String → List String
append_parts [] ts = ts
append_parts (s ∷ ss) ts = s ∷ append_parts ss ts

module _ (platform : Platform) where
  open platform use {show}

  -- One part of a prompt, where the payload has the field.
  abbrev part : String → String → String → Fields → List String
  part before name after payload =
      if truth (get name payload) then (before ++ show (get name payload) ++ after) ∷ [] else []

  abbrev song_parts : Fields → List String
  song_parts p = append_parts (part "" "prompt" "" p) (
      append_parts (part "genre: " "genre" "" p) (
        append_parts (part "mood: " "mood" "" p) (
          append_parts (part "" "tempo_bpm" " BPM" p) (
            append_parts (part "vocals: " "vocal_type" "" p) (
              append_parts (part "language: " "language" "" p)
                (part "avoid: " "negative_hints" "" p))))))

  -- `_compose_song_prompt`
  unfoldable pub compose_song_prompt : Fields → String
  compose_song_prompt p = elim (song_parts p) [
    | [] ↦ "an original song"
    | s ∷ ss ↦ join " | " (s ∷ ss)
  ]

  -- `_fallback_tags`
  unfoldable pub fallback_tags : Fields → String
  fallback_tags p = join ", " (
      append_parts (part "" "genre" "" p) (
        append_parts (part "" "mood" "" p) (
          append_parts (part "" "vocal_type" "" p)
            (append_parts (part "" "tempo_bpm" " bpm" p) ("vocal" ∷ [])))))

-- `int(payload.get("desired_duration_seconds") or 30)`, which the request's schema makes a number; what is
-- below 0 counts as 0.
abbrev pub seconds_of : Json → ℕ
seconds_of (Json.int n) = pos_part n
seconds_of (Json.float n) = pos_part (truncate n)
seconds_of _ = 30

-- `max(10, min(47, int(... or 30)))`
abbrev pub fallback_seconds : Fields → ℕ
fallback_seconds p =
    let v = get "desired_duration_seconds" p in
    max 10 (min 47 (if truth v then seconds_of v else 30))

abbrev pub output_of : String → Fields → Output
output_of key runtime =
    let r = as_dict (get key runtime) in
    record {
      audio_url = text_of (get "media_url" r);
      duration_seconds = get "duration_seconds" r;
      stems = get "stems" r;
    }

-- `_pick_output`: the mix, or else the music.
unfoldable pub pick_output : Fields → Output
pick_output runtime =
    if truth (media_of "mix_master" runtime)
    then output_of "mix_master" runtime
    else if truth (media_of "music_generation" runtime)
    then output_of "music_generation" runtime
    else no_output
