-- ===== src/Subtitles/Cues.antt =====
-- `split_lyric_lines`, `_write_srt`, `_ts` and `_srt_escape` (app/domain/services/video_mux.py). The times
-- of the cues are exact here, in n-ths of a millisecond for n lines, where the code has floats.
use musicfy.Prelude.{
  ℕ, zero, suc, ◌*◌, ◌/◌, min, max, String, Bool, ◌&&◌, Option, none, some, List, [], ◌∷◌, str_eq,
  if◌then◌else◌, ◌%◌,
}

-- What the code calls of `str`.
pub record Splitter : Type 0 where
  pub splitlines : String → List String
  pub strip : String → String
  pub starts_with : String → String → Bool
  pub ends_with : String → String → Bool
  -- `text.replace(old, new)`
  pub replace : String → String → String → String

-- `MAX_LYRIC_LINES`
abbrev pub max_lyric_lines : ℕ
max_lyric_lines = 200

module _ (splitter : Splitter) where
  open splitter use {splitlines, strip, starts_with, ends_with, replace}

  -- `line.startswith("[") and line.endswith("]")`
  abbrev pub is_section : String → Bool
  is_section line = starts_with line "[" && ends_with line "]"

  -- The loop, with the number of lines that may still come, which is never zero in the code.
  abbrev pub lyric_lines : ℕ → List String → List String
  lyric_lines zero raws = []
  lyric_lines (suc room) [] = []
  lyric_lines (suc room) (raw ∷ raws) =
      let line = strip raw in
      let skipped = lyric_lines (suc room) raws in
      let kept = lyric_lines room raws in
      if str_eq line "" then skipped else if is_section line then skipped else line ∷ kept

  -- `split_lyric_lines`
  unfoldable pub split_lyric_lines : Option String → List String
  split_lyric_lines none = []
  split_lyric_lines (some lyrics) =
      if str_eq lyrics "" then [] else lyric_lines max_lyric_lines (splitlines lyrics)

  -- `_srt_escape`
  abbrev pub srt_escape : String → String
  srt_escape text = replace (replace text "{" "(") "}" ")"

-- The fields of a stamp `hh:mm:ss,mmm`.
pub record Stamp : Type 0 where
  pub hh : ℕ
  pub mm : ℕ
  pub ss : ℕ
  pub mmm : ℕ

-- `_ts`, from the rounded number of milliseconds on.
unfoldable pub ts : ℕ → Stamp
ts millis =
    let rest = millis % 3600000 in
    let left = rest % 60000 in
    record { hh = millis / 3600000; mm = rest / 60000; ss = left / 1000; mmm = left % 1000 }

-- A cue of the file: its number, its times and its text.
pub record Cue : Type 0 where
  pub number : ℕ
  pub start : ℕ
  pub end : ℕ
  pub text : String

-- `per = max(0.5, duration / len(lines))`, in n-ths of a millisecond
abbrev pub per_line : ℕ → ℕ → ℕ
per_line n duration = max (500 * n) duration

-- The loop of `_write_srt`, from the line `i` of `n` on.
abbrev pub cue_of : Splitter → ℕ → ℕ → ℕ → String → Cue
cue_of splitter n duration i line = record {
  number = suc i;
  start = i * per_line n duration;
  end = min (duration * n) (suc i * per_line n duration);
  text = srt_escape splitter line;
}

abbrev pub cues_from : Splitter → ℕ → ℕ → ℕ → List String → List Cue
cues_from splitter n duration i [] = []
cues_from splitter n duration i (line ∷ lines) =
    cue_of splitter n duration i line ∷ cues_from splitter n duration (suc i) lines

abbrev pub count_lines : List String → ℕ
count_lines [] = 0
count_lines (line ∷ lines) = suc (count_lines lines)

-- `_write_srt`
unfoldable pub write_srt : Splitter → List String → ℕ → List Cue
write_srt splitter lines duration = cues_from splitter (count_lines lines) duration 0 lines
