-- ===== src/Subtitles/Lines.antt =====
-- What the lines of the subtitles may be (app/domain/services/video_mux.py, `split_lyric_lines`).
use musicfy.Prelude.{
  ℕ, zero, suc, ◌≤◌, String, ◌≡◌, refl, Bool, true, false, Option, none, some, List, [], ◌∷◌, arith,
  str_eq, if◌then◌else◌,
}
use musicfy.Subtitles.Cues.{Splitter, is_section, lyric_lines, split_lyric_lines, count_lines}

-- Lines that are not empty and no section's name.
pub data AreLines (splitter : Splitter) : List String → Type 0 where
  no_more : AreLines splitter []
  one_more :
      {line : String} {lines : List String}
      → str_eq line "" ≡ false
      → is_section splitter line ≡ false
      → AreLines splitter lines
      → AreLines splitter (line ∷ lines)

module _ (splitter : Splitter) where
  abbrev AreLyrics : ℕ → List String → Type 0
  AreLyrics room lines = AreLines splitter lines × (count_lines lines ≤ room)

  -- One turn of the loop, by what it finds of the line.
  turn-AreLyrics :
      (room : ℕ) (line : String) (skipped kept : List String) (is_empty in_brackets : Bool)
      → str_eq line "" ≡ is_empty
      → is_section splitter line ≡ in_brackets
      → AreLyrics (suc room) skipped
      → AreLyrics room kept
      → AreLyrics
          (suc room)
          (if is_empty then skipped else if in_brackets then skipped else line ∷ kept)
  turn-AreLyrics room line skipped kept true in_brackets p q s k = s
  turn-AreLyrics room line skipped kept false true p q s k = s
  turn-AreLyrics room line skipped kept false false p q s k = (one_more p q k.0, omega (arith, k.1))

  lyric_lines-AreLyrics :
      (room : ℕ) (raws : List String) → AreLyrics room (lyric_lines splitter room raws)
  lyric_lines-AreLyrics zero raws = (no_more, omega arith)
  lyric_lines-AreLyrics (suc room) [] = (no_more, omega arith)
  lyric_lines-AreLyrics (suc room) (raw ∷ raws) =
      let line = splitter.strip raw in
      turn-AreLyrics room line (lyric_lines splitter (suc room) raws)
        (lyric_lines splitter room raws) (str_eq line "") (is_section splitter line) refl refl
        (lyric_lines-AreLyrics (suc room) raws) (lyric_lines-AreLyrics room raws)

  -- The lines of the subtitles are 200 at most, and none of them is empty or the name of a section.
  split_lyric_lines_limits :
      (lyrics : Option String)
      → AreLines splitter (split_lyric_lines splitter lyrics)
        × (count_lines (split_lyric_lines splitter lyrics) ≤ 200)
  unfolding split_lyric_lines
  split_lyric_lines_limits none = (no_more, omega arith)
  split_lyric_lines_limits (some lyrics) =
      elim (str_eq lyrics "")
        as (λ b.
          AreLyrics 200 (if b then [] else lyric_lines splitter 200 (splitter.splitlines lyrics))) [
            | true ↦ (no_more, omega arith)
            | false ↦ lyric_lines-AreLyrics 200 (splitter.splitlines lyrics)
          ]
