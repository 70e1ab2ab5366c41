-- ===== src/Subtitles/Laws.antt =====
-- The lines, the cues and the stamps of the subtitles (app/domain/services/video_mux.py).
use musicfy.Prelude.{
  ℕ, suc, ◌+◌, ◌*◌, ◌≤◌, ◌<◌, min, String, ◌≡◌, sym, ap, ◌∙◌, subst, List, [], ◌∷◌, arith,
}
use musicfy.Subtitles.Cues.{Splitter, ts, Cue, per_line, cues_from, count_lines, write_srt}

-- The stamp of a time in milliseconds has its minutes and seconds below 60 and its milliseconds below
-- 1000, and together its fields are the time.
ts_fields :
    (millis : ℕ)
    → ((ts millis).mm < 60)
      × ((ts millis).ss < 60)
      × ((ts millis).mmm < 1000)
      × ((ts millis).hh * 3600000 + (ts millis).mm * 60000 + (ts millis).ss * 1000 + (ts millis).mmm
          ≡ millis)
unfolding ts
ts_fields millis = omega arith

-- Cues that follow one another from one time to another, with no gap.
pub data Tiles : ℕ → ℕ → List Cue → Type 0 where
  at_end : {from to : ℕ} → from ≡ to → Tiles from to []
  next :
      {from to : ℕ} {c : Cue} {cs : List Cue}
      → c.start ≡ from
      → from ≤ c.end
      → Tiles c.end to cs
      → Tiles from to (c ∷ cs)

-- There is a cue that ends before it starts.
pub data Crossed : List Cue → Type 0 where
  here : {c : Cue} {cs : List Cue} → c.end < c.start → Crossed (c ∷ cs)
  there : {c : Cue} {cs : List Cue} → Crossed cs → Crossed (c ∷ cs)

per_line_long : (n d : ℕ) → 500 * n ≤ d → per_line n d ≡ d
per_line_long n d p = omega arith

cue_end :
    (n d i k : ℕ) → 500 * n ≤ d → i + suc k ≡ n → min (d * n) (suc i * per_line n d) ≡ suc i * d
cue_end n d i k p q = grind (arith, per_line_long n d p)

per_line_short : (n d : ℕ) → d ≤ 500 * n → per_line n d ≡ 500 * n
per_line_short n d p = omega arith

mul-mono_lt : (a b c : ℕ) → a < b → 1 ≤ c → a * c < b * c
mul-mono_lt a b c p q = grind arith

last_cue :
    (n d i : ℕ)
    → i + 1 ≡ n
    → d + 500 < 500 * n
    → min (d * n) (suc i * per_line n d) < i * per_line n d
last_cue n d i p q =
    let start : i * per_line n d ≡ 500 * i * n =
      ap (λ t. i * t) (per_line_short n d (omega arith)) ∙ grind arith in
    omega (arith, start, mul-mono_lt d (500 * i) n (omega arith) (omega arith))

module _ (splitter : Splitter) where
  cues_from-Tiles :
      (n d i : ℕ) (lines : List String)
      → 500 * n ≤ d
      → i + count_lines lines ≡ n
      → Tiles (i * d) (d * n) (cues_from splitter n d i lines)
  cues_from-Tiles n d i [] p q = at_end (grind arith)
  cues_from-Tiles n d i (line ∷ lines) p q =
      next (ap (λ per. i * per) (per_line_long n d p))
        (grind (arith, cue_end n d i (count_lines lines) p q))
        (subst (λ t. Tiles t (d * n) (cues_from splitter n d (suc i) lines))
          (sym (cue_end n d i (count_lines lines) p q))
          (cues_from-Tiles n d (suc i) lines p (omega arith)))

  cues_from-Crossed :
      (n d i : ℕ) (line : String) (lines : List String)
      → i + count_lines (line ∷ lines) ≡ n
      → d + 500 < 500 * n
      → Crossed (cues_from splitter n d i (line ∷ lines))
  cues_from-Crossed n d i line [] p q = here (last_cue n d i p q)
  cues_from-Crossed n d i line (other ∷ lines) p q =
      there (cues_from-Crossed n d (suc i) other lines (omega arith) q)

  -- Where there is half a second for each line, the cues follow one another from 0 to the end of the
  -- track, with no gap and none over another.
  pub write_srt-Tiles :
      (lines : List String) (d : ℕ)
      → 500 * count_lines lines ≤ d
      → Tiles 0 (d * count_lines lines) (write_srt splitter lines d)
  unfolding write_srt
  write_srt-Tiles lines d p =
      subst
        (λ t. Tiles t (d * count_lines lines) (cues_from splitter (count_lines lines) d 0 lines))
        (omega arith) (cues_from-Tiles (count_lines lines) d 0 lines p (omega arith))

  -- Where the track is too short for half a second a line by more than half a second, some cue ends
  -- before it starts.
  pub write_srt-Crossed :
      (lines : List String) (d : ℕ)
      → d + 500 < 500 * count_lines lines
      → Crossed (write_srt splitter lines d)
  unfolding write_srt
  write_srt-Crossed [] d p = grind arith
  write_srt-Crossed (line ∷ lines) d p =
      cues_from-Crossed (count_lines (line ∷ lines)) d 0 line lines (omega arith) p
