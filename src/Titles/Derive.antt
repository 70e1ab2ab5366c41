-- ===== src/Titles/Derive.antt =====
-- `derive_track_title` (app/domain/services/track_title.py) and `derive_video_title` (video_title.py).
use musicfy.Prelude.{
  ℕ, ◌≤◌, String, ◌≡◌, Bool, true, false, Option, none, some, List, [], ◌∷◌, leb, str_eq,
  if◌then◌else◌, get_or, Result, ok, err, size, cut, runtime_error,
}
use musicfy.Json.{Json, Fields, get}
use Prim.Native.String.{◌++◌}

-- What the code calls of `str`, `os.path` and `urllib.parse`, with what it relies on.
pub record Words : Type 0 where
  pub strip : String → String
  pub strip_idem : (s : String) → strip (strip s) ≡ strip s
  pub size-strip-le : (s : String) → size (strip s) ≤ size s
  -- `text.rsplit(" ", 1)[0]`
  pub before_last_space : String → String
  pub size-before-le : (s : String) → size (before_last_space s) ≤ size s
  -- `unquote(os.path.basename(urlsplit(url).path))`, `none` for `ValueError`
  pub file_name : String → Option String
  -- `os.path.splitext(name)[0]`
  pub without_extension : String → String

-- `_TITLE_MAX_LEN`
abbrev pub title_max_len : ℕ
title_max_len = 40

-- A text, where it is not empty.
abbrev pub nonempty : String → Option String
nonempty s = if str_eq s "" then none else some s

module _ (words : Words) where
  open words use {strip, before_last_space, file_name, without_extension}

  -- `cut or head.strip()`
  abbrev pub cut_or : String → String → String
  cut_or s head = if str_eq s "" then strip head else s

  -- `_truncate`
  unfoldable pub truncate_title : String → String
  truncate_title text =
      let t = strip text in
      let head = cut title_max_len t in
      if leb (size t) title_max_len then t else cut_or (strip (before_last_space head)) head ++ "…"

  -- `_clean`
  unfoldable pub clean : Json → Option String
  clean (Json.str s) = nonempty (strip s)
  clean _ = none

  -- The stem of a file's name.
  abbrev pub stem_of : Option String → Result (Option String)
  stem_of none = err (runtime_error "ValueError")
  stem_of (some name) =
      ok (if str_eq name "" then none else nonempty (strip (without_extension name)))

  -- `_source_basename`
  unfoldable pub source_basename : String → Result (Option String)
  source_basename url = stem_of (file_name url)

  abbrev pub cover_name : Option String → String
  cover_name none = "Cover"
  cover_name (some name) = "Cover • " ++ truncate_title name

  abbrev pub named_cover : Result (Option String) → Result String
  named_cover (ok name) = ok (cover_name name)
  named_cover (err e) = err e

  abbrev pub cover_title : Option String → Result String
  cover_title none = ok "Cover"
  cover_title (some url) = named_cover (source_basename url)

  -- The first of the values that is a text.
  abbrev pub first_title : List Json → String
  first_title [] = "New Song"
  first_title (v ∷ vs) = elim (clean v) [ none ↦ first_title vs | some t ↦ truncate_title t ]

  abbrev pub song_title : Fields → String
  song_title p = first_title (
      get "_generated_title" p
      ∷ get "prompt" p
      ∷ get "custom_lyrics" p
      ∷ get "lyrics_prompt" p
      ∷ [])

  -- The title by the kind, which is `cover` or not.
  abbrev pub untitled : Bool → Fields → Result String
  untitled true p = cover_title (clean (get "source_audio_url" p))
  untitled false p = ok (song_title p)

  abbrev pub title_or : Option String → Result String → Result String
  title_or none other = other
  title_or (some t) other = ok (truncate_title t)

  -- `derive_track_title`
  unfoldable pub derive_track_title : String → Fields → Result String
  derive_track_title kind p = title_or (clean (get "title" p)) (untitled (str_eq kind "cover") p)

  -- `_MODE_TITLES`, with the fallback
  abbrev pub mode_title : Json → String
  mode_title (Json.str s) =
      if str_eq s "avatar_performance"
      then "Avatar Video"
      else if str_eq s "visual_clip"
      then "Visual Clip"
      else if str_eq s "lyrics_video"
      then "Lyrics Video"
      else "Music Video"
  mode_title _ = "Music Video"

  -- `derive_video_title`
  unfoldable pub derive_video_title : Fields → String
  derive_video_title p = get_or (mode_title (get "mode" p)) (clean (get "title" p))
