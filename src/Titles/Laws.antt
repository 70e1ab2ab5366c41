-- ===== src/Titles/Laws.antt =====
-- A title is never empty, and never long (app/domain/services/track_title.py).
use musicfy.Prelude.{
  ℕ, ◌+◌, ◌≤◌, String, ◌≡◌, refl, ap, inl, inr, Bool, true, false, Option, none, some, List, [],
  ◌∷◌, arith, str_eq, if◌then◌else◌, Option-cases, Result, ok, err, size, cut, size-cut,
  runtime_error,
}
use musicfy.Titles.Derive.{
  title_or, stem_of, untitled, nonempty, song_title, named_cover, cover_name, first_title,
  cover_title, derive_track_title, cut_or, Words, truncate_title, clean, source_basename,
}
use musicfy.Json.{get, Fields, Json}
use text.Mathlib.TextLemmas.{nil-append, cons-append}
use Prim.Native.String.{◌++◌}

size-append : (s t : String) → size (s ++ t) ≡ size s + size t
size-append String.[] t = omega (arith, ap size (nil-append t))
size-append (String.◌∷◌ c s) t = omega (arith, size-append s t, ap size (cons-append c s t))

size-nonempty : (s : String) → str_eq s "" ≡ false → 1 ≤ size s
size-nonempty String.[] p = ground arith
size-nonempty (String.◌∷◌ c s) p = omega arith

-- Between one character and so many.
abbrev pub IsTitle : ℕ → String → Type 0
IsTitle n s = (1 ≤ size s) × (size s ≤ n)

module _ (words : Words) where
  open words use {
    strip, strip_idem, size-strip-le, before_last_space, size-before-le, file_name,
    without_extension,
  }

  -- A text that stripping leaves something of.
  abbrev pub IsText : String → Type 0
  IsText s = str_eq (strip s) "" ≡ false

  cut_or_limits :
      (s head : String) → size s ≤ 40 → size (strip head) ≤ 40 → size (cut_or words s head) ≤ 40
  cut_or_limits s head p q = ground arith

  head_limits :
      (s : String) → size (cut_or words (strip (before_last_space (cut 40 s))) (cut 40 s)) ≤ 40
  head_limits s =
      let h = cut 40 s in
      cut_or_limits (strip (before_last_space h)) h
        (omega (
          arith,
          size-cut 40 s,
          size-before-le (cut 40 s),
          size-strip-le (before_last_space (cut 40 s)),
        ))
        (omega (arith, size-cut 40 s, size-strip-le (cut 40 s)))

  truncate_title_limits : (s : String) → IsText s → IsTitle 41 (truncate_title words s)
  unfolding truncate_title
  truncate_title_limits s p =
      let t = strip s in
      ground (
        arith,
        size-nonempty t p,
        head_limits t,
        size-append (cut_or words (strip (before_last_space (cut 40 t))) (cut 40 t)) "…",
      )

  -- What `_clean` lets through is stripped, and not empty.
  clean-IsText : (v : Json) (t : String) → clean words v ≡ some t → IsText t
  unfolding clean
  clean-IsText (Json.str s) t p = ground (arith, strip_idem s)
  clean-IsText v t p = ground arith

  stem-IsText :
      (name t : String)
      → (if str_eq name "" then none else nonempty (strip (without_extension name))) ≡ some t
      → IsText t
  stem-IsText name t p = ground (arith, strip_idem (without_extension name))

  cover_name_limits :
      (name : Option String)
      → ((t : String) → name ≡ some t → IsText t)
      → IsTitle 49 (cover_name words name)
  cover_name_limits none h = omega arith
  cover_name_limits (some t) h =
      omega
        (arith, truncate_title_limits t (h t refl), size-append "Cover • " (truncate_title words t))

  -- What becomes of the title of a cover with such an address.
  abbrev pub IsTitled : Option String → Result String → Type 0
  IsTitled source (ok t) = IsTitle 49 t
  IsTitled source (err e) =
      (e ≡ runtime_error "ValueError")
      × ((url : String) × (source ≡ some url) × (file_name url ≡ none))

  source-IsTitled :
      (url : String) (name : Option String)
      → file_name url ≡ name
      → IsTitled (some url) (named_cover words (stem_of words name))
  source-IsTitled url none e = (refl, (url, refl, e))
  source-IsTitled url (some name) e =
      cover_name_limits (if str_eq name "" then none else nonempty (strip (without_extension name)))
        (stem-IsText name)

  cover_title-IsTitled : (url : Option String) → IsTitled url (cover_title words url)
  unfolding source_basename
  cover_title-IsTitled none = omega arith
  cover_title-IsTitled (some url) = source-IsTitled url (file_name url) refl

  first_title_limits : (vs : List Json) → IsTitle 49 (first_title words vs)
  first_title_limits [] = omega arith
  first_title_limits (v ∷ vs) = elim (Option-cases (clean words v)) [
    | inl p ↦ ground (arith, p, first_title_limits vs)
    | inr (t, p) ↦ ground (arith, p, truncate_title_limits t (clean-IsText v t p))
  ]

  -- What becomes of the title of a track: a text, or the error for the address of a cover's source.
  abbrev pub Titles : String → Fields → Result String → Type 0
  Titles kind p (ok t) = (1 ≤ size t) × (size t ≤ 49)
  Titles kind p (err e) =
      (e ≡ runtime_error "ValueError")
      × (str_eq kind "cover" ≡ true)
      × ((url : String) × (clean words (get "source_audio_url" p) ≡ some url)
          × (file_name url ≡ none))

  cover-Titles :
      (kind : String) (p : Fields) (r : Result String)
      → str_eq kind "cover" ≡ true
      → IsTitled (clean words (get "source_audio_url" p)) r
      → Titles kind p r
  cover-Titles kind p (ok t) k h = h
  cover-Titles kind p (err e) k h = (h.0, k, h.1)

  untitled-Titles :
      (kind : String) (p : Fields) (b : Bool)
      → str_eq kind "cover" ≡ b
      → Titles kind p (untitled words b p)
  untitled-Titles kind p true k =
      cover-Titles kind p _ k (cover_title-IsTitled (clean words (get "source_audio_url" p)))
  untitled-Titles kind p false k = first_title_limits (
      get "_generated_title" p
      ∷ get "prompt" p
      ∷ get "custom_lyrics" p
      ∷ get "lyrics_prompt" p
      ∷ [])

  title_or-Titles :
      (kind : String) (p : Fields) (o : Option String)
      → clean words (get "title" p) ≡ o
      → Titles kind p (title_or words o (untitled words (str_eq kind "cover") p))
  title_or-Titles kind p none q = untitled-Titles kind p (str_eq kind "cover") refl
  title_or-Titles kind p (some t) q =
      let limits = truncate_title_limits t (clean-IsText (get "title" p) t q) in
      (limits.0, omega (arith, limits.1))

  -- The title of a track has between 1 and 49 characters, whatever its job's payload holds; only that of a
  -- cover may be an error instead, the `ValueError` of `urlsplit` for the address of its source.
  pub derive_track_title_limits :
      (kind : String) (p : Fields) → Titles kind p (derive_track_title words kind p)
  unfolding derive_track_title
  derive_track_title_limits kind p = title_or-Titles kind p (clean words (get "title" p)) refl

  title_or-song :
      (p : Fields) (o : Option String)
      → (t : String) × (title_or words o (untitled words false p) ≡ ok t)
  title_or-song p none = (song_title words p, refl)
  title_or-song p (some t) = (truncate_title words t, refl)

  -- The title of a song is always a text.
  pub song_title_lem : (p : Fields) → (t : String) × (derive_track_title words "song" p ≡ ok t)
  unfolding derive_track_title
  song_title_lem p = title_or-song p (clean words (get "title" p))
