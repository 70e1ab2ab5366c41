-- ===== src/Fal/Limits.antt =====
-- The limits that the payloads and the titles keep (app/domain/providers/fal/client.py).
use musicfy.Prelude.{
  ℕ, ◌≤◌, String, ◌≡◌, refl, subst, ◌≢◌, ◌⊎◌, inl, inr, Bool, true, false, Option, none, some,
  arith, str_eq, if◌then◌else◌, Bool-cases, Result, ok, err, size, size-cut, and_then, ok_inj,
}
use musicfy.Fal.Requests.{safe_prompt, song_payload}
use musicfy.Json.{Json, Fields, get}
use musicfy.Platform.{Platform}
use musicfy.Fal.Http.{Http, Config}
use musicfy.Fal.Texts.{TextTools, generate_track_title, title_or_new, clean_title}
use musicfy.Fal.Calls.{run_llm}
use text.Mathlib.TextEquality.{eq_iff}

-- A text of so many characters at most.
abbrev pub IsTextWithin : ℕ → Json → Type 0
IsTextWithin n v = (s : String) × (v ≡ Json.str s) × (size s ≤ n)

-- Lyrics, or the model's own.
abbrev pub HasLyrics : Fields → Type 0
HasLyrics p =
    IsTextWithin 3500 (get "lyrics" p) × (get "lyrics_optimizer" p ≡ Json.null)
    ⊎ ((get "lyrics" p ≡ Json.null) × (get "lyrics_optimizer" p ≡ Json.bool true))

-- The payload of a song has a prompt of 2000 characters at most, and either lyrics of 3500 at most or
-- the demand that the model writes them, never both.
pub song_payload_limits :
    (platform : Platform) (prompt : String) (lyrics : Option String)
    → IsTextWithin 2000 (get "prompt" (song_payload platform prompt lyrics))
      × HasLyrics (song_payload platform prompt lyrics)
unfolding song_payload
song_payload_limits platform prompt none =
    ((_, refl, size-cut 2000 (safe_prompt platform prompt)), inr (refl, refl))
song_payload_limits platform prompt (some l) = elim (Bool-cases (str_eq l "")) [
  | inl e ↦ rw e ((_, refl, size-cut 2000 (safe_prompt platform prompt)), inr (refl, refl))
  | inr e ↦ rw e (
    (_, refl, size-cut 2000 (safe_prompt platform prompt)),
    inl ((_, refl, size-cut 3500 l), refl),
  )
]

module _ (platform : Platform) (tools : TextTools) where
  title_or_new-nonempty : (t : Option String) → title_or_new platform tools t ≢ ""
  title_or_new-nonempty none = ground (arith, eq_iff "New Song" "")
  title_or_new-nonempty (some t) = ground (arith, eq_iff t "", eq_iff "New Song" "")

  chosen_title-nonempty :
      (b : Bool) (r : Result String) (title : String)
      → (if b
          then ok "New Song"
          else and_then r
              (λ o. ok (title_or_new platform tools (clean_title platform tools (Json.str o)))))
        ≡ ok title
      → title ≢ ""
  chosen_title-nonempty true r title h = ground (arith, eq_iff "New Song" "", ok_inj h)
  chosen_title-nonempty false (ok o) title h =
      subst (λ t. t ≢ "") (ok_inj h)
        (title_or_new-nonempty (clean_title platform tools (Json.str o)))
  chosen_title-nonempty false (err e) title h = cc

  -- A title that is asked of the model is never empty, whatever the model answers.
  pub generate_track_title-nonempty :
      (http : Http) (config : Config) (prompt lyrics : Option String) (language title : String)
      → generate_track_title platform tools http config prompt lyrics language ≡ ok title
      → title ≢ ""
  unfolding generate_track_title
  generate_track_title-nonempty http config prompt lyrics language title h =
      chosen_title-nonempty _ (run_llm platform http config _) title h
