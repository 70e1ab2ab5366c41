-- ===== src/Generation/Moderation.antt =====
-- `ModerationService.screen_text` (app/domain/services/moderation_service.py). `contains` is Python's `phrase in text`.
use musicfy.Prelude.{String, Bool, Option, none, some, List, [], ◌∷◌, if◌then◌else◌, get_or, truthy}
use musicfy.Platform.{Platform}
use musicfy.Song.Text.{join}
use Prim.Native.String.{◌++◌}

-- `_BLOCKLIST`; a set has no order, so the reason names one of the phrases that occur.
abbrev pub blocklist : List String
blocklist = "child sexual" ∷ "csam" ∷ "bomb instructions" ∷ "terrorist attack" ∷ []

module _ (platform : Platform) (contains : String → String → Bool) where
  open platform use {lower}

  -- The texts that are there.
  abbrev pub lower_texts : List (Option String) → List String
  lower_texts [] = []
  lower_texts (t ∷ ts) =
      let rest = lower_texts ts in if truthy t then lower (get_or "" t) ∷ rest else rest

  unfoldable pub first_phrase : List String → String → Option String
  first_phrase [] joined = none
  first_phrase (p ∷ ps) joined =
      if contains p joined then some ("blocked_phrase:" ++ p) else first_phrase ps joined

  -- `screen_text`
  unfoldable pub screen_text : List (Option String) → Option String
  screen_text texts = first_phrase blocklist (join " " (lower_texts texts))
