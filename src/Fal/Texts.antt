-- ===== src/Fal/Texts.antt =====
-- The texts that `FalAiProvider` asks a language model for (app/domain/providers/fal/client.py): lyrics, the
-- assistant, titles. What the code takes of `str`, `re` and `json` is a parameter.
use musicfy.Prelude.{
  String, Bool, false, ◌||◌, Option, none, some, List, [], ◌∷◌, str_eq, if◌then◌else◌, truthy,
  Result, ok, err, cut, and_then,
}
use musicfy.Json.{Json, Fields, get, truth}
use musicfy.Platform.{Platform}
use musicfy.Fal.Http.{Http, Config, fal_provider_error}
use musicfy.Fal.Calls.{run_llm}
use musicfy.Fal.Parsing.{to_str}
use musicfy.Song.Text.{join}
use Prim.Native.String.{◌++◌}

pub record TextTools : Type 0 where
  -- `text.strip("\"'")`
  pub strip_quotes : String → String
  -- `re.sub(r"\s+", " ", text.replace("\n", " "))`
  pub collapse : String → String
  pub rstrip : String → String
  -- `needle in text`
  pub contains : String → String → Bool
  -- `text.split("\n\n", 1)[1]`, where there are two parts
  pub after_blank_line : String → Option String
  -- the three `replace` of the marks of markdown
  pub without_marks : String → String
  -- `_JSON_FENCE_RE.sub("", text)`
  pub unfence : String → String
  -- `text[text.find("{") : text.rfind("}") + 1]`, where both are there, in this order
  pub braces : String → Option String
  -- `json.loads`, `none` for `JSONDecodeError`
  pub loads : String → Option Json

-- The name of a language by the first two letters of its code.
abbrev pub language_name : String → String
language_name code =
    if str_eq code "ru"
    then "Russian"
    else if str_eq code "es"
    then "Spanish"
    else if str_eq code "fr"
    then "French"
    else if str_eq code "de"
    then "German"
    else if str_eq code "pt"
    then "Portuguese"
    else "English"

abbrev pub hint : String → Option String → List String
hint name none = []
hint name (some v) = if str_eq v "" then [] else (name ++ v) ∷ []

abbrev pub two_hints : List String → List String → List String
two_hints [] l = l
two_hints (h ∷ _) l = h ∷ l

abbrev pub lyrics_hints : Option String → Option String → String
lyrics_hints genre mood = elim (two_hints (hint "genre: " genre) (hint "mood: " mood)) [
  | [] ↦ ""
  | h ∷ l ↦ " (" ++ join ", " (h ∷ l) ++ ")"
]

abbrev pub assist_hints : Option String → Option String → String
assist_hints genre mood = elim (two_hints (hint "genre=" genre) (hint "mood=" mood)) [
  | [] ↦ ""
  | h ∷ l ↦ " Additional context: " ++ join ", " (h ∷ l) ++ "."
]

-- The task and the rule of the format, by the target and the action.
abbrev pub assist_task : String → String → String
assist_task target action =
    if str_eq target "lyrics"
    then if str_eq action "enhance"
      then "Rewrite and improve the supplied song lyrics while preserving their meaning. "
        ++ "Improve imagery, rhythm, rhyme and structure."
      else if str_eq action "inspire"
      then "Create fresh, inspiring song lyrics from the theme, or invent an original "
        ++ "theme if none is supplied."
      else "Write a complete original song from the supplied theme."
    else if str_eq action "enhance"
    then "Rewrite the supplied music-generation prompt to be vivid, specific and useful "
      ++ "for a text-to-music model. Preserve the user's intent."
    else if str_eq action "inspire"
    then "Invent one compelling music-generation prompt, using an original genre, mood, "
      ++ "instrumentation and production direction."
    else "Turn the supplied idea into one concise, detailed music-generation prompt."

abbrev pub format_rule : String → String
format_rule target =
    if str_eq target "lyrics"
    then "The content must be complete lyrics with [Verse], [Chorus] and optional [Bridge] "
      ++ "section markers."
    else "The content must be a single prompt, without commentary or labels."

-- The openings after which the first paragraph is dropped.
abbrev pub lyrics_markers : List String
lyrics_markers =
    "Lyrics:\n" ∷ "lyrics:\n" ∷ "Here are" ∷ "Here is" ∷ "Here's" ∷ "Sure," ∷ "Sure!" ∷ []

module _ (platform : Platform) (tools : TextTools) where
  open platform use {lower, strip}
  open tools use {
    strip_quotes, collapse, rstrip, contains, after_blank_line, without_marks, unfence, braces,
    loads,
  }

  -- `_clean_title`
  unfoldable pub clean_title : Json → Option String
  clean_title (Json.str value) =
      let title = collapse (strip_quotes (strip value)) in
      if str_eq title "" then none else some (rstrip (cut 80 title))
  clean_title _ = none

  abbrev pub only_object : Json → Result Fields
  only_object (Json.obj d) = ok d
  only_object _ = err (fal_provider_error "fal LLM returned non-object JSON")

  abbrev pub load_or_refuse : Option Json → Result Fields
  load_or_refuse none = err (fal_provider_error "fal LLM returned invalid JSON")
  load_or_refuse (some j) = only_object j

  -- The last chance of a text that is no JSON: the object inside it.
  abbrev pub load_braces : Option String → Result Fields
  load_braces none = err (fal_provider_error "fal LLM returned invalid JSON")
  load_braces (some s) = load_or_refuse (loads s)

  abbrev pub load_cleaned : String → Option Json → Result Fields
  load_cleaned cleaned none = load_braces (braces cleaned)
  load_cleaned cleaned (some j) = only_object j

  -- `_parse_llm_json`
  unfoldable pub parse_llm_json : String → Result Fields
  parse_llm_json output =
      let cleaned = unfence (strip output) in load_cleaned cleaned (loads cleaned)

  abbrev pub opens_with : List String → String → Bool
  opens_with [] head = false
  opens_with (m ∷ ms) head = contains m head || opens_with ms head

  abbrev pub without_opening : String → String
  without_opening output =
      if opens_with lyrics_markers (cut 80 output)
      then elim (after_blank_line output) [ none ↦ output | some rest ↦ strip rest ]
      else output

  abbrev pub lyrics_prompt : String → String → Option String → Option String → String
  lyrics_prompt prompt language genre mood =
      "You are a professional songwriter. Write song lyrics in "
      ++ language_name (cut 2 (lower language))
      ++ lyrics_hints genre mood
      ++ " based on the user's theme. Structure the song with clearly labelled sections "
      ++ "using [Verse], [Chorus], [Bridge] markers. Output ONLY the lyrics — no preamble, "
      ++ "no commentary, no markdown emphasis, no surrounding quotes."
      ++ "\n\nTheme: "
      ++ prompt
      ++ "\n\nLyrics:"

  abbrev pub assist_prompt :
      String → String → String → String → Option String → Option String → String
  assist_prompt action target source language genre mood =
      "You are a professional songwriter and music producer. "
      ++ assist_task target action
      ++ " Write in language code '"
      ++ language
      ++ "'."
      ++ assist_hints genre mood
      ++ " "
      ++ format_rule target
      ++ " "
      ++ "Also suggest a memorable song title of 2-6 words. "
      ++ "Return ONLY valid JSON: {\"content\":\"...\",\"title\":\"...\"}. "
      ++ "User text: "
      ++ (if str_eq source "" then "(none)" else source)

  abbrev pub title_prompt : String → String → String
  title_prompt source language =
      "Create one memorable title of 2-6 words for this song. "
      ++ "Use language code '"
      ++ language
      ++ "'. Return ONLY the title, no quotes or commentary. "
      ++ "Song context:\n"
      ++ cut 4000 source

  abbrev pub assist_answer : Fields → Result (String × Option String)
  assist_answer d =
      let v = get "content" d in
      let content = strip (if truth v then to_str platform v else "") in
      if str_eq content ""
      then err (fal_provider_error "fal LLM returned empty assist content")
      else ok (content, clean_title (get "title" d))

  -- `x or ""`
  abbrev pub or_empty : Option String → String
  or_empty none = ""
  or_empty (some s) = s

  abbrev pub title_or_new : Option String → String
  title_or_new none = "New Song"
  title_or_new (some t) = if str_eq t "" then "New Song" else t

  module _ (http : Http) (config : Config) where
    -- `generate_lyrics`
    unfoldable pub write_lyrics_text :
        String → String → Option String → Option String → Result String
    write_lyrics_text prompt language genre mood =
        and_then (run_llm platform http config (lyrics_prompt prompt language genre mood))
          (λ output. ok (strip (strip_quotes (strip (without_marks (without_opening output))))))

    -- `assist_text`
    unfoldable pub assist_text :
        String
        → String
        → Option String
        → String
        → Option String
        → Option String
        → Result (String × Option String)
    assist_text action target text language genre mood =
        let source = strip (or_empty text) in
        and_then
          (run_llm platform http config (assist_prompt action target source language genre mood))
          (λ output. and_then (parse_llm_json output) assist_answer)

    -- `generate_track_title`
    unfoldable pub generate_track_title : Option String → Option String → String → Result String
    generate_track_title prompt lyrics language =
        let source = strip (if truthy lyrics then or_empty lyrics else or_empty prompt) in
        if str_eq source ""
        then ok "New Song"
        else and_then (run_llm platform http config (title_prompt source language))
            (λ output. ok (title_or_new (clean_title (Json.str output))))
