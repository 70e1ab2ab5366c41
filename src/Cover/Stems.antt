-- ===== src/Cover/Stems.antt =====
-- `_pick_stem` and `_collect_instrumental_urls` (app/domain/services/pipelines/cover.py): the stems of a
-- song are urls, or objects with a url, by their names.
use musicfy.Prelude.{String, Bool, not, ◌&&◌, ◌||◌, List, [], ◌∷◌, str_eq, if◌then◌else◌}
use musicfy.Json.{Json, Fields, Items, end, field, get, truth}

-- The url of a stem, or null.
abbrev pub url_of : Json → Json
url_of (Json.str s) = if str_eq s "" then Json.null else Json.str s
url_of (Json.obj fs) = if truth (get "url" fs) then get "url" fs else Json.null
url_of _ = Json.null

-- `_pick_stem`
unfoldable pub pick_stem : List String → Fields → Json
pick_stem [] stems = Json.null
pick_stem (k ∷ ks) stems =
    let rest = pick_stem ks stems in
    if truth (url_of (get k stems)) then url_of (get k stems) else rest

abbrev is_vocal : String → Bool
is_vocal k = str_eq k "vocals" || str_eq k "vocal"

-- `_collect_instrumental_urls`
unfoldable pub collect_instrumental_urls : Fields → Items
collect_instrumental_urls end = Items.nil
collect_instrumental_urls (field k v stems) =
    let rest = collect_instrumental_urls stems in
    if not (is_vocal k) && truth (url_of v) then Items.cons (url_of v) rest else rest
