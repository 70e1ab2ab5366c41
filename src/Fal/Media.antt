-- ===== src/Fal/Media.antt =====
-- What `extract_media` and `extract_stems` find (app/domain/providers/fal/parsing.py), against plain
-- descriptions of both.
use musicfy.Prelude.{
  ◌≤◌, String, ◌≡◌, refl, sym, ap, ◌∙◌, ◌≢◌, ◌↔◌, ◌⊎◌, inl, inr, Bool, true, false, ◌&&◌, Option,
  none, some, List, [], ◌∷◌, arith, leb, if◌then◌else◌, first_some, ◌++◌,
}
use musicfy.Fal.Parsing.{
  is_dict, enough_stems, extract_stems, count_fields, explicit_stems, media_keys, keep_if, is_stem,
  top_stems, Found, look_at, look_through, find_media,
}
use musicfy.Json.{Json, Fields, end, field, get, truth}
use musicfy.Work.Runtime.{or_else}

-- The field is among the fields.
abbrev pub Has : String → Json → Fields → Type 0
Has k v end = ⊥
Has k v (field j u fs) = ((k ≡ j) × (v ≡ u)) ⊎ Has k v fs

-- A field is among the stems where it is among the fields, bears the name of a stem, and has a url.
abbrev pub IsStems : Fields → Fields → Type 0
IsStems stems fs = (k : String) (v : Json) → Has k v stems ↔ (Has k v fs × (is_stem k v ≡ true))

true_not_false : ◌≢◌ {A = Bool} true false
true_not_false e = cc

is_stem-eq :
    {k j : String} {v u : Json} {b : Bool} → k ≡ j → v ≡ u → is_stem j u ≡ b → is_stem k v ≡ b
is_stem-eq p q e = cc

keep_if-Has :
    (b : Bool) (j : String) (u : Json) (stems fs : Fields)
    → is_stem j u ≡ b
    → IsStems stems fs
    → IsStems (keep_if b j u stems) (field j u fs)
keep_if-Has true j u stems fs e h k v = (
  λ a. elim a [
    | inl p ↦ (inl p, is_stem-eq p.0 p.1 e)
    | inr s ↦ let r = (h k v).0 s in (inr r.0, r.1)
  ],
  λ a. elim a.0 [ inl p ↦ inl p | inr s ↦ inr ((h k v).1 (s, a.1)) ],
)
keep_if-Has false j u stems fs e h k v = (
  λ s. let r = (h k v).0 s in (inr r.0, r.1),
  λ a. elim a.0 [
    | inl p ↦ absurd (true_not_false (sym a.1 ∙ is_stem-eq p.0 p.1 e))
    | inr s ↦ (h k v).1 (s, a.1)
  ],
)

top_stems-IsStems : (fs : Fields) → IsStems (top_stems fs) fs
unfolding top_stems
top_stems-IsStems end k v = (λ h. elim h [ ], λ h. elim h.0 [ ])
top_stems-IsStems (field j u fs) k v =
    keep_if-Has (is_stem j u) j u (top_stems fs) fs refl (top_stems-IsStems fs) k v

enough_stems-IsStems :
    (top result : Fields) (b : Bool)
    → leb 2 (count_fields top) ≡ b
    → IsStems top result
    → (enough_stems top ≡ Json.null)
      ⊎ ((t : Fields) × (enough_stems top ≡ Json.obj t) × (2 ≤ count_fields t) × IsStems t result)
enough_stems-IsStems top result true e h = inr (top, rw e, ground arith, h)
enough_stems-IsStems top result false e h = inl (rw e)

explicit_stems-IsStems :
    (own : Bool) (stems : Json) (result : Fields)
    → (is_dict stems && truth stems) ≡ own
    → (truth stems ≡ true) × (explicit_stems stems result ≡ stems)
      ⊎ (explicit_stems stems result ≡ Json.null)
      ⊎ ((top : Fields) × (explicit_stems stems result ≡ Json.obj top)
          × (2 ≤ count_fields top)
          × IsStems top result)
explicit_stems-IsStems true stems result e = inl (ground arith, rw e)
explicit_stems-IsStems false stems result e =
    rw e (inr (enough_stems-IsStems (top_stems result) result _ refl (top_stems-IsStems result)))

-- The stems of a result are its own `stems`, where it names any; otherwise they are exactly the fields
-- that bear the name of a stem and have a url, where these are two at least.
pub extract_stems-IsStems :
    (result : Fields)
    → (truth (get "stems" result) ≡ true) × (extract_stems result ≡ get "stems" result)
      ⊎ (extract_stems result ≡ Json.null)
      ⊎ ((top : Fields) × (extract_stems result ≡ Json.obj top)
          × (2 ≤ count_fields top)
          × IsStems top result)
unfolding extract_stems
extract_stems-IsStems result = explicit_stems-IsStems _ (get "stems" result) result refl

-- The values that a list of candidates offers, in order: the first that is true.
abbrev pub first_true : List Json → Option Json
first_true [] = none
first_true (v ∷ vs) = if truth v then some v else first_true vs

abbrev pub when_true : Json → Option Json
when_true v = if truth v then some v else none

abbrev pub urls_at : Json → List Json
urls_at (Json.obj v) = get "url" v ∷ get "audio_url" v ∷ get "video_url" v ∷ []
urls_at (Json.str s) = Json.str s ∷ []
urls_at _ = []

abbrev pub urls_in : List String → Fields → List Json
urls_in [] obj = []
urls_in (k ∷ ks) obj = urls_at (get k obj) ++ urls_in ks obj

-- Where `extract_media` looks for the url, in its order.
abbrev pub media_urls : Fields → List Json
media_urls obj = urls_in media_keys obj ++ (get "audio_url" obj ∷ get "video_url" obj ∷ [])

first_true-append :
    (u v : List Json) → first_true (u ++ v) ≡ first_some (first_true u) (first_true v)
first_true-append [] v = refl
first_true-append (x ∷ u) v = ground (arith, first_true-append u v)

look_at_url :
    (v : Json) (f : Found)
    → when_true (look_at v f).url ≡ first_some (when_true f.url) (first_true (urls_at v))
look_at_url (Json.obj v) f = ground arith
look_at_url (Json.str s) f = ground arith
look_at_url Json.null f = ground arith
look_at_url (Json.bool b) f = ground arith
look_at_url (Json.int n) f = ground arith
look_at_url (Json.float n) f = ground arith
look_at_url (Json.arr l) f = ground arith

look_through_url :
    (ks : List String) (obj : Fields) (f : Found)
    → when_true (look_through ks obj f).url
      ≡ first_some (when_true f.url) (first_true (urls_in ks obj))
unfolding look_through
look_through_url [] obj f = ground arith
look_through_url (k ∷ ks) obj f = ground (
  arith,
  look_at_url (get k obj) f,
  look_through_url ks obj (look_at (get k obj) f),
  first_true-append (urls_at (get k obj)) (urls_in ks obj),
)

or_else_url :
    (u v w : Json)
    → when_true (or_else u (or_else v w)) ≡ first_some (when_true u) (first_true (v ∷ w ∷ []))
or_else_url u v w = ground arith

-- The url of a result is the first of the places where fal puts one that holds one; there is none
-- exactly where no place has one.
pub find_media_url : (obj : Fields) → when_true (find_media obj).url ≡ first_true (media_urls obj)
unfolding find_media
find_media_url obj =
    let tail = get "audio_url" obj ∷ get "video_url" obj ∷ [] in
    let start : Found = record { url = Json.null; duration = Json.null } in
    or_else_url (look_through media_keys obj start).url (get "audio_url" obj) (get "video_url" obj)
    ∙ ap (λ o. first_some o (first_true tail)) (look_through_url media_keys obj start)
    ∙ sym (first_true-append (urls_in media_keys obj) tail)
