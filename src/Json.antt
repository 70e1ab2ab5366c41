-- ===== src/Json.antt =====
-- Values as `json.loads` gives them. A number with a fraction is counted in
-- millionths; an object keeps its
-- fields in order, and Python's dict has each name once.
pub mod Laws
use musicfy.Prelude.{
  none, true, some, ◌==◌, false, Option, String, Bool, not, ◌&&◌, str_eq, if◌then◌else◌,
}
use musicfy.Prelude.Int.{neg_part, pos_part, ℤ}

mutual
  pub data Json : Type 0 where
    null : Json
    bool : Bool → Json
    int : ℤ → Json
    float : ℤ → Json
    str : String → Json
    arr : Items → Json
    obj : Fields → Json

  pub data Items : Type 0 where
    nil : Items
    cons : Json → Items → Items

  pub data Fields : Type 0 where
    end : Fields
    field : String → Json → Fields → Fields

-- `d.get(name)`
abbrev pub get : String → Fields → Json
get name end = Json.null
get name (field k v fs) = if str_eq k name then v else get name fs

-- `value if isinstance(value, dict) else {}`
abbrev pub as_dict : Json → Fields
as_dict (Json.obj fs) = fs
as_dict _ = Fields.end

-- `d[name] = value`
abbrev pub set : String → Json → Fields → Fields
set name v end = field name v end
set name v (field k u fs) = if str_eq k name then field k v fs else field k u (set name v fs)

abbrev pub is_zero : ℤ → Bool
is_zero n = pos_part n == 0 && neg_part n == 0

-- Python's truth of a value.
abbrev pub truth : Json → Bool
truth Json.null = false
truth (Json.bool b) = b
truth (Json.int n) = not (is_zero n)
truth (Json.float n) = not (is_zero n)
truth (Json.str s) = not (str_eq s "")
truth (Json.arr nil) = false
truth (Json.arr (cons _ _)) = true
truth (Json.obj end) = false
truth (Json.obj (field _ _ _)) = true

-- The value where a text is meant; any other value counts as none.
abbrev pub text_of : Json → Option String
text_of (Json.str s) = some s
text_of _ = none

abbrev pub of_text : Option String → Json
of_text none = Json.null
of_text (some s) = Json.str s
