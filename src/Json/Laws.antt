-- ===== src/Json/Laws.antt =====
-- Reading a field after a write of a Python dict.
use musicfy.Prelude.{String, ◌≡◌, ap, ◌∙◌, inl, inr, false, arith, str_eq, Bool-cases}
use musicfy.Json.{field, Json, Fields, end, get, set}
use text.Mathlib.TextEquality.{eq_iff}
use text.Mathlib.TextPositions.{eq_refl}

pub get-set : (name : String) (v : Json) (fs : Fields) → get name (set name v fs) ≡ v
get-set name v end = ground (arith, eq_refl name)
get-set name v (field k u fs) = ground (arith, get-set name v fs)

pub get-set_other :
    (name other : String) (v : Json) (fs : Fields)
    → str_eq other name ≡ false
    → get name (set other v fs) ≡ get name fs
get-set_other name other v end e = ground arith
get-set_other name other v (field k u fs) e = elim (Bool-cases (str_eq k other)) [
  | inl y ↦ ground (arith, ap (λ s. str_eq s name) ((eq_iff k other).0 y) ∙ e)
  | inr n ↦ ground (arith, get-set_other name other v fs e)
]
