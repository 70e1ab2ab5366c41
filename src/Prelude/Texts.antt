-- ===== src/Prelude/Texts.antt =====
-- Python's `len(text)` and `text[:n]`, over the characters of a text.
use Prim.Native.Nat.{ℕ, zero, suc, ◌≤◌}
use Prim.Native.String.{String}
use native.Mathlib.Omega.{arith}

abbrev pub size : String → ℕ
size String.[] = 0
size (String.◌∷◌ c s) = suc (size s)

abbrev pub cut : ℕ → String → String
cut zero s = ""
cut (suc n) String.[] = ""
cut (suc n) (String.◌∷◌ c s) = String.◌∷◌ c (cut n s)

pub size-cut : (n : ℕ) (s : String) → size (cut n s) ≤ n
size-cut zero s = omega arith
size-cut (suc n) String.[] = omega arith
size-cut (suc n) (String.◌∷◌ c s) = omega (arith, size-cut n s)
