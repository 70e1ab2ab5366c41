-- ===== src/RateLimit/Bounds.antt =====
-- How many requests of a key the rate limit lets through, and when (app/middleware/rate_limit.py).
use musicfy.Prelude.{
  ℕ, ◌+◌, ◌-◌, ◌*◌, ◌≤◌, ◌≡◌, refl, inl, inr, Option, none, some, arith, leb, Bool-cases,
}
use musicfy.RateLimit.{
  denied, Limit, Bucket, Verdict, consume, token, capacity, refilled, bucket_or,
}

-- What a bucket may still give at a time, were it not capped.
abbrev pub funds : Limit → ℕ → Bucket → ℕ
funds l t b = b.tokens + (t - b.last_refill) * l.per_minute

abbrev pub cost : Verdict → ℕ
cost Verdict.allowed = 1
cost (denied _) = 0

pub consume_funds :
    (l : Limit) (now : ℕ) (b : Bucket)
    → (cost (consume l now b).0 * token + (consume l now b).1.tokens ≤ refilled l now b)
      × ((consume l now b).1.last_refill ≡ now)
unfolding consume
consume_funds l now b = elim (Bool-cases (leb token (refilled l now b))) [
  | inl e ↦ rw e (ground (arith, e), refl)
  | inr e ↦ rw e (omega arith, refl)
]

pub span : (a b c m : ℕ) → a ≤ b → b ≤ c → (b - a) * m + (c - b) * m ≡ (c - a) * m
span a b c m p q = grind arith

-- The funds of a key whose bucket may not be there yet.
abbrev pub funds_of : Limit → ℕ → Option Bucket → ℕ
funds_of l t none = capacity l
funds_of l t (some b) = funds l t b

abbrev pub IsUpTo : ℕ → Option Bucket → Type 0
IsUpTo t none = Unit
IsUpTo t (some b) = b.last_refill ≤ t

pub funds_of-later :
    (l : Limit) (t now end : ℕ) (o : Option Bucket)
    → IsUpTo t o
    → t ≤ now
    → now ≤ end
    → funds_of l now o + (end - now) * l.per_minute ≤ funds_of l t o + (end - t) * l.per_minute
funds_of-later l t now end none u p q = omega (arith, span t now end l.per_minute p q)
funds_of-later l t now end (some b) u p q =
    omega (arith, span t now end l.per_minute p q, span b.last_refill t now l.per_minute u p)

pub refilled-funds :
    (l : Limit) (now : ℕ) (o : Option Bucket)
    → refilled l now (bucket_or l now o) ≤ funds_of l now o
refilled-funds l now none = omega arith
refilled-funds l now (some b) = omega arith
