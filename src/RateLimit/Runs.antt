-- ===== src/RateLimit/Runs.antt =====
-- How many requests of a key the rate limit lets through (app/middleware/rate_limit.py).
use musicfy.Prelude.{
  ℕ, ◌+◌, ◌-◌, ◌*◌, ◌≤◌, max, ◌≡◌, refl, sym, ap, subst, Bool, true, false, Option, none, some,
  List, [], ◌∷◌, arith, ◌==◌, Table, lookup, insert, lookup-insert,
}
use musicfy.RateLimit.{Limit, Bucket, Verdict, consume, token, bucket_or, take_token}
use musicfy.RateLimit.Bounds.{
  cost, consume_funds, funds, funds_of, IsUpTo, funds_of-later, refilled-funds,
}

abbrev pub cost_if : Bool → Verdict → ℕ
cost_if true v = cost v
cost_if false v = 0

-- How many of the requests (a time and a key each) are let through for the key `k`.
abbrev pub passed : Limit → ℕ → List (ℕ × ℕ) → Table Bucket → ℕ
passed l k [] buckets = 0
passed l k ((now, key) ∷ rs) buckets =
    let v = take_token l now key buckets in cost_if (key == k) v.0 + passed l k rs v.1

-- Requests one after another, between two times.
abbrev pub IsTimed : ℕ → ℕ → List (ℕ × ℕ) → Type 0
IsTimed t end [] = t ≤ end
IsTimed t end ((now, key) ∷ rs) = (t ≤ now) × IsTimed now end rs

IsTimed-le : (t end : ℕ) (rs : List (ℕ × ℕ)) → IsTimed t end rs → t ≤ end
IsTimed-le t end [] h = h
IsTimed-le t end ((now, key) ∷ rs) h = omega (arith, h.0, IsTimed-le now end rs h.1)

pub lookup_same :
    (k key : ℕ) (b : Bucket) (t : Table Bucket)
    → (key == k) ≡ true
    → lookup k (insert key b t) ≡ some b
lookup_same k key b t e = ground (arith, lookup-insert k key b t)

lookup_other :
    (k key : ℕ) (b : Bucket) (t : Table Bucket)
    → (key == k) ≡ false
    → lookup k (insert key b t) ≡ lookup k t
lookup_other k key b t e = ground (arith, lookup-insert k key b t)

lookup_key : (k key : ℕ) (t : Table Bucket) → (key == k) ≡ true → lookup key t ≡ lookup k t
lookup_key k key t e = ap (λ i. lookup i t) (ground arith)

module _ (l : Limit) where
  funds_now : (now : ℕ) (b : Bucket) → b.last_refill ≡ now → funds l now b ≡ b.tokens
  funds_now now b e = grind arith

  -- One request, of the key or of another.
  take_token-funds :
      (k now key : ℕ) (same : Bool) (buckets : Table Bucket)
      → (key == k) ≡ same
      → IsUpTo now (lookup k buckets)
      → (cost_if same (take_token l now key buckets).0 * token
            + funds_of l now (lookup k (take_token l now key buckets).1)
          ≤ funds_of l now (lookup k buckets))
        × IsUpTo now (lookup k (take_token l now key buckets).1)
  unfolding take_token
  take_token-funds k now key true buckets e u =
      let c = consume l now (bucket_or l now (lookup key buckets)) in
      let f = consume_funds l now (bucket_or l now (lookup key buckets)) in
      rw (lookup_same k key c.1 buckets e) (
        (
          omega (
            arith,
            f.0,
            refilled-funds l now (lookup key buckets),
            funds_now now c.1 f.1,
            ap (funds_of l now) (lookup_key k key buckets e),
          ),
          omega (arith, f.1),
        ))
  take_token-funds k now key false buckets e u =
      rw (lookup_other k key _ buckets e) ((omega arith, u))

  later-IsUpTo : (t now : ℕ) (o : Option Bucket) → t ≤ now → IsUpTo t o → IsUpTo now o
  later-IsUpTo t now none p u = u
  later-IsUpTo t now (some b) p u = omega arith

  passed_funds :
      (k t end : ℕ) (rs : List (ℕ × ℕ)) (buckets : Table Bucket)
      → IsTimed t end rs
      → IsUpTo t (lookup k buckets)
      → passed l k rs buckets * token ≤ funds_of l t (lookup k buckets) + (end - t) * l.per_minute
  passed_funds k t end [] buckets h u = omega arith
  passed_funds k t end ((now, key) ∷ rs) buckets h u =
      let u1 = later-IsUpTo t now (lookup k buckets) h.0 u in
      let f = take_token-funds k now key (key == k) buckets refl u1 in
      omega (
        arith,
        f.0,
        passed_funds k now end rs (take_token l now key buckets).1 h.1 f.1,
        funds_of-later l t now end (lookup k buckets) u h.0 (IsTimed-le now end rs h.1),
      )

  -- Of a key that the middleware has not seen before, no more requests are let through from one time to
  -- another than the burst and what the refill gives in between, however the requests of other keys
  -- come among them.
  pub passed_limits :
      (k t end : ℕ) (rs : List (ℕ × ℕ)) (buckets : Table Bucket)
      → lookup k buckets ≡ none
      → IsTimed t end rs
      → passed l k rs buckets * 60000 ≤ max 1 l.burst * 60000 + (end - t) * l.per_minute
  passed_limits k t end rs buckets e h =
      omega (
        arith,
        passed_funds k t end rs buckets h (subst (IsUpTo t) (sym e) tt),
        ap (funds_of l t) e,
      )
