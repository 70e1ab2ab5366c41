-- ===== src/RateLimit.antt =====
-- The rate limit of the API (app/middleware/rate_limit.py): `TokenBucket.consume` and the buckets of
-- `RateLimitMiddleware.dispatch`. Times are milliseconds and a token is 60000 parts, so that the refill of
-- `per_minute` tokens a minute is `per_minute` parts a millisecond, exactly, where the code has floats.
pub mod Bounds
pub mod Retry
pub mod Runs
use musicfy.Prelude.{
  ℕ, zero, suc, ◌+◌, ◌-◌, ◌*◌, ◌/◌, ◌≤◌, ◌<◌, min, max, String, ◌≡◌, refl, sym, ap, ◌∙◌, subst, ◌≢◌,
  ◌↔◌, ◌⊎◌, inl, inr, ite, Bool, true, false, not, ◌&&◌, ◌||◌, Option, none, some, List, [], ◌∷◌,
  map, arith, ltb, leb, ◌==◌, str_eq, if◌then◌else◌, Bool-cases, Option-cases, get_or, is_some,
  find, truthy, first_some, Error, Result, ok, err, is_ok, Action, pure, raise, gets, modify,
  transaction, catch, branch, or_raise, ◌>>=◌, ◌>>◌, Table, lookup, insert, erase, lookup-insert,
  lookup-erase, size, cut, size-cut, and_then, ok_inj,
}

-- One token.
abbrev pub token : ℕ
token = 60000

-- The middleware's settings: `per_minute`, and `max(1, burst)` tokens.
pub record Limit : Type 0 where
  pub per_minute : ℕ
  pub burst : ℕ

abbrev pub capacity : Limit → ℕ
capacity l = max 1 l.burst * token

-- `TokenBucket`; the capacity and the refill are those of the middleware.
pub record Bucket : Type 0 where
  pub tokens : ℕ
  pub last_refill : ℕ

-- What a call finds in the bucket after its refill.
abbrev pub refilled : Limit → ℕ → Bucket → ℕ
refilled l now b = min (capacity l) (b.tokens + (now - b.last_refill) * l.per_minute)

-- Allowed, or the parts of a token that are missing.
pub data Verdict : Type 0 where
  allowed : Verdict
  denied : ℕ → Verdict

-- `consume`
unfoldable pub consume : Limit → ℕ → Bucket → Verdict × Bucket
consume l now b =
    let t = refilled l now b in
    if leb token t
    then (allowed, record { tokens = t - token; last_refill = now })
    else (denied (token - t), record { tokens = t; last_refill = now })

-- The bucket that a key begins with.
abbrev pub full : Limit → ℕ → Bucket
full l now = record { tokens = capacity l; last_refill = now }

-- `self._buckets.get(key)`, or a new one. A key, the hash of a bearer's token, is a number.
abbrev pub bucket_or : Limit → ℕ → Option Bucket → Bucket
bucket_or l now none = full l now
bucket_or l now (some b) = b

-- The part of `dispatch` under the lock.
unfoldable pub take_token : Limit → ℕ → ℕ → Table Bucket → Verdict × Table Bucket
take_token l now key buckets =
    let c = consume l now (bucket_or l now (lookup key buckets)) in (c.0, insert key c.1 buckets)

-- `max(1, math.ceil(retry_after))`, in seconds
abbrev pub retry_seconds : Limit → ℕ → ℕ
retry_seconds l deficit =
    if l.per_minute == 0
    then 60
    else max 1 ((deficit + (l.per_minute * 1000 - 1)) / (l.per_minute * 1000))

-- The call goes on to the application, or is answered with 429 and a `Retry-After`.
pub data Answer : Type 0 where
  goes_on : Answer
  limited : ℕ → Answer

abbrev pub answer_of : Limit → Verdict → Answer
answer_of l allowed = goes_on
answer_of l (denied deficit) = limited (retry_seconds l deficit)

-- `SKIP_PATHS`
abbrev pub is_skipped : String → Bool
is_skipped path =
    str_eq path "/healthz"
    || str_eq path "/docs"
    || str_eq path "/redoc"
    || str_eq path "/openapi.json"
    || str_eq path "/v1/webhooks/fal"
    || str_eq path "/v1/webhooks/billing/apple"

-- A request: its time, its path, and the hash of its bearer's token, if it has one.
pub record Call : Type 0 where
  pub now : ℕ
  pub path : String
  pub key : Option ℕ

abbrev pub answered : Limit → Verdict × Table Bucket → Answer × Table Bucket
answered l v = (answer_of l v.0, v.1)

abbrev pub dispatch_key : Limit → ℕ → Option ℕ → Table Bucket → Answer × Table Bucket
dispatch_key l now none buckets = (goes_on, buckets)
dispatch_key l now (some key) buckets = answered l (take_token l now key buckets)

-- `dispatch`
unfoldable pub dispatch : Limit → Call → Table Bucket → Answer × Table Bucket
dispatch l c buckets =
    if is_skipped c.path then (goes_on, buckets) else dispatch_key l c.now c.key buckets
