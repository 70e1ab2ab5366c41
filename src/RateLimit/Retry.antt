-- ===== src/RateLimit/Retry.antt =====
-- A client that waits as long as it is told is let through (app/middleware/rate_limit.py).
use musicfy.Prelude.{
  ℕ, ◌+◌, ◌-◌, ◌*◌, ◌/◌, ◌≤◌, ◌<◌, String, ◌≡◌, refl, sym, ap, ◌∙◌, subst, inl, inr, Bool, true,
  false, Option, none, some, List, [], ◌∷◌, arith, leb, ◌==◌, Bool-cases, Table, lookup,
  lookup-insert,
}
use musicfy.RateLimit.{
  dispatch_key, Limit, Bucket, Verdict, denied, consume, token, refilled, bucket_or, take_token,
  retry_seconds, dispatch, answer_of, goes_on, limited, is_skipped, Call,
}
use native.Mathlib.Nat.{lt-div-mul-add}
use musicfy.RateLimit.Runs.{lookup_same}

mul_mono : (a b c : ℕ) → a ≤ b → a * c ≤ b * c
mul_mono a b c p = grind arith

ceil-enough : (d m : ℕ) → 1 ≤ m → d ≤ (d + (m - 1)) / m * m
ceil-enough d m p =
    let h : d + (m - 1) < (d + (m - 1)) / m * m + m = lt-div-mul-add (omega arith) in
    omega (arith, h)

module _ (l : Limit) where
  consume_allowed :
      (now : ℕ) (b : Bucket) → token ≤ refilled l now b → (consume l now b).0 ≡ Verdict.allowed
  unfolding consume
  consume_allowed now b p = elim (Bool-cases (leb token (refilled l now b))) [
    | inl q ↦ rw q refl
    | inr q ↦ ground (arith, q, p)
  ]

  -- A call that is denied leaves what it found, and says what is missing.
  consume_denied :
      (now d : ℕ) (b : Bucket)
      → (consume l now b).0 ≡ denied d
      → ((consume l now b).1.tokens + d ≡ token) × ((consume l now b).1.last_refill ≡ now)
  unfolding consume
  consume_denied now d b e = elim (Bool-cases (leb token (refilled l now b))) [
    | inl q ↦ ground (arith, q, e)
    | inr q ↦ ground (arith, q, e)
  ]

  consume_again :
      (now later d : ℕ) (b : Bucket)
      → (consume l now b).0 ≡ denied d
      → d ≤ (later - now) * l.per_minute
      → (consume l later (consume l now b).1).0 ≡ Verdict.allowed
  consume_again now later d b e p =
      let h = consume_denied now d b e in
      consume_allowed later (consume l now b).1
        (omega (arith, h.0, p, ap (λ t. (later - t) * l.per_minute) h.1))

  seconds_enough : (d : ℕ) → 1 ≤ l.per_minute → d ≤ retry_seconds l d * 1000 * l.per_minute
  seconds_enough d p =
      let m = l.per_minute * 1000 in let c = ceil-enough d m (omega arith) in grind (arith, c)

  taken-again :
      (now later key d : ℕ) (buckets : Table Bucket)
      → (take_token l now key buckets).0 ≡ denied d
      → d ≤ (later - now) * l.per_minute
      → (take_token l later key (take_token l now key buckets).1).0 ≡ Verdict.allowed
  unfolding take_token
  taken-again now later key d buckets e p =
      let b = bucket_or l now (lookup key buckets) in
      rw (lookup_same key key (consume l now b).1 buckets (ground arith))
        (consume_again now later d b e p)

  limited-denied :
      (v : Verdict) (n : ℕ)
      → answer_of l v ≡ limited n
      → (d : ℕ) × (v ≡ denied d) × (retry_seconds l d ≡ n)
  limited-denied Verdict.allowed n e = cc
  limited-denied (denied d) n e = (d, refl, cc)

  waited-enough :
      (now later d n : ℕ)
      → 1 ≤ l.per_minute
      → retry_seconds l d ≡ n
      → now + n * 1000 ≤ later
      → d ≤ (later - now) * l.per_minute
  waited-enough now later d n p e q =
      let s : d ≤ n * 1000 * l.per_minute =
        subst (λ t. d ≤ t * 1000 * l.per_minute) e (seconds_enough d p) in
      omega (arith, s, mul_mono (n * 1000) (later - now) l.per_minute (omega arith))

  abbrev has_key : ℕ → Option ℕ → Bool
  has_key key none = false
  has_key key (some k) = key == k

  abbrev pub call : ℕ → String → ℕ → Call
  call now path key = record { now = now; path = path; key = some key }

  -- The buckets after a sequence of calls.
  abbrev pub after_dispatches : List Call → Table Bucket → Table Bucket
  after_dispatches [] buckets = buckets
  after_dispatches (c ∷ cs) buckets = after_dispatches cs (dispatch l c buckets).1

  -- Calls with another key, or with none.
  abbrev pub AreOthers : ℕ → List Call → Type 0
  AreOthers key [] = Unit
  AreOthers key (c ∷ cs) = (has_key key c.key ≡ false) × AreOthers key cs

  dispatch_key-others :
      (key now : ℕ) (k : Option ℕ) (buckets : Table Bucket)
      → has_key key k ≡ false
      → lookup key (dispatch_key l now k buckets).1 ≡ lookup key buckets
  unfolding take_token
  dispatch_key-others key now none buckets h = refl
  dispatch_key-others key now (some k) buckets h =
      let b = (consume l now (bucket_or l now (lookup k buckets))).1 in
      ground (arith, lookup-insert key k b buckets)

  dispatch-others :
      (key : ℕ) (c : Call) (buckets : Table Bucket)
      → has_key key c.key ≡ false
      → lookup key (dispatch l c buckets).1 ≡ lookup key buckets
  unfolding dispatch
  dispatch-others key c buckets h = ground (arith, dispatch_key-others key c.now c.key buckets h)

  after_dispatches-others :
      (key : ℕ) (cs : List Call) (buckets : Table Bucket)
      → AreOthers key cs
      → lookup key (after_dispatches cs buckets) ≡ lookup key buckets
  after_dispatches-others key [] buckets h = refl
  after_dispatches-others key (c ∷ cs) buckets h =
      after_dispatches-others key cs (dispatch l c buckets).1 h.1
      ∙ dispatch-others key c buckets h.0

  -- The answer for a key depends on its bucket alone.
  take_token-cong :
      (now key : ℕ) (s t : Table Bucket)
      → lookup key s ≡ lookup key t
      → (take_token l now key s).0 ≡ (take_token l now key t).0
  unfolding take_token
  take_token-cong now key s t e = ap (λ o. (consume l now (bucket_or l now o)).0) e

  dispatch_skipped :
      (now key : ℕ) (path : String) (buckets : Table Bucket)
      → is_skipped path ≡ true
      → dispatch l (call now path key) buckets ≡ (goes_on, buckets)
  unfolding dispatch
  dispatch_skipped now key path buckets s = rw s refl

  dispatch_counted :
      (now key : ℕ) (path : String) (buckets : Table Bucket)
      → is_skipped path ≡ false
      → dispatch l (call now path key) buckets
        ≡ (answer_of l (take_token l now key buckets).0, (take_token l now key buckets).1)
  unfolding dispatch
  dispatch_counted now key path buckets s = rw s refl

  -- A call that is answered with 429 and so many seconds to wait is let through when it is made again
  -- after them, where the refill is not zero and every call in between is of another key or has none.
  pub dispatch_again :
      (now later key n : ℕ) (path : String) (others : List Call) (buckets : Table Bucket)
      → 1 ≤ l.per_minute
      → (dispatch l (call now path key) buckets).0 ≡ limited n
      → now + n * 1000 ≤ later
      → AreOthers key others
      → (dispatch l
          (call later path key)
          (after_dispatches others (dispatch l (call now path key) buckets).1)).0
        ≡ goes_on
  dispatch_again now later key n path others buckets p e q o =
      let left = (dispatch l (call now path key) buckets).1 in
      let t = after_dispatches others left in
      elim (Bool-cases (is_skipped path)) [
        | inl s ↦ ap (λ r. r.0) (dispatch_skipped later key path t s)
        | inr s ↦
            let first = dispatch_counted now key path buckets s in
            let v =
              limited-denied (take_token l now key buckets).0 n (sym (ap (λ r. r.0) first) ∙ e) in
            let same : lookup key t ≡ lookup key (take_token l now key buckets).1 =
              after_dispatches-others key others left o ∙ ap (λ r. lookup key r.1) first in
            let again =
              taken-again now later key v.0 buckets v.1 (waited-enough now later v.0 n p v.2 q) in
            let passed : (take_token l later key t).0 ≡ Verdict.allowed =
              take_token-cong later key t (take_token l now key buckets).1 same ∙ again in
            ap (λ r. r.0) (dispatch_counted later key path t s) ∙ ap (answer_of l) passed
      ]
