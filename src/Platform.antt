-- ===== src/Platform.antt =====
-- What the code takes from Python's runtime and does not implement: the parts of `str`, `int`, `uuid`
-- and `datetime` that it calls.
use musicfy.Prelude.{ℕ, String, ◌≡◌, Option}
use musicfy.Json.{Json}
use musicfy.Prelude.Int.{ℤ}

pub record Platform : Type 0 where
  -- `str.lower`, which PostgreSQL's `lower` follows on product ids and device ids
  pub lower : String → String
  pub lower_idem : (s : String) → lower (lower s) ≡ lower s
  -- `str.upper`
  pub upper : String → String
  -- `str.strip`, and `text[:n]`
  pub strip : String → String
  pub prefix : ℕ → String → String
  -- `int(text)`, `none` for `ValueError`
  pub parse_int : String → Option ℤ
  -- `datetime.fromtimestamp(ms / 1000, tz=UTC)` in milliseconds, `none` for `ValueError`
  pub from_timestamp : ℤ → Option ℤ
  -- `datetime.fromisoformat` after the treatment of `Z` and of a missing zone
  pub parse_iso : String → Option ℤ
  -- `str(int)`
  pub show_int : ℤ → String
  -- `str(value)` of a value of a payload
  pub show : Json → String
  -- `uuid.UUID(text)`, `none` for `ValueError`, and `str(uuid)`
  pub parse_uuid : String → Option ℕ
  pub show_uuid : ℕ → String
  -- `json.dumps(value, ensure_ascii=False, separators=(",", ":"))`
  pub dumps : Json → String
  -- `float(text)` in millionths, `none` for `ValueError`
  pub parse_float : String → Option ℤ
