-- ===== src/Externals.antt =====
-- What the program calls and does not implement: the crates regex, chrono, sha2 and serde_json. The
-- regular expressions that sensitivity.rs compiles are named by a constructor each.
use tree_ring_memory.Prelude.{ℕ, String, ◌≡◌, Bool, true, Option, List}
use tree_ring_memory.Event.Score.{F64, in_unit}

-- The entries of `SECRET_PATTERNS` and `CATEGORY_PATTERNS` (sensitivity.rs).
pub data Pattern : Type 0 where
  openai_key tree_ring_coordinator_capability github_token : Pattern
  github_fine_grained_token aws_access_key bearer_token private_key secret_assignment : Pattern
  health financial legal personal_identifier : Pattern

-- `datetime.iso_week()`: the year, which may be before the year 0, and the week.
pub record IsoWeek : Type 0 where
  pub before_zero : Bool
  pub year : ℕ
  pub week : ℕ

pub record Externals : Type 0 where
  -- `pattern.is_match(text)`
  pub is_match : Pattern → String → Bool
  -- `pattern.replace_all(text, replacement)`
  pub replace_all : Pattern → String → String → String
  -- the matches of the pattern \w+ in a text, from left to right
  pub find_words : String → List String
  -- `DateTime::parse_from_rfc3339(text)`, an instant in nanoseconds from the earliest one
  pub parse_rfc3339 : String → Option ℕ
  -- `NaiveDateTime::parse_from_str(text, "%Y-%m-%dT%H:%M:%S%.f")` as an instant in UTC
  pub parse_naive : String → Option ℕ
  -- `value.exp()`, of the platform's mathematical library
  pub exp : F64 → F64
  -- What serde_json reads back of the decimal that it prints for a double. Its default parser,
  -- without float_roundtrip, divides the rounded digits by a power of ten: the value may be a
  -- neighbouring double, but what is from 0 to 1 stays there, since both roundings are monotone.
  pub reread : F64 → F64
  pub reread_in_unit : (x : F64) → in_unit x ≡ true → in_unit (reread x) ≡ true
  -- the digest of the bytes that a `Sha256` was updated with
  pub sha256 : List ℕ → List ℕ
  -- `datetime.format(pattern).to_string()` of an instant in UTC
  pub format_utc : String → ℕ → String
  pub iso_week : ℕ → IsoWeek
  -- `datetime.to_rfc3339_opts(SecondsFormat::Secs, true)`
  pub rfc3339_seconds : ℕ → String
