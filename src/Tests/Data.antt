-- ===== src/Tests/Data.antt =====
-- The inputs of the tests: a stand-in for the crates that the program calls, and a few events.
use tree_ring_memory.Prelude.{
  ℕ, ◌+◌, String, Bool, false, none, some, List, [], ◌∷◌, ◌==◌, if◌then◌else◌,
}
use tree_ring_memory.Externals.{Pattern, Externals}
use tree_ring_memory.Event.{MemoryEvent, default_source, default_review}
use tree_ring_memory.Event.Score.{half}
use tree_ring_memory.Policy.{WriteContext}

abbrev total : List ℕ → ℕ
total [] = 0
total (b ∷ bs) = b + total bs

abbrev matches : Pattern → String → Bool
matches Pattern.openai_key text = text == "sk-1"
matches Pattern.health text = text == "my diagnosis"
matches _ text = false

-- Texts are one word but for one of two.
abbrev words_of : String → List String
words_of text = if text == "cache failure" then "cache" ∷ "failure" ∷ [] else text ∷ []

-- Two texts match a pattern, one text is a time, and a digest is the sum of the bytes.
abbrev pub env : Externals
env = record {
  is_match = matches;
  replace_all = λ p text replacement. replacement;
  find_words = words_of;
  parse_naive = λ text. none;
  reread = λ x. x;
  reread_in_unit = λ x h. h;
  exp = λ value. value;
  parse_rfc3339 = λ text. if text == "t3" then some 3 else none;
  sha256 = λ bytes. total bytes ∷ [];
  format_utc = λ pattern instant. pattern;
  iso_week = λ instant. record { before_zero = false; year = 2026; week = instant };
  rfc3339_seconds = λ instant. "2026-07-05T08:00:00Z";
}

abbrev pub note : MemoryEvent
note = record {
  id = "mem_1";
  created_at = "t1";
  updated_at = "t1";
  project = none;
  agent_profile = some "worker";
  workflow_id = none;
  session_id = none;
  operation_id = some "op";
  scope = "agent";
  ring = "cambium";
  event_type = "lesson";
  summary = "use the cache";
  details = "";
  source = default_source;
  tags = [];
  salience = half;
  confidence = half;
  sensitivity = "normal";
  retention = "ephemeral";
  expires_at = some "t3";
  supersedes = [];
  superseded_by = none;
  links = [];
  review = default_review;
}

abbrev pub worker : WriteContext
worker = record { actor_profile = some "worker"; capability_hash = none; origin = "test" }
