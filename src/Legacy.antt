-- ===== src/Legacy.antt =====
-- crates/tree-ring-memory-core/src/import_export.rs: the identity that a private-scope event of
-- an old version lacks is synthesised from its scope and id.
pub mod Laws
use tree_ring_memory.Prelude.{
  ℕ, zero, suc, ◌/◌, ◌%◌, String, Bool, true, false, not, Option, none, some, List, [], ◌∷◌, ◌++◌,
  ◌==◌, if◌then◌else◌, is_some, take, is_blank, as_bytes, Result, validation, ok, err,
}
use Prim.Native.String.{◌++◌ as append}
use text.Mathlib.Text.{find?}
use tree_ring_memory.Event.{MemoryEvent, MemoryReview}
use tree_ring_memory.Externals.{Externals}

-- LEGACY_PRIVATE_SCOPE_REVIEW_REASON
abbrev pub legacy_review_reason : String
legacy_review_reason = "legacy private-scope identity synthesized during portability normalization"

-- LEGACY_PRIVATE_SCOPE_IDENTITY_DOMAIN
unfoldable pub identity_domain : List ℕ
identity_domain = as_bytes "tree-ring-memory/legacy-private-scope-identity/v1"

-- The closure `is_missing`.
unfoldable pub is_missing : Option String → Bool
is_missing none = true
is_missing (some identity) = is_blank identity

unfoldable pub missing_identity : MemoryEvent → Bool
unfolding is_missing
missing_identity e =
    if e.scope == "agent"
    then is_missing e.agent_profile
    else if e.scope == "workflow"
    then is_missing e.workflow_id
    else if e.scope == "session"
    then is_missing e.session_id
    else false

unfoldable pub hex_digit : ℕ → String
hex_digit zero = "0"
hex_digit (suc zero) = "1"
hex_digit (suc (suc zero)) = "2"
hex_digit (suc (suc (suc zero))) = "3"
hex_digit (suc (suc (suc (suc zero)))) = "4"
hex_digit (suc (suc (suc (suc (suc zero))))) = "5"
hex_digit (suc (suc (suc (suc (suc (suc zero)))))) = "6"
hex_digit (suc (suc (suc (suc (suc (suc (suc zero))))))) = "7"
hex_digit (suc (suc (suc (suc (suc (suc (suc (suc zero)))))))) = "8"
hex_digit (suc (suc (suc (suc (suc (suc (suc (suc (suc zero))))))))) = "9"
hex_digit (suc (suc (suc (suc (suc (suc (suc (suc (suc (suc zero)))))))))) = "a"
hex_digit (suc (suc (suc (suc (suc (suc (suc (suc (suc (suc (suc zero))))))))))) = "b"
hex_digit (suc (suc (suc (suc (suc (suc (suc (suc (suc (suc (suc (suc zero)))))))))))) = "c"
hex_digit (suc (suc (suc (suc (suc (suc (suc (suc (suc (suc (suc (suc (suc zero))))))))))))) = "d"
hex_digit (suc (suc (suc (suc (suc (suc (suc (suc (suc (suc (suc (suc (suc (suc zero)))))))))))))) =
    "e"
hex_digit n = "f"

-- `format!("{byte:02x}")` over the bytes, joined
unfoldable pub hex : List ℕ → String
unfolding hex_digit
hex [] = ""
hex (b ∷ bs) = append (hex_digit (b / 16)) (append (hex_digit (b % 16)) (hex bs))

-- the marks on the review record
unfoldable pub mark_for_review : MemoryReview → MemoryReview
mark_for_review r = record {
  needs_review = true;
  review_reason = elim r.review_reason [
    | none ↦ some legacy_review_reason
    | some reason ↦ some (
        if is_some (find? reason legacy_review_reason)
        then reason
        else append reason (append "; " legacy_review_reason))
  ];
  reviewed_at = none;
  reviewed_by = none;
}

-- the second `match` on the scope
unfoldable pub set_identity : String → MemoryEvent → MemoryEvent
set_identity identity e =
    if e.scope == "agent"
    then record e { agent_profile = some identity }
    else if e.scope == "workflow"
    then record e { workflow_id = some identity }
    else record e { session_id = some identity }

module _ (env : Externals) where
  unfoldable pub synthetic_identity : String → String → String
  unfolding identity_domain hex
  synthetic_identity scope memory_id =
      let digest =
        env.sha256 (identity_domain ++ (0 ∷ (as_bytes scope ++ (0 ∷ as_bytes memory_id)))) in
      append "legacy-" (append scope (append "-" (hex (take 16 digest))))

  -- `normalize_legacy_private_scope_identity`: the event after the call, and its result
  unfoldable pub normalize_identity : MemoryEvent → Result (MemoryEvent × Bool)
  normalize_identity e =
      if not (missing_identity e)
      then ok (e, false)
      else if is_blank e.id
      then err (validation "legacy private-scope normalization requires a non-blank memory id")
      else ok (
        record (set_identity (synthetic_identity e.scope e.id) e) {
          review = mark_for_review e.review;
        },
        true,
      )
