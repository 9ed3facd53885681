-- ===== src/Tests/Program.antt =====
-- The names that the runs of the tests unfold.
use tree_ring_memory.Prelude.{
  filter, any, all, contains, take, bytes_eq, is_whitespace, is_control, is_blank, has_control,
  chars_count, join, utf8_char, as_bytes,
}
use tree_ring_memory.Event.Score.{one_units, half, is_finite, le, lt, in_unit}
use tree_ring_memory.Event.{fresh_event}
use tree_ring_memory.Event.Validate.{
  validate_member, validate_optional_context_metadata, validate_score, validate_partition, validate,
  validated, new_event,
}
use tree_ring_memory.Event.Redact.{is_private_scope, redact as redacted_event}
use tree_ring_memory.Sensitivity.{
  classify_category, scan_secrets, find_category, classify, inspect, check_or_raise, accumulate,
  accumulate_optional, accumulate_all, accumulate_links, detect_text_sensitivity,
  detect_memory_event_sensitivity,
}
use tree_ring_memory.Legacy.{
  identity_domain, is_missing, missing_identity, hex_digit, hex, mark_for_review, set_identity,
  synthetic_identity, normalize_identity,
}
use tree_ring_memory.Store.{
  rows_of, find_memory, exists_memory, replace_rows, upsert, delete_rows, fts_row, fts_of,
  delete_fts, coalesce_eq, same_namespace,
}
use tree_ring_memory.Store.Write.{
  be_bytes64, namespace_part, namespace_bytes, claimed, add_claim, is_sanitized_redaction,
  operation_namespace_hash, event_from_row, read_row, select_event, validate_memory_for_storage,
  claim_hash, claim_available, ensure_operation_claim_available, preserve_hash, preserve_replaced,
  prepare_memory_write, put_with_statements, put_in_transaction, add_tombstone,
  delete_in_transaction, redact_found, redact_in_transaction, supersede_found,
  supersede_in_transaction,
}
use tree_ring_memory.Policy.{
  difference, constant_time_eq, is_plain_byte, is_ok, policy_status, is_unrestricted,
  unprivileged_create_allowed, protected_target, hashes_match, validate_context_value,
  validate_optional_label, coordinator_capability_hash, context_hash, validate_actor, new_context,
  normalize_audit_target, audit_target, insert_audit, authorize_with_policy,
  authorize_coordinator_action, authorize_target, authorize_event_creates,
}
use tree_ring_memory.Portability.{reclassify, normalize_import_event, normalize_import_events}
use tree_ring_memory.Maintenance.{
  protected_memory, temporary_retention, action, is_candidate, plan_instant, plan_expiry_text,
  plan_expiry, or_secret, plan_secret_redaction, plan_actions, plan_maintenance_at,
}
use tree_ring_memory.Api.{
  settle, guarded, find_by_namespace, find_by_claim, with_ring, done, get,
  find_memory_by_operation_namespace, put_body, put, create_body, put_unless_found, as_created,
  put_operation, put_idempotent, supersede_body, supersede, delete_body, delete, redact_body,
  redact, ring_body, change_found, change_ring,
}
use tree_ring_memory.Api.Admin.{
  commit_either, coalesce, grant_enabled, enable_policy, grant_rotated, rotate_policy_capability,
  disabled, enable_coordinated_policy, rotate_coordinator_capability, disable_coordinated_policy,
}
use tree_ring_memory.Api.Batch.{
  dox_roots, one_root, dox_root_provenance, required_root, accept_root, same_source, check_existing,
  plan_import, first_id, import_report, validate_dox_source_update, dox_check, write_all, put_all,
  supersede_ids, supersede_all, write_body, put_many_with_dox_guard, import_body, import_normalized,
  import_events,
}
use tree_ring_memory.Api.Maintain.{
  insert_by_created, order_by_created, is_current, missing_rows, orphan_rows, fts_report,
  is_redaction, is_deletion, first_target, mark, maintenance_status, with_status, collect_rows,
  list_all, rebuild_fts, apply_redactions, apply_deletions, repair, maintain_body,
  authorize_maintenance, maintain_planned, maintain_listed, maintain,
}
use tree_ring_memory.Api.History.{migrated, commit, run}
use tree_ring_memory.Prelude.Maps.{entry_set, insert_sorted, sort_by}
use tree_ring_memory.Prelude.Decimal.{digits, decimal}
use tree_ring_memory.Prelude.{trim, to_ascii_lowercase, remove_chars}
use tree_ring_memory.Event.Score.Arithmetic.{
  nearest, round_at, rounded, opposite, difference as score_difference, add, quotient, div, eq,
  clamp_unit,
}
use tree_ring_memory.Consolidation.{
  parse_period, default_output_ring, compare_option, compare_key, least_salience, two_digits,
  week_text, differs, period_key_for_datetime, instant_period_key, event_period_key,
  effective_sensitivity, outside_period, consolidation_candidate, group_key, push_event,
  group_events,
}
use tree_ring_memory.Consolidation.Plan.{
  average_from, average, uniform_optional, output_ring, one_more, ranks_before, tag_set,
  memory_link, event_ids, group_summary, planned_report, count_tags, count_event_tags, top_tags,
  output_memory, build_output, resolved_period_key, candidates_of, build_outputs,
  consolidate_memories,
}
use tree_ring_memory.Consolidation.Replacement.{
  link_targets, overlap, no_worse, best_of, best_consolidation_replacement, unwrap_or, nth_or,
  pairs_from, consolidation_supersession_pairs,
}
use tree_ring_memory.Api.Consolidate.{
  of_period, ids_eq, find_consolidation, append_outputs, previous_output_ids,
  consolidation_context_matches, consolidation_row, insert_consolidation_record, unchanged_report,
  created_report, present, keep_matching, previous_pairs, request_texts, read_outputs,
  supersede_pairs, forced_pairs, consolidate_body, consolidate_found, consolidate_planned,
  consolidate_checked, consolidate,
}
use tree_ring_memory.Prelude.{starts_with, contains_text, double_quotes}
use tree_ring_memory.Event.Score.Arithmetic.{product, mul, of_nat, fraction, total_lt}
use tree_ring_memory.Recall.{
  without, query_without, queries_from, source_authority, terms, search_queries, textual_match,
  parse_timestamp, recency_score, mentions, ring_boost, recall_score,
}
use tree_ring_memory.Api.Search.{
  filler_terms, misses, misses_text, passes, matches_filters, limited, join_rows, by_rank,
  candidate_limit, ensure_recall_deadline, asks_for_none, with_recall_timeout, format_fts_query,
  search_matches, search_text_limited, search_fts_filtered_limited, search_found,
  search_text_filtered,
}
use tree_ring_memory.Api.Recall.{
  scores_more, result_of, first_found, push_result, first_candidates, any_term_candidates,
  or_any_term, recall_candidates, recall_results, recall_with_options_until,
}
use tree_ring_memory.Api.Recall.Session.{
  then_before, rank_before, ring_order, startup_before, brief_before, startup_boost, in_project,
  in_partition, is_later, is_live, is_shown, session_rows, brief_result, session_results,
  session_candidates, or_following, session_any_term, session_queries, startup_brief, session_brief,
  recall_for_session_timeout,
}

unfoldable pub program : Unit {0}
unfolding filter any all contains take bytes_eq is_whitespace is_control is_blank has_control
    chars_count join utf8_char as_bytes one_units half is_finite le lt in_unit fresh_event
    validate_member validate_optional_context_metadata validate_score validate_partition validate
    validated new_event is_private_scope redacted_event classify_category scan_secrets find_category
    classify inspect check_or_raise accumulate accumulate_optional accumulate_all accumulate_links
    detect_text_sensitivity detect_memory_event_sensitivity identity_domain is_missing
    missing_identity hex_digit hex mark_for_review set_identity synthetic_identity
    normalize_identity rows_of find_memory exists_memory replace_rows upsert delete_rows fts_row
    fts_of delete_fts coalesce_eq same_namespace be_bytes64 namespace_part namespace_bytes claimed
    add_claim is_sanitized_redaction operation_namespace_hash event_from_row read_row select_event
    validate_memory_for_storage claim_hash claim_available ensure_operation_claim_available
    preserve_hash preserve_replaced prepare_memory_write put_with_statements put_in_transaction
    add_tombstone delete_in_transaction redact_found redact_in_transaction supersede_found
    supersede_in_transaction difference constant_time_eq is_plain_byte is_ok policy_status
    is_unrestricted unprivileged_create_allowed protected_target hashes_match validate_context_value
    validate_optional_label coordinator_capability_hash context_hash validate_actor new_context
    normalize_audit_target audit_target insert_audit authorize_with_policy
    authorize_coordinator_action authorize_target authorize_event_creates reclassify
    normalize_import_event normalize_import_events protected_memory temporary_retention action
    is_candidate plan_instant plan_expiry_text plan_expiry or_secret plan_secret_redaction
    plan_actions plan_maintenance_at settle guarded find_by_namespace find_by_claim with_ring done
    get find_memory_by_operation_namespace put_body put create_body put_unless_found as_created
    put_operation put_idempotent supersede_body supersede delete_body delete redact_body redact
    ring_body change_found change_ring commit_either coalesce grant_enabled enable_policy
    grant_rotated rotate_policy_capability disabled enable_coordinated_policy
    rotate_coordinator_capability disable_coordinated_policy dox_roots one_root dox_root_provenance
    required_root accept_root same_source check_existing plan_import first_id import_report
    validate_dox_source_update dox_check write_all put_all supersede_ids supersede_all write_body
    put_many_with_dox_guard import_body import_normalized import_events insert_by_created
    order_by_created is_current missing_rows orphan_rows fts_report is_redaction is_deletion
    first_target mark maintenance_status with_status collect_rows list_all rebuild_fts
    apply_redactions apply_deletions repair maintain_body authorize_maintenance maintain_planned
    maintain_listed maintain migrated commit run entry_set insert_sorted sort_by digits decimal trim
    to_ascii_lowercase remove_chars nearest round_at rounded opposite score_difference add quotient
    div eq clamp_unit parse_period default_output_ring compare_option compare_key least_salience
    two_digits week_text differs period_key_for_datetime instant_period_key event_period_key
    effective_sensitivity outside_period consolidation_candidate group_key push_event group_events
    average_from average uniform_optional output_ring one_more ranks_before tag_set memory_link
    event_ids group_summary planned_report count_tags count_event_tags top_tags output_memory
    build_output resolved_period_key candidates_of build_outputs consolidate_memories link_targets
    overlap no_worse best_of best_consolidation_replacement unwrap_or nth_or pairs_from
    consolidation_supersession_pairs of_period ids_eq find_consolidation append_outputs
    previous_output_ids consolidation_context_matches consolidation_row insert_consolidation_record
    unchanged_report created_report present keep_matching previous_pairs request_texts read_outputs
    supersede_pairs forced_pairs consolidate_body consolidate_found consolidate_planned
    consolidate_checked consolidate starts_with contains_text double_quotes product mul of_nat
    fraction total_lt without query_without queries_from source_authority terms search_queries
    textual_match parse_timestamp recency_score mentions ring_boost recall_score filler_terms misses
    misses_text passes matches_filters limited join_rows by_rank candidate_limit
    ensure_recall_deadline asks_for_none with_recall_timeout format_fts_query search_matches
    search_text_limited search_fts_filtered_limited search_found search_text_filtered scores_more
    result_of first_found push_result first_candidates any_term_candidates or_any_term
    recall_candidates recall_results recall_with_options_until then_before rank_before ring_order
    startup_before brief_before startup_boost in_project in_partition is_later is_live is_shown
    session_rows brief_result session_results session_candidates or_following session_any_term
    session_queries startup_brief session_brief recall_for_session_timeout
program = tt
