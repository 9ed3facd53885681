-- ===== src/Sensitivity/Detect.antt =====
-- The walk over an event, as one fold over the texts that it holds.
use tree_ring_memory.Prelude.{
  String, ◌≡◌, refl, sym, inl, inr, Option, none, some, List, [], ◌∷◌, ◌++◌, ◌>>=◌, Result-cases,
  ap, true, false, not, ◌&&◌, ◌==◌, if◌then◌else◌, Bool-cases, sensitive_memory_blocked, ok, err,
  Bool, eq_iff, any,
}
use tree_ring_memory.Event.{MemoryEvent, MemoryLink}
use tree_ring_memory.Externals.{Externals}
use tree_ring_memory.Sensitivity.Inspect.{
  looks_secret, inspect-secret, category_not_secret, inspect_clean,
}
use tree_ring_memory.Sensitivity.{
  SensitivityGuard, accumulate, accumulate_optional, accumulate_all, accumulate_links,
  detect_memory_event_sensitivity, default_guard, lenient_guard, inspect, check_or_raise,
}

unfoldable pub optional_text : Option String → List String
optional_text none = []
optional_text (some text) = text ∷ []

unfoldable pub link_texts : List MemoryLink → List String
link_texts [] = []
link_texts (link ∷ links) = link.link_type ∷ link.target ∷ link_texts links

-- Every text of an event, in the order in which the guard reads them.
unfoldable pub public_texts : MemoryEvent → List String
public_texts e =
    e.id
    ∷ e.created_at
    ∷ e.updated_at
    ∷ (optional_text e.project
        ++ (optional_text e.agent_profile
            ++ (optional_text e.workflow_id
                ++ (optional_text e.session_id
                    ++ (optional_text e.operation_id
                        ++ (e.scope
                            ∷ e.ring
                            ∷ e.event_type
                            ∷ e.summary
                            ∷ e.details
                            ∷ e.source.source_type
                            ∷ e.source.ref_
                            ∷ e.source.quote
                            ∷ (e.tags
                                ++ (e.sensitivity
                                    ∷ e.retention
                                    ∷ (optional_text e.expires_at
                                        ++ (e.supersedes
                                            ++ (optional_text e.superseded_by
                                                ++ (link_texts e.links
                                                    ++ (optional_text e.review.review_reason
                                                        ++ (optional_text e.review.reviewed_at
                                                            ++ optional_text
                                                            e.review.reviewed_by))))))))))))))

module _ (env : Externals) (guard : SensitivityGuard) where
  all-append :
      (d : String) (xs ys : List String)
      → accumulate_all env guard d (xs ++ ys)
        ≡ (accumulate_all env guard d xs >>= λ d'. accumulate_all env guard d' ys)
  unfolding accumulate_all
  all-append d [] ys = refl
  all-append d (x ∷ xs) ys = elim (Result-cases (accumulate env guard d x)) [
    | inl (d', e) ↦ rw e (all-append d' xs ys)
    | inr (x', e) ↦ rw e
  ]

  all-cons :
      (d x : String) (ys : List String)
      → accumulate_all env guard d (x ∷ ys)
        ≡ (accumulate env guard d x >>= λ d'. accumulate_all env guard d' ys)
  unfolding accumulate_all
  all-cons d x ys = refl

  all-optional_last :
      (d : String) (o : Option String)
      → accumulate_all env guard d (optional_text o) ≡ accumulate_optional env guard d o
  unfolding accumulate_all accumulate_optional optional_text
  all-optional_last d none = refl
  all-optional_last d (some x) = elim (Result-cases (accumulate env guard d x)) [
    | inl (d', e) ↦ rw e
    | inr (x', e) ↦ rw e
  ]

  all-links_last :
      (d : String) (links : List MemoryLink)
      → accumulate_all env guard d (link_texts links) ≡ accumulate_links env guard d links
  unfolding accumulate_all accumulate_links link_texts
  all-links_last d [] = refl
  all-links_last d (link ∷ links) = elim (Result-cases (accumulate env guard d link.link_type)) [
    | inr (x, e) ↦ rw e
    | inl (d', e) ↦ rw e (elim (Result-cases (accumulate env guard d' link.target)) [
      | inr (x, e') ↦ rw e'
      | inl (d'', e') ↦ rw e' (all-links_last d'' links)
    ])
  ]

  -- The walk is the fold over all the texts.
  pub detect-all :
      (e : MemoryEvent)
      → detect_memory_event_sensitivity env guard e
        ≡ accumulate_all env guard "normal" (public_texts e)
  unfolding detect_memory_event_sensitivity public_texts
  detect-all e = sym (simp (all-cons, all-append, all-optional_last, all-links_last))

-- The first classification other than normal.
module _ (env : Externals) where
  unfoldable pub first_flag : List String → String
  first_flag [] = "normal"
  first_flag (text ∷ texts) =
      let rest = first_flag texts in
      if (inspect env text).sensitivity == "normal" then rest else (inspect env text).sensitivity

  abbrev keep : String → String → String
  keep detected found = if detected == "normal" && not (found == "normal") then found else detected

  -- `keep` on the first flag of the rest is the first flag of the whole.
  keep_once :
      (d : String) (text : String) (texts : List String)
      → (if keep d (inspect env text).sensitivity == "normal"
          then first_flag texts
          else keep d (inspect env text).sensitivity)
        ≡ (if d == "normal" then first_flag (text ∷ texts) else d)
  unfolding first_flag
  keep_once d text texts = elim (Bool-cases (d == "normal")) [
    | inr set ↦ simp set
    | inl unset ↦ elim (Bool-cases ((inspect env text).sensitivity == "normal")) [
      | inl calm ↦ simp (unset, calm)
      | inr found ↦ simp (unset, found)
    ]
  ]

  accumulate_lenient :
      (d text : String)
      → accumulate env lenient_guard d text ≡ ok (keep d (inspect env text).sensitivity)
  unfolding accumulate check_or_raise
  accumulate_lenient d text = elim (Bool-cases ((inspect env text).sensitivity == "secret")) [
    | inl s ↦ rw s
    | inr s ↦ rw s
  ]

  accumulate_clean :
      (d text : String)
      → looks_secret env text ≡ false
      → accumulate env default_guard d text ≡ ok (keep d (inspect env text).sensitivity)
  unfolding accumulate check_or_raise
  accumulate_clean d text clean =
      let quiet : ((inspect env text).sensitivity == "secret") ≡ false =
        rw ((inspect_clean env text clean).1) (category_not_secret env text) in
      rw quiet

  accumulate_blocked :
      (d text : String)
      → looks_secret env text ≡ true
      → accumulate env default_guard d text ≡ err sensitive_memory_blocked
  unfolding accumulate check_or_raise
  accumulate_blocked d text found = rw (inspect-secret env text found)

  all_lenient :
      (d : String) (texts : List String)
      → accumulate_all env lenient_guard d texts
        ≡ ok (if d == "normal" then first_flag texts else d)
  unfolding accumulate_all first_flag
  all_lenient d [] = elim (Bool-cases (d == "normal")) [
    | inl e ↦ rw (e, first_flag) (ap ok ((eq_iff d "normal").0 e))
    | inr e ↦ rw e
  ]
  all_lenient d (text ∷ texts) =
      rw (accumulate_lenient d text, all_lenient (keep d (inspect env text).sensitivity) texts)
        (ap ok (keep_once d text texts))

  all_clean :
      (d : String) (texts : List String)
      → any (looks_secret env) texts ≡ false
      → accumulate_all env default_guard d texts
        ≡ ok (if d == "normal" then first_flag texts else d)
  unfolding accumulate_all any first_flag
  all_clean d [] h = elim (Bool-cases (d == "normal")) [
    | inl e ↦ rw (e, first_flag) (ap ok ((eq_iff d "normal").0 e))
    | inr e ↦ rw e
  ]
  all_clean d (text ∷ texts) h = elim (Bool-cases (looks_secret env text)) [
    | inl found ↦ cc (rw found at h)
    | inr clean ↦
        rw
          (
            accumulate_clean d text clean,
            all_clean (keep d (inspect env text).sensitivity) texts (rw clean at h),
          )
          (ap ok (keep_once d text texts))
  ]

  all_blocked :
      (d : String) (texts : List String)
      → any (looks_secret env) texts ≡ true
      → accumulate_all env default_guard d texts ≡ err sensitive_memory_blocked
  unfolding accumulate_all any
  all_blocked d [] h = cc
  all_blocked d (text ∷ texts) h = elim (Bool-cases (looks_secret env text)) [
    | inl found ↦ rw (accumulate_blocked d text found)
    | inr clean ↦
        rw (accumulate_clean d text clean)
          (all_blocked (keep d (inspect env text).sensitivity) texts (rw clean at h))
  ]

  -- A text of the event looks like a secret.
  unfoldable pub holds_secret : MemoryEvent → Bool
  holds_secret e = any (looks_secret env) (public_texts e)

  -- The blocking guard refuses an event exactly when one of its texts looks like a secret,
  -- whichever field it stands in; otherwise it reports the first classification that is not
  -- normal, in the order of the fields, or normal if there is none.
  pub detect_default :
      (e : MemoryEvent)
      → detect_memory_event_sensitivity env default_guard e ≡ (
          if holds_secret e then err sensitive_memory_blocked else ok (first_flag (public_texts e)))
  unfolding holds_secret
  detect_default e = elim (Bool-cases (any (looks_secret env) (public_texts e))) [
    | inl found ↦
        rw (found, detect-all env default_guard e) (all_blocked "normal" (public_texts e) found)
    | inr clean ↦
        rw (clean, detect-all env default_guard e) (all_clean "normal" (public_texts e) clean)
  ]

  -- The lenient guard never refuses: it reports the first classification that is not normal, and
  -- looks no further.
  pub detect_lenient :
      (e : MemoryEvent)
      → detect_memory_event_sensitivity env lenient_guard e ≡ ok (first_flag (public_texts e))
  detect_lenient e = rw (detect-all env lenient_guard e) (all_lenient "normal" (public_texts e))
