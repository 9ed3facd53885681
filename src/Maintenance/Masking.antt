-- ===== src/Maintenance/Masking.antt =====
-- Which secrets a plan finds, and which it does not.
use tree_ring_memory.Prelude.{
  String, ◌≡◌, refl, inl, inr, Bool, true, false, ◌||◌, List, [], ◌∷◌, ◌++◌, arith, ◌==◌,
  if◌then◌else◌, Bool-cases, any, All, any-append, sym, ap, ◌∙◌, eq_iff,
}
use tree_ring_memory.Event.{MemoryEvent}
use tree_ring_memory.Externals.{Externals}
use tree_ring_memory.Sensitivity.{inspect}
use tree_ring_memory.Sensitivity.Inspect.{
  looks_secret, category_not_secret, inspect_clean, inspect-secret, category,
}
use tree_ring_memory.Sensitivity.Detect.{first_flag, public_texts, holds_secret, detect_lenient}
use tree_ring_memory.Maintenance.{plan_secret_redaction, redact_secret, critical, MaintenanceAction}

module _ (env : Externals) where
  abbrev pub redaction : MemoryEvent → MaintenanceAction
  redaction e = record {
    action_type = redact_secret;
    memory_id = e.id;
    severity = critical;
    reason = "Secret-like memory content was detected and should be redacted.";
    applied = false;
  }

  plan_secret_lem :
      (e : MemoryEvent)
      → plan_secret_redaction env e ≡ (
          if e.sensitivity == "secret" || first_flag env (public_texts e) == "secret"
          then redaction e ∷ []
          else [])
  unfolding plan_secret_redaction
  plan_secret_lem e = rw (detect_lenient env e)

  -- The texts before the first flag do not count.
  flag_after :
      (before after : List String) (text : String)
      → All (λ t. (inspect env t).sensitivity ≡ "normal") before
      → ((inspect env text).sensitivity == "normal") ≡ false
      → first_flag env (before ++ text ∷ after) ≡ (inspect env text).sensitivity
  unfolding first_flag
  flag_after [] after text calm flagged = rw flagged
  flag_after (t ∷ before) after text calm flagged =
      rw calm.0 (flag_after before after text calm.1 flagged)

  -- A secret that stands behind a text of another category is not planned for redaction: if the
  -- event is not labelled secret, and the first text that is not classified as normal is of a
  -- category such as health, the plan has no redaction for it, whatever the later texts hold.
  pub masked_secret :
      (e : MemoryEvent) (before after : List String) (text : String)
      → public_texts e ≡ before ++ text ∷ after
      → All (λ t. (inspect env t).sensitivity ≡ "normal") before
      → ((inspect env text).sensitivity == "normal") ≡ false
      → looks_secret env text ≡ false
      → (e.sensitivity == "secret") ≡ false
      → any (looks_secret env) after ≡ true
      → (holds_secret env e ≡ true) × (plan_secret_redaction env e ≡ [])
  unfolding holds_secret
  masked_secret e before after text split calm flagged public label found = (
    rw split (
        rw (any-append (looks_secret env) before (text ∷ after))
          (later (any (looks_secret env) before))),
    rw (plan_secret_lem e)
        (rw label (rw split (rw (flag_after before after text calm flagged) (rw quiet refl)))),
  )
    where
      quiet : ((inspect env text).sensitivity == "secret") ≡ false
      quiet = rw (inspect_clean env text public).1 (category_not_secret env text)

      later : (b : Bool) → (b || any (looks_secret env) (text ∷ after)) ≡ true
      later b = unfold any in rw (public, found) (ground arith)

  first_flag_secret :
      (texts : List String) → first_flag env texts ≡ "secret" → any (looks_secret env) texts ≡ true
  unfolding first_flag any
  first_flag_secret [] h = cc (ap (λ (s : String). s == "secret") h)
  first_flag_secret (t ∷ texts) h = elim (Bool-cases (looks_secret env t)) [
    | inl found ↦ rw found refl
    | inr clean ↦ rw clean (elim (Bool-cases ((inspect env t).sensitivity == "normal")) [
      | inl calm ↦ first_flag_secret texts (rw calm at h)
      | inr flagged ↦ cc (
        category_not_secret env t,
        ap (λ (s : String). s == "secret") (sym (inspect_clean env t clean).1 ∙ (rw flagged at h)),
      )
    ])
  ]

  -- A plan redacts only what is labelled secret or holds a text that looks like a secret.
  plan_secret_sound :
      (e : MemoryEvent)
      → (e.sensitivity == "secret") ≡ false
      → holds_secret env e ≡ false
      → plan_secret_redaction env e ≡ []
  unfolding holds_secret
  plan_secret_sound e label clean = rw (plan_secret_lem e) (
      rw label (elim (Bool-cases (first_flag env (public_texts e) == "secret")) [
        | inr p ↦ rw p
        | inl p ↦ cc (clean, first_flag_secret (public_texts e) ((eq_iff _ _).0 p))
      ]))

  -- Each text is either ordinary or looks like a secret.
  abbrev pub NoCategory : MemoryEvent → Type 0
  NoCategory e =
      All (λ t. (looks_secret env t ≡ false) → (category env t ≡ "normal")) (public_texts e)

  flag_found :
      (texts : List String)
      → All (λ t. (looks_secret env t ≡ false) → (category env t ≡ "normal")) texts
      → any (looks_secret env) texts ≡ true
      → first_flag env texts ≡ "secret"
  unfolding first_flag any
  flag_found [] c h = cc
  flag_found (t ∷ texts) c h = elim (Bool-cases (looks_secret env t)) [
    | inl found ↦ rw (inspect-secret env t found)
    | inr clean ↦
        rw (inspect_clean env t clean).1 (rw (c.0 clean) (flag_found texts c.1 (rw clean at h)))
  ]

  -- Where no text falls in one of the other categories, the plan redacts an event exactly when it
  -- is labelled secret or one of its texts looks like a secret.
  pub plan_secret_complete :
      (e : MemoryEvent)
      → NoCategory e
      → plan_secret_redaction env e
        ≡ (if e.sensitivity == "secret" || holds_secret env e then redaction e ∷ [] else [])
  unfolding holds_secret
  plan_secret_complete e c = elim (Bool-cases (any (looks_secret env) (public_texts e))) [
    | inl found ↦ rw (plan_secret_lem e) (rw found (rw (flag_found (public_texts e) c found)))
    | inr clean ↦ rw clean (elim (Bool-cases (e.sensitivity == "secret")) [
      | inl label ↦ rw (plan_secret_lem e) (rw label)
      | inr label ↦ rw label (plan_secret_sound e label clean)
    ])
  ]
