-- ===== src/Sensitivity/Inspect.antt =====
-- `inspect` finds exactly the texts that a secret pattern matches.
use tree_ring_memory.Prelude.{
  if◌then◌else◌, String, ◌≡◌, refl, inl, inr, Bool, true, false, List, [], ◌∷◌, ◌++◌, arith, ◌==◌,
  Bool-cases, any, ◌↔◌, sym, ◌∙◌, Option, none, some, All, ◌⊎◌,
}
use tree_ring_memory.Externals.{Pattern, Externals}
use tree_ring_memory.Sensitivity.{
  inspect, pattern_name, secret_patterns, scan_secrets, find_category, classify, category_patterns,
  classify_category,
}

module _ (env : Externals) where
  -- One of the secret patterns matches the text.
  unfoldable pub looks_secret : String → Bool
  looks_secret text = any (λ p. env.is_match p text) secret_patterns

  -- Findings are only added.
  scan-findings-cons :
      (ps : List Pattern) (redacted f : String) (fs : List String)
      → (g : String) × (gs : List String) × ((scan_secrets env ps redacted (f ∷ fs)).1 ≡ g ∷ gs)
  unfolding scan_secrets
  scan-findings-cons [] redacted f fs = (f, fs, refl)
  scan-findings-cons (p ∷ ps) redacted f fs = elim (Bool-cases (env.is_match p redacted)) [
    | inl hit ↦
        rw (hit, scan_secrets)
          (scan-findings-cons ps (env.replace_all p redacted "[REDACTED_SECRET]") f
            (fs ++ pattern_name p ∷ []))
    | inr miss ↦ rw (miss, scan_secrets) (scan-findings-cons ps redacted f fs)
  ]

  -- Without a match the scan leaves the text and the findings alone.
  scan_miss :
      (ps : List Pattern) (text : String) (fs : List String)
      → any (λ p. env.is_match p text) ps ≡ false
      → scan_secrets env ps text fs ≡ (text, fs)
  unfolding scan_secrets any
  scan_miss [] text fs h = refl
  scan_miss (p ∷ ps) text fs h = elim (Bool-cases (env.is_match p text)) [
    | inl hit ↦ ground arith
    | inr miss ↦ rw miss (scan_miss ps text fs (rw miss at h))
  ]

  scan_hit :
      (ps : List Pattern) (text : String)
      → any (λ p. env.is_match p text) ps ≡ true
      → (g : String) × (gs : List String) × ((scan_secrets env ps text []).1 ≡ g ∷ gs)
  unfolding scan_secrets any
  scan_hit [] text h = cc
  scan_hit (p ∷ ps) text h = elim (Bool-cases (env.is_match p text)) [
    | inl hit ↦
        rw (hit, scan_secrets)
          (scan-findings-cons ps (env.replace_all p text "[REDACTED_SECRET]") (pattern_name p) [])
    | inr miss ↦ rw (miss, scan_secrets) (scan_hit ps text (rw miss at h))
  ]

  pub inspect-secret :
      (text : String) → looks_secret text ≡ true → (inspect env text).sensitivity ≡ "secret"
  unfolding inspect looks_secret classify
  inspect-secret text h = let (g, gs, found) = scan_hit secret_patterns text h in rw found

  -- The label of a text that no secret pattern matches: the first of the four that fits.
  unfoldable pub category : String → String
  category text =
      if env.is_match Pattern.health text
      then "health"
      else if env.is_match Pattern.financial text
      then "financial"
      else if env.is_match Pattern.legal text
      then "legal"
      else if env.is_match Pattern.personal_identifier text
      then "personal_identifier"
      else "normal"

  abbrev label_of : Option Pattern → String
  label_of none = "normal"
  label_of (some p) = pattern_name p

  label_not_secret :
      (ps : List Pattern) (text : String)
      → All (λ p. (pattern_name p == "secret") ≡ false) ps
      → (label_of (find_category env ps text) == "secret") ≡ false
  unfolding find_category
  label_not_secret [] text h = refl
  label_not_secret (p ∷ ps) text h = elim (Bool-cases (env.is_match p text)) [
    | inl hit ↦ rw hit h.0
    | inr miss ↦ rw miss (label_not_secret ps text h.1)
  ]

  classified :
      (text : String) (o : Option Pattern)
      → ((classify_category text o).redacted_text ≡ text)
        × ((classify_category text o).sensitivity ≡ label_of o)
  unfolding classify_category
  classified text none = (refl, refl)
  classified text (some p) = (refl, refl)

  -- The search of the table finds the first pattern that matches.
  category_lem :
      (text : String) → label_of (find_category env category_patterns text) ≡ category text
  unfolding find_category category
  category_lem text =
      first (env.is_match Pattern.health text) (env.is_match Pattern.financial text)
        (env.is_match Pattern.legal text) (env.is_match Pattern.personal_identifier text)
    where
      first :
          (h f l p : Bool)
          → label_of (
              if h
              then some Pattern.health
              else if f
              then some Pattern.financial
              else if l
              then some Pattern.legal
              else if p
              then some Pattern.personal_identifier
              else none)
            ≡ (if h
                then "health"
                else if f
                then "financial"
                else if l
                then "legal"
                else if p
                then "personal_identifier"
                else "normal")
      first true f l p = refl
      first false true l p = refl
      first false false true p = refl
      first false false false true = refl
      first false false false false = refl

  pub category_not_secret : (text : String) → (category text == "secret") ≡ false
  category_not_secret text =
      rw (sym (category_lem text))
        (label_not_secret category_patterns text (refl, (refl, (refl, (refl, tt)))))

  pub inspect_clean :
      (text : String)
      → looks_secret text ≡ false
      → ((inspect env text).redacted_text ≡ text) × ((inspect env text).sensitivity ≡ category text)
  unfolding inspect looks_secret classify
  inspect_clean text h =
      let found = classified text (find_category env category_patterns text) in
      rw (scan_miss secret_patterns text [] h) (found.0, found.1 ∙ category_lem text)

  inspect-secret_only :
      (text : String) → (inspect env text).sensitivity ≡ "secret" → looks_secret text ≡ true
  inspect-secret_only text h = elim (Bool-cases (looks_secret text)) [
    | inl found ↦ found
    | inr miss ↦
        let same : category text ≡ "secret" = sym (inspect_clean text miss).1 ∙ h in
        cc (rw same at (category_not_secret text))
  ]

  -- A text is classified as secret exactly when one of the secret patterns matches it; every
  -- other text is kept as it is, and labelled by the first that matches of the patterns for health,
  -- financial, legal and personal texts, in this order, or as normal if none does.
  pub inspect-secret_iff :
      (text : String)
      → (((inspect env text).sensitivity ≡ "secret") ↔ (looks_secret text ≡ true))
        × ((looks_secret text ≡ true)
            ⊎ (((inspect env text).redacted_text ≡ text)
                × ((inspect env text).sensitivity ≡ category text)))
  inspect-secret_iff text = (
    (inspect-secret_only text, inspect-secret text),
    elim (Bool-cases (looks_secret text)) [
      | inl found ↦ inl found
      | inr clean ↦ inr (inspect_clean text clean)
    ],
  )
