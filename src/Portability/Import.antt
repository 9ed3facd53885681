-- ===== src/Portability/Import.antt =====
-- What every imported event is like.
use tree_ring_memory.Prelude.{
  subst, ◌≢◌, String, ◌≡◌, sym, ◌∙◌, inl, inr, Bool, false, Bool-cases, >>=-eq-ok, ok-injective, ok,
  refl, ◌==◌, eq_iff, >>-eq-ok, ◌⊎◌,
}
use tree_ring_memory.Event.{MemoryEvent}
use tree_ring_memory.Event.Validate.{validate}
use tree_ring_memory.Externals.{Externals}
use tree_ring_memory.Legacy.{normalize_identity}
use tree_ring_memory.Sensitivity.{default_guard, detect_memory_event_sensitivity}
use tree_ring_memory.Sensitivity.Detect.{first_flag, public_texts, holds_secret, detect_default}
use tree_ring_memory.Portability.{normalize_import_event, reclassify}

module _ (env : Externals) where
  -- What an import has checked of an event, and what it has made of it.
  pub record IsImported (e e' : MemoryEvent) : Type 0 where
    pub named : MemoryEvent
    pub identity : (b : Bool) × (normalize_identity env e ≡ ok (named, b))
    pub valid : validate e' ≡ ok tt
    pub clean : holds_secret env named ≡ false
    pub result : reclassify env (first_flag env (public_texts named)) named ≡ e'

  detected-eq-ok :
      (e : MemoryEvent) {d : String}
      → detect_memory_event_sensitivity env default_guard e ≡ ok d
      → (holds_secret env e ≡ false) × (first_flag env (public_texts e) ≡ d)
  detected-eq-ok e h = elim (Bool-cases (holds_secret env e)) [
    | inl secret ↦ cc (rw secret at (sym (detect_default env e) ∙ h))
    | inr clean ↦ (clean, ok-injective (rw clean at (sym (detect_default env e) ∙ h)))
  ]

  import-IsImported :
      (e : MemoryEvent) {e' : MemoryEvent} → normalize_import_event env e ≡ ok e' → IsImported e e'
  unfolding normalize_import_event
  import-IsImported e {e'} h =
      let (nb, found, rest) = >>=-eq-ok (normalize_identity env e) _ h in
      let (d, detected, rest') =
        >>=-eq-ok (detect_memory_event_sensitivity env default_guard nb.0) _ rest in
      let v = >>-eq-ok (validate (reclassify env d nb.0)) _ rest' in
      let flag = detected-eq-ok nb.0 detected in
      let same : reclassify env d nb.0 ≡ e' = ok-injective v.1 in
      record {
        named = nb.0;
        identity = (nb.1, found);
        valid = rw same at v.0;
        clean = flag.0;
        result = rw flag.1 same;
      }

  -- What the label of an imported event becomes: its own, or that of the first text that is not
  -- normal if it was labelled normal.
  abbrev pub IsRelabelled : MemoryEvent → MemoryEvent → Type 0
  IsRelabelled named e' =
      ((named.sensitivity ≡ "normal") × (e'.sensitivity ≡ first_flag env (public_texts named)))
      ⊎ ((named.sensitivity ≢ "normal") × (e'.sensitivity ≡ named.sensitivity))

  reclassified :
      (d : String) (named : MemoryEvent)
      → (reclassify env d named
          ≡ record named { sensitivity = (reclassify env d named).sensitivity })
        × (((named.sensitivity ≡ "normal") × ((reclassify env d named).sensitivity ≡ d))
            ⊎ ((named.sensitivity ≢ "normal")
                × ((reclassify env d named).sensitivity ≡ named.sensitivity)))
  unfolding reclassify
  reclassified d named = elim (Bool-cases (named.sensitivity == "normal")) [
    | inr other ↦
        rw other
          (refl, inr ((λ same. cc (other, (eq_iff named.sensitivity "normal").1 same)), refl))
    | inl plain ↦
        let label = (eq_iff named.sensitivity "normal").0 plain in
        elim (Bool-cases (d == "normal")) [
          | inl calm ↦
              rw (plain, calm) (refl, inl (label, label ∙ sym ((eq_iff d "normal").0 calm)))
          | inr flagged ↦ rw (plain, flagged) (refl, inl (label, refl))
        ]
  ]

  -- An import accepts an event only if it holds no text that looks like a secret once its identity
  -- is restored, whatever its label. It changes nothing more of it than the label: one that is not
  -- normal stays, and normal becomes the classification of the first text that is not normal. The
  -- result passes `validate`.
  pub import_safe :
      (e e' : MemoryEvent)
      → normalize_import_event env e ≡ ok e'
      → (named : MemoryEvent) × ((b : Bool) × (normalize_identity env e ≡ ok (named, b)))
        × (holds_secret env named ≡ false)
        × (e' ≡ record named { sensitivity = e'.sensitivity })
        × IsRelabelled named e'
        × (validate e' ≡ ok tt)
  import_safe e e' h =
      let i = import-IsImported e h in
      let (same, label) = reclassified (first_flag env (public_texts i.named)) i.named in
      (
        i.named,
        i.identity,
        i.clean,
        subst (λ (x : MemoryEvent). x ≡ record i.named { sensitivity = x.sensitivity }) i.result
            same,
        subst (IsRelabelled i.named) i.result label,
        i.valid,
      )
