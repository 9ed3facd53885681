-- ===== src/Audit/Privacy.antt =====
-- What the audits of sensitive and of expired memories find.
use tree_ring_memory.Prelude.{
  ℕ, ◌<◌, String, ◌≡◌, refl, ◌↔◌, ◌⊎◌, inl, inr, Bool, true, false, Option, none, some, List, [],
  ◌∷◌, ◌++◌, arith, ◌==◌, leb, Bool-cases, is_none, All,
}
use tree_ring_memory.Event.{MemoryEvent}
use tree_ring_memory.Externals.{Externals}
use tree_ring_memory.Audit.{
  AuditFinding, push_if, lasting, sensitive_findings, audit_sensitive, expiry_findings,
  stale_findings, audit_stale,
}
use tree_ring_memory.Audit.Links.{append-eq-nil, push_if-eq-nil}

-- A sensitive memory that is not secret, does not last, and expires.
pub record IsContained (e : MemoryEvent) : Type 0 where
  pub not_secret : (e.sensitivity == "secret") ≡ false
  pub short_lived : lasting e ≡ false
  pub bounded : is_none e.expires_at ≡ false

none_pushed :
    (a b c : Bool) (f g h : AuditFinding)
    → a ≡ false
    → b ≡ false
    → c ≡ false
    → push_if a f ++ (push_if b g ++ push_if c h) ≡ []
none_pushed a b c f g h p q r = rw (p, q) (rw r refl)

contained : (e : MemoryEvent) → (false ≡ true) ⊎ IsContained e → IsContained e
contained e (inl h) = cc
contained e (inr c) = c

sensitive_iff :
    (e : MemoryEvent)
    → (sensitive_findings e ≡ []) ↔ (((e.sensitivity == "normal") ≡ true) ⊎ IsContained e)
unfolding sensitive_findings
sensitive_iff e = elim (Bool-cases (e.sensitivity == "normal")) [
  | inl calm ↦ rw calm (λ h. inl refl, λ h. refl)
  | inr flagged ↦ rw flagged (
    λ h.
        let a = (append-eq-nil (push_if (e.sensitivity == "secret") _) _).0 h in
        let b = (append-eq-nil (push_if (lasting e) _) _).0 a.1 in
        inr (record {
          not_secret = (push_if-eq-nil (e.sensitivity == "secret") _).0 a.0;
          short_lived = (push_if-eq-nil (lasting e) _).0 b.0;
          bounded = (push_if-eq-nil (is_none e.expires_at) _).0 b.1;
        }),
    λ h.
        let c = contained e h in
        none_pushed (e.sensitivity == "secret") (lasting e) (is_none e.expires_at) _ _ _
          c.not_secret c.short_lived c.bounded,
  )
]

-- The audit of sensitive memories finds nothing exactly when each memory is labelled normal, or is
-- not labelled secret, has no lasting retention, and has an expiry.
pub audit_sensitive-eq-nil_iff :
    (events : List MemoryEvent)
    → (audit_sensitive events ≡ [])
      ↔ All (λ (e : MemoryEvent). ((e.sensitivity == "normal") ≡ true) ⊎ IsContained e) events
unfolding audit_sensitive
audit_sensitive-eq-nil_iff [] = (λ h. tt, λ h. refl)
audit_sensitive-eq-nil_iff (e ∷ es) =
    let both = append-eq-nil (sensitive_findings e) (audit_sensitive es) in
    let here = sensitive_iff e in
    let rest = audit_sensitive-eq-nil_iff es in
    (λ h. (here.0 (both.0 h).0, rest.0 (both.0 h).1), λ h. both.1 (here.1 h.0, rest.1 h.1))

module _ (env : Externals) (now : ℕ) where
  -- The memory has no expiry, or one that can be read and is still to come.
  pub data IsFresh (e : MemoryEvent) : Type 0 where
    unbounded : e.expires_at ≡ none → IsFresh e
    ahead :
        (text : String) (t : ℕ)
        → e.expires_at ≡ some text
        → env.parse_rfc3339 text ≡ some t
        → now < t
        → IsFresh e

  expiry-IsFresh :
      (e : MemoryEvent) (text : String) (o : Option ℕ)
      → e.expires_at ≡ some text
      → env.parse_rfc3339 text ≡ o
      → expiry_findings env now e o ≡ []
      → IsFresh e
  unfolding expiry_findings
  expiry-IsFresh e text none set read h = cc
  expiry-IsFresh e text (some t) set read h =
      ahead text t set read (ground (arith, (push_if-eq-nil (leb t now) _).0 h))

  stale-IsFresh :
      (e : MemoryEvent) (o : Option String)
      → e.expires_at ≡ o
      → stale_findings env now e o ≡ []
      → IsFresh e
  unfolding stale_findings
  stale-IsFresh e none set h = unbounded set
  stale-IsFresh e (some text) set h = expiry-IsFresh e text (env.parse_rfc3339 text) set refl h

  IsFresh-stale : (e : MemoryEvent) → IsFresh e → stale_findings env now e e.expires_at ≡ []
  unfolding stale_findings expiry_findings
  IsFresh-stale e (unbounded set) = rw set refl
  IsFresh-stale e (ahead text t set read later) =
      rw set (rw read ((push_if-eq-nil (leb t now) _).1 (ground arith)))

  -- The audit of stale memories finds nothing exactly when each memory has no expiry or one that
  -- can be read and is later than now.
  pub audit_stale-eq-nil_iff :
      (events : List MemoryEvent) → (audit_stale env now events ≡ []) ↔ All IsFresh events
  unfolding audit_stale
  audit_stale-eq-nil_iff [] = (λ h. tt, λ h. refl)
  audit_stale-eq-nil_iff (e ∷ es) =
      let both = append-eq-nil (stale_findings env now e e.expires_at) (audit_stale env now es) in
      let rest = audit_stale-eq-nil_iff es in
      (
        λ h. (stale-IsFresh e e.expires_at refl (both.0 h).0, rest.0 (both.0 h).1),
        λ h. both.1 (IsFresh-stale e h.0, rest.1 h.1),
      )
