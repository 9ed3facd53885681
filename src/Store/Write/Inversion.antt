-- ===== src/Store/Write/Inversion.antt =====
-- What a write that succeeds has checked and changed, read off its chain of checks.
use tree_ring_memory.Store.Write.{reread_event}
use tree_ring_memory.Prelude.{
  length, ◌≤◌, ℕ, String, ◌≡◌, refl, sym, ◌∙◌, inl, inr, false, not, ◌&&◌, Option, none, some, List,
  [], ◌∷◌, ◌++◌, arith, ◌==◌, Bool-cases, any, contains, bytes_eq, ensure, >>=-eq-ok, >>-eq-ok,
  ensure-eq-ok, ok, ap, subst, not-eq-true,
}
use tree_ring_memory.Event.{MemoryEvent}
use tree_ring_memory.Event.Validate.{validate}
use tree_ring_memory.Externals.{Externals}
use tree_ring_memory.Sensitivity.{default_guard, detect_memory_event_sensitivity}
use tree_ring_memory.Sensitivity.Detect.{holds_secret, detect_default}
use tree_ring_memory.Store.{Store, Claim, upsert, fts_row, delete_fts, same_namespace}
use tree_ring_memory.Store.Write.{
  add_claim, claimed, is_sanitized_redaction, select_event, validate_memory_for_storage, claim_hash,
  ensure_operation_claim_available, preserve_hash, preserve_replaced, prepare_memory_write,
  put_with_statements, put_in_transaction,
}

-- The claims that were there, in their order, and at most one more after them.
abbrev pub IsAddedTo : List Claim → List Claim → Type 0
IsAddedTo before after = (added : List Claim) × (after ≡ before ++ added) × (length added ≤ 1)

same-IsAddedTo : (claims : List Claim) → IsAddedTo claims claims
same-IsAddedTo claims = ([], nil_right claims, omega arith)
  where
    nil_right : (xs : List Claim) → xs ≡ xs ++ []
    nil_right [] = refl
    nil_right (x ∷ xs) = ap (◌∷◌ x) (nil_right xs)

claim-IsAddedTo :
    (hash : List ℕ) (id : String) (claims : List Claim)
    → IsAddedTo claims (add_claim hash id claims)
unfolding add_claim
claim-IsAddedTo hash id claims = elim (Bool-cases (claimed hash claims)) [
  | inl there ↦ rw there (same-IsAddedTo claims)
  | inr new ↦ rw new (record { namespace_hash = hash; memory_id = id } ∷ [], refl, omega arith)
]

module _ (env : Externals) where
  -- The checks that `put_in_transaction` has passed, and the tables after it.
  pub record Written (s : Store) (e : MemoryEvent) (s' : Store) : Type 0 where
    pub valid : validate e ≡ ok tt
    pub clean : holds_secret env e ≡ false
    pub sealed : (contains s.tombstones e.id && not (is_sanitized_redaction e)) ≡ false
    pub available : ensure_operation_claim_available env s' e ≡ ok tt
    pub namespace_free :
        any (λ (m : MemoryEvent). not (m.id == e.id) && same_namespace e m) s.memories ≡ false
    pub memories : s'.memories ≡ upsert (reread_event env e) s.memories
    pub fts : s'.fts ≡ delete_fts e.id s.fts ++ fts_row e ∷ []
    pub tombstones : s'.tombstones ≡ s.tombstones
    pub policy : s'.policy ≡ s.policy
    pub authorization_audit : s'.authorization_audit ≡ s.authorization_audit
    pub consolidations : s'.consolidations ≡ s.consolidations
    pub claims : IsAddedTo s.claims s'.claims

  -- The claims are all that saving the claim of a replaced row changes.
  pub record OnlyClaims (s s' : Store) : Type 0 where
    pub memories : s'.memories ≡ s.memories
    pub fts : s'.fts ≡ s.fts
    pub tombstones : s'.tombstones ≡ s.tombstones
    pub policy : s'.policy ≡ s.policy
    pub authorization_audit : s'.authorization_audit ≡ s.authorization_audit
    pub consolidations : s'.consolidations ≡ s.consolidations
    pub claims : IsAddedTo s.claims s'.claims

  unchanged : (s : Store) → OnlyClaims s s
  unchanged s = record {
    memories = refl;
    fts = refl;
    tombstones = refl;
    policy = refl;
    authorization_audit = refl;
    consolidations = refl;
    claims = same-IsAddedTo s.claims;
  }

  preserve_hash-OnlyClaims :
      (old new : Option (List ℕ)) (id : String) (s : Store)
      → OnlyClaims s (preserve_hash env old new id s)
  unfolding preserve_hash
  preserve_hash-OnlyClaims none new id s = unchanged s
  preserve_hash-OnlyClaims (some h) none id s = record {
    memories = refl;
    fts = refl;
    tombstones = refl;
    policy = refl;
    authorization_audit = refl;
    consolidations = refl;
    claims = claim-IsAddedTo h id s.claims;
  }
  preserve_hash-OnlyClaims (some h) (some h') id s = elim (Bool-cases (bytes_eq h' h)) [
    | inl same ↦ rw same (unchanged s)
    | inr other ↦ rw other (record {
      memories = refl;
      fts = refl;
      tombstones = refl;
      policy = refl;
      authorization_audit = refl;
      consolidations = refl;
      claims = claim-IsAddedTo h id s.claims;
    })
  ]

  preserve_replaced-OnlyClaims :
      (o : Option MemoryEvent) (e : MemoryEvent) (s : Store)
      → OnlyClaims s (preserve_replaced env o e s)
  unfolding preserve_replaced
  preserve_replaced-OnlyClaims none e s = unchanged s
  preserve_replaced-OnlyClaims (some existing) e s =
      preserve_hash-OnlyClaims (claim_hash env existing existing.operation_id)
        (claim_hash env e e.operation_id) existing.id s

  validated_for_storage :
      (e : MemoryEvent)
      → validate_memory_for_storage env e ≡ ok tt
      → (validate e ≡ ok tt) × (holds_secret env e ≡ false)
  unfolding validate_memory_for_storage
  validated_for_storage e h =
      let (d, found, passed) =
        >>=-eq-ok (detect_memory_event_sensitivity env default_guard e) (λ d. validate e) h in
      (
        passed,
        elim (Bool-cases (holds_secret env e)) [
          | inr clean ↦ clean
          | inl secret ↦ cc (rw secret at (sym (detect_default env e) ∙ found))
        ],
      )

  -- What `prepare_memory_write` has checked; it changes nothing but the claims.
  record Prepared (s : Store) (e : MemoryEvent) (s' : Store) : Type 0 where
    valid : validate e ≡ ok tt
    clean : holds_secret env e ≡ false
    sealed : (contains s.tombstones e.id && not (is_sanitized_redaction e)) ≡ false
    available : ensure_operation_claim_available env s' e ≡ ok tt
    kept : OnlyClaims s s'

  prepared :
      (s : Store) (e : MemoryEvent) {s' : Store}
      → prepare_memory_write env s e ≡ ok s'
      → Prepared s e s'
  unfolding prepare_memory_write
  prepared s e {s'} h =
      let a = >>-eq-ok (validate_memory_for_storage env e) _ h in
      let b =
        >>-eq-ok (ensure (not (contains s.tombstones e.id && not (is_sanitized_redaction e))) _) _
          a.1 in
      let (o, found, c) = >>=-eq-ok (select_event env e.id s) _ b.1 in
      let d = >>-eq-ok (ensure_operation_claim_available env (preserve_replaced env o e s) e) _ c in
      let same : preserve_replaced env o e s ≡ s' = cc d.1 in
      record {
        valid = (validated_for_storage e a.0).0;
        clean = (validated_for_storage e a.0).1;
        sealed = ground (
          arith,
          ensure-eq-ok (not (contains s.tombstones e.id && not (is_sanitized_redaction e))) _ b.0,
        );
        available = rw same at d.0;
        kept = rw same at (preserve_replaced-OnlyClaims o e s);
      }

  -- The tables after the three statements.
  abbrev stored : Store → MemoryEvent → Store
  stored s e = record s {
    memories = upsert (reread_event env e) s.memories;
    fts = delete_fts e.id s.fts ++ fts_row e ∷ [];
  }

  statements-eq-ok :
      (s : Store) (e : MemoryEvent) {s' : Store}
      → put_with_statements env s e ≡ ok s'
      → (any (λ (m : MemoryEvent). not (m.id == e.id) && same_namespace e m) s.memories ≡ false)
        × (stored s e ≡ s')
  unfolding put_with_statements
  statements-eq-ok s e h =
      let a = >>-eq-ok (validate e) _ h in
      let b =
        >>-eq-ok
          (ensure
            (not (any (λ (m : MemoryEvent). not (m.id == e.id) && same_namespace e m) s.memories))
            _)
          _ a.1 in
      (not-eq-true _ (ensure-eq-ok _ _ b.0), cc b.1)

  -- A write that succeeds has passed every check, and has changed the row of the event's id, which
  -- is the event with its scores as serde_json reads them back, and its index entry, and nothing
  -- else but that it may have added one claim to those that were there.
  pub put-eq-ok :
      (s : Store) (e : MemoryEvent) {s' : Store}
      → put_in_transaction env s e ≡ ok s'
      → Written s e s'
  unfolding put_in_transaction ensure_operation_claim_available
  put-eq-ok s e {s'} h =
      let (m, ready, rest) = >>=-eq-ok (prepare_memory_write env s e) _ h in
      let p = prepared s e ready in
      let (free, same) = statements-eq-ok m e rest in
      let k = p.kept in
      subst (Written s e) same (record {
        valid = p.valid;
        clean = p.clean;
        sealed = p.sealed;
        available = p.available;
        namespace_free = rw k.memories at free;
        memories = ap (upsert (reread_event env e)) k.memories;
        fts = ap (λ rows. delete_fts e.id rows ++ fts_row e ∷ []) k.fts;
        tombstones = k.tombstones;
        policy = k.policy;
        authorization_audit = k.authorization_audit;
        consolidations = k.consolidations;
        claims = k.claims;
      })

  -- A write that succeeds has passed the check of the event alone.
  pub put-checked :
      (s : Store) (e : MemoryEvent) {s' : Store}
      → put_in_transaction env s e ≡ ok s'
      → validate_memory_for_storage env e ≡ ok tt
  unfolding put_in_transaction prepare_memory_write
  put-checked s e h =
      let (m, ready, rest) = >>=-eq-ok (prepare_memory_write env s e) _ h in
      (>>-eq-ok (validate_memory_for_storage env e) _ ready).0
