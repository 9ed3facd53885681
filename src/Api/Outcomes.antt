-- ===== src/Api/Outcomes.antt =====
-- What the result of an operation says of the tables after it.
use tree_ring_memory.Prelude.{◌≡◌, refl, ap, ok-injective, Result, ok, err}
use tree_ring_memory.Store.{Store}
use tree_ring_memory.Policy.{AuthorizationOutcome, allowed, denied}
use tree_ring_memory.Api.{settle, guarded}

-- A transaction that succeeds was allowed, and its body ran on the tables with the audit row.
pub guarded-eq-ok {ℓ} :
    {A : Type ℓ} (s : Store) (auth : AuthorizationOutcome × Store)
    (body : Store → Result (Store × A)) {s' : Store} {a : A}
    → guarded s auth body ≡ (s', ok a)
    → body auth.1 ≡ ok (s', a)
unfolding guarded
guarded-eq-ok {A = A} s (denied error, audited) body h = cc (ap (λ (p : Store × Result A). p.1) h)
guarded-eq-ok {A = A} s (allowed, audited) body {s'} {a} h = settled (body audited) h
  where
    settled : (r : Result (Store × A)) → settle s r ≡ (s', ok a) → r ≡ ok (s', a)
    settled (err e) h = cc (ap (λ (p : Store × Result A). p.1) h)
    settled (ok (after, b)) h =
        let same : after ≡ s' = ap (λ (p : Store × Result A). p.0) h in
        let value : b ≡ a = ok-injective (ap (λ (p : Store × Result A). p.1) h) in
        rw (same, value) refl
