-- ===== src/Api/Invariant/Consolidated.antt =====
-- `consolidate` keeps the invariant, which is a relation that every step satisfies.
use tree_ring_memory.Prelude.{ℕ, String, refl, sym, ◌∙◌, subst, ok-injective}
use tree_ring_memory.Externals.{Externals}
use tree_ring_memory.Store.{Store}
use tree_ring_memory.Policy.{WriteContext, insert_audit}
use tree_ring_memory.Consolidation.{ConsolidationRequest}
use tree_ring_memory.Api.Consolidate.{consolidate}
use tree_ring_memory.Api.Invariant.Steps.{IsConsistent, put-IsConsistent, delete-IsConsistent}
use tree_ring_memory.Api.Invariant.Rows.{redact-IsConsistent}
use tree_ring_memory.Api.Invariant.Supersede.{supersede-IsConsistent}
use tree_ring_memory.Api.Invariant.Rebuilt.{rebuild-IsConsistent}
use tree_ring_memory.Api.Invariant.Policies.{same-IsConsistent}
use tree_ring_memory.Api.Frame.{IsFrame}
use tree_ring_memory.Api.Frame.Consolidated.{consolidate_frame}

module _ (env : Externals) where
  -- The tables are consistent after if they were before.
  abbrev KeepsConsistent : Store → Store → Type 0
  KeepsConsistent s s' = IsConsistent env s → IsConsistent env s'

  consistent-IsFrame : IsFrame env KeepsConsistent
  unfolding insert_audit
  consistent-IsFrame = record {
    same = λ s c. c;
    chain = λ s t u a b c. b (a c);
    put_step = λ s s' e h c. put-IsConsistent env s e c h;
    redact_step = λ s s' now id b h c. redact-IsConsistent env s now id c h;
    supersede_step = λ s s' old_id new_id b h c. supersede-IsConsistent env s old_id new_id c h;
    delete_step = λ s id c. delete-IsConsistent env s id c;
    rebuild_step = λ s s' h c.
        let (t, rebuilt, k) = rebuild-IsConsistent env s c in
        subst (IsConsistent env) (ok-injective (sym rebuilt ∙ h)) k;
    audit_step = λ now context action decision reason target s c.
        same-IsConsistent env
          (record { memories = refl; fts = refl; claims = refl; tombstones = refl }) c;
    policy_step = λ s p c.
        same-IsConsistent env
          (record { memories = refl; fts = refl; claims = refl; tombstones = refl }) c;
    record_step = λ s rows c.
        same-IsConsistent env
          (record { memories = refl; fts = refl; claims = refl; tombstones = refl }) c;
  }

  pub consolidate-IsConsistent :
      (now : String) (context : WriteContext) (made : ℕ → String × String) (id : String)
      (instant : ℕ) (request : ConsolidationRequest) (s : Store)
      → IsConsistent env s
      → IsConsistent env (consolidate env now context made id instant request s).0
  consolidate-IsConsistent now context made id instant request s c =
      consolidate_frame env KeepsConsistent consistent-IsFrame now context made id instant request s
        c
