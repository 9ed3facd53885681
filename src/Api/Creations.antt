-- ===== src/Api/Creations.antt =====
-- What a worker may create in the coordinated mode, and what the capability of a grant opens.
use tree_ring_memory.Prelude.{
  String, ◌≡◌, refl, inl, inr, Bool, ◌||◌, Option, none, some, List, [], ◌∷◌, if◌then◌else◌,
  Bool-cases, Option-cases, is_some, All, is_empty, ◌⊎◌,
}
use tree_ring_memory.Event.{MemoryEvent}
use tree_ring_memory.Externals.{Externals}
use tree_ring_memory.Store.{Store}
use tree_ring_memory.Policy.{
  WriteContext, allowed, is_unrestricted, protected_target, authorize_target,
  authorize_event_creates,
}
use tree_ring_memory.Policy.Decisions.{protected_target_iff, IsOwnCreation, Distinct}
use tree_ring_memory.Api.{settle, guarded}
use tree_ring_memory.Api.Batch.{write_body, put_many_with_dox_guard}
use tree_ring_memory.Api.Denials.{
  IsRefused, not_unrestricted, IsUnprivileged, IsDenial, policy-IsDenial, denial-IsRefused,
}

module _ (env : Externals) (now : String) (context : WriteContext) where
  -- Each event of the batch is the worker's own creation, and no id occurs twice.
  abbrev pub OwnBatch : Store → List MemoryEvent → Type 0
  OwnBatch s events = All (IsOwnCreation context s) events × Distinct [] events

  pub creates-none :
      (action : String) (events : List MemoryEvent) (s : Store)
      → protected_target context s [] events ≡ none
      → authorize_event_creates env now context action events s ≡ (allowed, s)
  unfolding authorize_event_creates authorize_target
  creates-none action events s h =
      elim (Bool-cases (is_unrestricted s.policy.mode || is_empty events)) [
        | inl open_ ↦ rw open_
        | inr closed ↦ rw closed (rw h)
      ]

  nothing_protected : (s : Store) → protected_target context s [] [] ≡ none
  unfolding protected_target
  nothing_protected s = refl

  pub creates-denied :
      (action target : String) (events : List MemoryEvent) (s : Store)
      → IsUnprivileged env now context s
      → protected_target context s [] events ≡ some target
      → IsDenial env now context action s (authorize_event_creates env now context action events s)
  unfolding authorize_event_creates authorize_target
  creates-denied action target [] s u h = cc (nothing_protected s, h)
  creates-denied action target (e ∷ es) s u h =
      rw (not_unrestricted s.policy.mode u.0)
        (rw h (policy-IsDenial env now context action (some target) s u.1))

  -- In the coordinated mode, a context without the matching capability can write a batch exactly
  -- when each event of it is new, of the scope agent, not heartwood and of the context's own actor,
  -- and no id occurs twice: either the batch is such and runs as one transaction without an audit
  -- row, or it is not and is refused, with one audit row as all that changes.
  pub worker_batch :
      (s : Store) (events : List MemoryEvent) (guard : Option Bool)
      → IsUnprivileged env now context s
      → (OwnBatch s events
          × (put_many_with_dox_guard env now context events guard s
              ≡ settle s (write_body env now context guard events s)))
        ⊎ (¬ OwnBatch s events
            × IsRefused
                (if is_some guard then "put_dox_many" else "put_many")
                s
                (put_many_with_dox_guard env now context events guard s))
  unfolding put_many_with_dox_guard
  worker_batch s events guard u = elim (Option-cases (protected_target context s [] events)) [
    | inl free ↦ inl (
      (protected_target_iff context s [] events).0 free,
      rw (creates-none _ events s free) (unfold guarded in refl),
    )
    | inr (target, found) ↦ inr (
      λ own. cc ((protected_target_iff context s [] events).1 own, found),
      denial-IsRefused env now context _ s _ (write_body env now context guard events)
          (creates-denied _ target events s u found),
    )
  ]
