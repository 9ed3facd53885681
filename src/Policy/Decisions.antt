-- ===== src/Policy/Decisions.antt =====
-- Which creations a worker without the coordinator's capability may make.
use tree_ring_memory.Prelude.{
  String, ◌≡◌, refl, sym, ap, ◌∙◌, ◌↔◌, inl, inr, true, false, not, ◌&&◌, none, some, List, [], ◌∷◌,
  arith, ◌==◌, eq_iff, Bool-cases, Option-cases, is_some, option_eq, option_eq_iff, &&-eq-true,
  not-eq-true, All, contains,
}
use tree_ring_memory.Event.{MemoryEvent}
use tree_ring_memory.Store.{Store, exists_memory}
use tree_ring_memory.Policy.{WriteContext, unprivileged_create_allowed, protected_target}

-- The event is new, private to the agent that creates it, and not heartwood.
pub record IsOwnCreation (context : WriteContext) (s : Store) (e : MemoryEvent) : Type 0 where
  pub fresh : exists_memory e.id s.memories ≡ false
  pub scope : e.scope ≡ "agent"
  pub ring : (e.ring == "heartwood") ≡ false
  pub owner :
      (actor : String) × (context.actor_profile ≡ some actor) × (e.agent_profile ≡ some actor)

-- No id occurs twice, nor among those seen before.
abbrev pub Distinct : List String → List MemoryEvent → Type 0
Distinct seen [] = Unit
Distinct seen (e ∷ es) = (contains seen e.id ≡ false) × Distinct (e.id ∷ seen) es

owner-found :
    (context : WriteContext) (e : MemoryEvent)
    → option_eq context.actor_profile e.agent_profile ≡ true
    → is_some context.actor_profile ≡ true
    → (actor : String) × (context.actor_profile ≡ some actor) × (e.agent_profile ≡ some actor)
owner-found context e same there = elim (Option-cases context.actor_profile) [
  | inl none_there ↦ cc (rw none_there at there)
  | inr (actor, found) ↦
      (actor, found, sym ((option_eq_iff context.actor_profile e.agent_profile).0 same) ∙ found)
]

creation-allowed :
    (context : WriteContext) (e : MemoryEvent)
    → unprivileged_create_allowed context e ≡ true
    → (e.scope ≡ "agent")
      × ((e.ring == "heartwood") ≡ false)
      × ((actor : String) × (context.actor_profile ≡ some actor) × (e.agent_profile ≡ some actor))
unfolding unprivileged_create_allowed
creation-allowed context e h = (
  (eq_iff e.scope "agent").0 (ground arith),
  ground arith,
  owner-found context e (ground arith) (ground arith),
)

allowed-creation :
    (context : WriteContext) (s : Store) (e : MemoryEvent)
    → IsOwnCreation context s e
    → unprivileged_create_allowed context e ≡ true
unfolding unprivileged_create_allowed
allowed-creation context s e own =
    let (actor, mine, its) = own.owner in
    let same = (option_eq_iff context.actor_profile e.agent_profile).1 (mine ∙ sym its) in
    let there : is_some context.actor_profile ≡ true = ap is_some mine in
    ground (arith, (eq_iff e.scope "agent").1 own.scope, own.ring, same, there)

-- The search for a protected target finds none exactly when every event of the batch is a new,
-- private, not heartwood event of the worker itself, and no id occurs twice.
pub protected_target_iff :
    (context : WriteContext) (s : Store) (seen : List String) (es : List MemoryEvent)
    → (protected_target context s seen es ≡ none)
      ↔ (All (IsOwnCreation context s) es × Distinct seen es)
unfolding protected_target
protected_target_iff context s seen [] = (λ h. (tt, tt), λ h. refl)
protected_target_iff context s seen (e ∷ es) = (
  λ h. elim (Bool-cases (exists_memory e.id s.memories)) [
    | inl old ↦ cc (rw old at h)
    | inr fresh ↦
        elim (Bool-cases (not (contains seen e.id) && unprivileged_create_allowed context e)) [
          | inr other ↦ cc (rw other at (rw fresh at h))
          | inl own ↦
              let rest =
                (protected_target_iff context s (e.id ∷ seen) es).0 (rw own at (rw fresh at h)) in
              let both = &&-eq-true _ _ own in
              let (scope, ring, owner) = creation-allowed context e both.1 in
              (
                (record { fresh = fresh; scope = scope; ring = ring; owner = owner }, rest.0),
                (not-eq-true _ both.0, rest.1),
              )
        ]
  ],
  λ h. rw h.0.0.fresh (
      rw h.1.0 (
        rw (allowed-creation context s e h.0.0)
          ((protected_target_iff context s (e.id ∷ seen) es).1 (h.0.1, h.1.1)))),
)
