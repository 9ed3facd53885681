-- ===== src/Audit/Links.antt =====
-- What an audit without findings says of the memories.
use tree_ring_memory.Prelude.{
  String, ◌≡◌, refl, sym, subst, ◌∙◌, ◌↔◌, inl, inr, Bool, true, false, not, Option, none, some,
  List, [], ◌∷◌, ◌++◌, arith, Option-cases, option_eq, option_eq_iff, of_some, All, contains,
}
use tree_ring_memory.Event.{MemoryEvent}
use tree_ring_memory.Audit.{
  AuditFinding, push_if, by_id, old_findings, supersedes_findings, target_findings, link_findings,
  links_findings, audit_supersession,
}

pub append-eq-nil : (xs ys : List AuditFinding) → (xs ++ ys ≡ []) ↔ ((xs ≡ []) × (ys ≡ []))
append-eq-nil [] ys = (λ h. (refl, h), λ h. h.1)
append-eq-nil (x ∷ xs) ys = (λ h. cc, λ h. cc (h.0))

pub push_if-eq-nil : (test : Bool) (f : AuditFinding) → (push_if test f ≡ []) ↔ (test ≡ false)
push_if-eq-nil true f = (λ h. cc, λ h. cc)
push_if-eq-nil false f = (λ h. refl, λ h. refl)

-- The pointer of a superseded memory leads to a memory.
abbrev pub HasTarget : List MemoryEvent → Option String → Type 0
HasTarget events none = Unit
HasTarget events (some new_id) = (m : MemoryEvent) × (by_id new_id events ≡ some m)

-- The memory of the id is there and points back.
abbrev pub PointsBack : List MemoryEvent → MemoryEvent → String → Type 0
PointsBack events e old_id =
    (old : MemoryEvent) × (by_id old_id events ≡ some old) × (old.superseded_by ≡ some e.id)

-- The links of a memory agree with those of the memories that it names.
pub record IsLinked (events : List MemoryEvent) (e : MemoryEvent) : Type 0 where
  pub not_self : contains e.supersedes e.id ≡ false
  pub target : HasTarget events e.superseded_by
  pub olds : All (PointsBack events e) e.supersedes

target_iff :
    (events : List MemoryEvent) (e : MemoryEvent) (o : Option String)
    → (target_findings events e o ≡ []) ↔ HasTarget events o
unfolding target_findings
target_iff events e none = (λ h. tt, λ h. refl)
target_iff events e (some new_id) = elim (Option-cases (by_id new_id events)) [
  | inl missing ↦ rw missing (λ h. cc, λ h. cc (h.1))
  | inr (m, found) ↦ rw found (λ h. (m, refl), λ h. refl)
]

old_iff :
    (events : List MemoryEvent) (e : MemoryEvent) (old_id : String) (o : Option MemoryEvent)
    → by_id old_id events ≡ o
    → (old_findings e old_id o ≡ []) ↔ PointsBack events e old_id
unfolding old_findings
old_iff events e old_id none f = (λ h. cc, λ h. cc (f, h.1))
old_iff events e old_id (some old) f = (
  λ h. (
    old,
    f,
    (option_eq_iff old.superseded_by (some e.id)).0
        (ground (arith, (push_if-eq-nil (not (option_eq old.superseded_by (some e.id))) _).0 h)),
  ),
  λ h.
      let same : h.0 ≡ old = of_some (sym h.1 ∙ f) in
      let back : old.superseded_by ≡ some e.id =
        subst (λ (m : MemoryEvent). m.superseded_by ≡ some e.id) same h.2 in
      (push_if-eq-nil (not (option_eq old.superseded_by (some e.id))) _).1
        (ground (arith, (option_eq_iff old.superseded_by (some e.id)).1 back)),
)

olds_iff :
    (events : List MemoryEvent) (e : MemoryEvent) (ids : List String)
    → (supersedes_findings events e ids ≡ []) ↔ All (PointsBack events e) ids
unfolding supersedes_findings
olds_iff events e [] = (λ h. tt, λ h. refl)
olds_iff events e (old_id ∷ ids) =
    let both =
      append-eq-nil (old_findings e old_id (by_id old_id events))
        (supersedes_findings events e ids) in
    let here = old_iff events e old_id (by_id old_id events) refl in
    let rest = olds_iff events e ids in
    (λ h. (here.0 (both.0 h).0, rest.0 (both.0 h).1), λ h. both.1 (here.1 h.0, rest.1 h.1))

link_iff :
    (events : List MemoryEvent) (e : MemoryEvent)
    → (link_findings events e ≡ []) ↔ IsLinked events e
unfolding link_findings
link_iff events e =
    let outer = append-eq-nil (push_if (contains e.supersedes e.id) _) _ in
    let inner =
      append-eq-nil (target_findings events e e.superseded_by)
        (supersedes_findings events e e.supersedes) in
    let own = push_if-eq-nil (contains e.supersedes e.id) _ in
    let target = target_iff events e e.superseded_by in
    let olds = olds_iff events e e.supersedes in
    (
      λ h.
          let a = outer.0 h in
          let b = inner.0 a.1 in
          record { not_self = own.0 a.0; target = target.0 b.0; olds = olds.0 b.1 },
      λ l. outer.1 (own.1 l.not_self, inner.1 (target.1 l.target, olds.1 l.olds)),
    )

links_iff :
    (events es : List MemoryEvent) → (links_findings events es ≡ []) ↔ All (IsLinked events) es
unfolding links_findings
links_iff events [] = (λ h. tt, λ h. refl)
links_iff events (e ∷ es) =
    let both = append-eq-nil (link_findings events e) (links_findings events es) in
    let here = link_iff events e in
    let rest = links_iff events es in
    (λ h. (here.0 (both.0 h).0, rest.0 (both.0 h).1), λ h. both.1 (here.1 h.0, rest.1 h.1))

-- The supersession audit finds nothing exactly when no memory supersedes itself, each pointer to a
-- superseding memory leads to a memory, and each memory that one names as superseded is there and
-- points back to it.
pub audit_supersession-eq-nil_iff :
    (events : List MemoryEvent) → (audit_supersession events ≡ []) ↔ All (IsLinked events) events
unfolding audit_supersession
audit_supersession-eq-nil_iff events = links_iff events events
