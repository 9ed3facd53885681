-- ===== src/Api/Maintain/Deletions.antt =====
-- The loops of a maintenance run over the actions of its plan.
use tree_ring_memory.Prelude.{
  String, ◌≡◌, refl, sym, ap, ◌∙◌, ◌⊎◌, inl, inr, Bool, true, false, ◌&&◌, none, List, [], ◌∷◌, map,
  ◌==◌, eq_refl, if◌then◌else◌, Bool-cases, All, ok-injective, >>=-eq-ok, ok,
}
use tree_ring_memory.Event.{MemoryEvent}
use tree_ring_memory.Externals.{Externals}
use tree_ring_memory.Store.{Store, find_memory}
use tree_ring_memory.Store.Tables.{find-delete}
use tree_ring_memory.Store.Write.{redact_in_transaction, delete_in_transaction}
use tree_ring_memory.Maintenance.{MaintenanceAction, MaintenanceActionType}
use tree_ring_memory.Api.Maintain.{
  apply_deletions, is_redaction, is_deletion, mark, apply_redactions,
}

-- What an action does, and to which memory.
abbrev pub key : MaintenanceAction → MaintenanceActionType × String
key a = (a.action_type, a.memory_id)

key-mark : (b : Bool) (a : MaintenanceAction) → key (mark b a) ≡ key a
unfolding mark
key-mark true a = refl
key-mark false a = refl

-- An action that is a deletion names no row of the table.
abbrev pub IsGone : List MemoryEvent → MaintenanceAction → Type 0
IsGone memories a = (is_deletion a.action_type ≡ false) ⊎ (find_memory a.memory_id memories ≡ none)

module _ (env : Externals) where
  pub keys-redactions :
      (apply : Bool) (now : String) (actions : List MaintenanceAction) (s : Store) {s' : Store}
      {marked : List MaintenanceAction}
      → apply_redactions env apply now actions s ≡ ok (s', marked)
      → map key marked ≡ map key actions
  unfolding apply_redactions
  keys-redactions apply now [] s {s'} {marked} h =
      ap (λ (p : Store × List MaintenanceAction). map key p.1) (sym (ok-injective h))
  keys-redactions apply now (a ∷ rest) s {s'} {marked} h =
      let (r, step, more) =
        >>=-eq-ok
          (if is_redaction a.action_type && apply
            then redact_in_transaction env s now a.memory_id
            else ok (s, false))
          _ h in
      let (r', steps, end) = >>=-eq-ok (apply_redactions env apply now rest r.0) _ more in
      ap (λ (p : Store × List MaintenanceAction). map key p.1) (sym (ok-injective end))
      ∙ cc (key-mark r.1 a, keys-redactions apply now rest r.0 steps)

  pub keys-deletions :
      (apply : Bool) (actions : List MaintenanceAction) (s : Store)
      → map key (apply_deletions env apply actions s).1 ≡ map key actions
  unfolding apply_deletions
  keys-deletions apply [] s = refl
  keys-deletions apply (a ∷ rest) s =
      let step =
        if is_deletion a.action_type && apply
        then delete_in_transaction env s a.memory_id
        else (s, false) in
      cc (key-mark step.1 a, keys-deletions apply rest step.0)

  none-delete :
      (s : Store) (id other : String)
      → find_memory id s.memories ≡ none
      → find_memory id (delete_in_transaction env s other).0.memories ≡ none
  unfolding delete_in_transaction
  none-delete s id other h =
      rw (find-delete other id s.memories)
        (elim (Bool-cases (other == id)) [ inl p ↦ rw p refl | inr p ↦ rw p h ])

  none-deletions :
      (apply : Bool) (actions : List MaintenanceAction) (s : Store) (id : String)
      → find_memory id s.memories ≡ none
      → find_memory id (apply_deletions env apply actions s).0.memories ≡ none
  unfolding apply_deletions
  none-deletions apply [] s id h = h
  none-deletions apply (a ∷ rest) s id h = elim (Bool-cases (is_deletion a.action_type && apply)) [
    | inl on ↦ rw on (
        none-deletions apply rest (delete_in_transaction env s a.memory_id).0 id
          (none-delete s id a.memory_id h))
    | inr off ↦ rw off (none-deletions apply rest s id h)
  ]

  deleted-gone :
      (s : Store) (id : String) → find_memory id (delete_in_transaction env s id).0.memories ≡ none
  unfolding delete_in_transaction
  deleted-gone s id = rw (find-delete id id s.memories) (rw (eq_refl id) refl)

  mark-IsGone :
      (b : Bool) (a : MaintenanceAction) (memories : List MemoryEvent)
      → IsGone memories a
      → IsGone memories (mark b a)
  unfolding mark
  mark-IsGone true a memories g = g
  mark-IsGone false a memories g = g

  stays-IsGone :
      (actions : List MaintenanceAction) (t : Store) (a : MaintenanceAction)
      → IsGone t.memories a
      → IsGone (apply_deletions env true actions t).0.memories a
  stays-IsGone actions t a (inl other) = inl other
  stays-IsGone actions t a (inr gone) = inr (none-deletions true actions t a.memory_id gone)

  step-IsGone :
      (a : MaintenanceAction) (s : Store) (b : Bool)
      → is_deletion a.action_type ≡ b
      → IsGone
          (if b && true then delete_in_transaction env s a.memory_id else (s, false)).0.memories
          a
  step-IsGone a s true h = inr (deleted-gone s a.memory_id)
  step-IsGone a s false h = inl h

  pub deletions-IsGone :
      (actions : List MaintenanceAction) (s : Store)
      → All
          (IsGone (apply_deletions env true actions s).0.memories)
          (apply_deletions env true actions s).1
  unfolding apply_deletions
  deletions-IsGone [] s = tt
  deletions-IsGone (a ∷ rest) s =
      let step : Store × Bool =
        if is_deletion a.action_type && true
        then delete_in_transaction env s a.memory_id
        else (s, false) in
      (
        mark-IsGone step.1 a _
            (stays-IsGone rest step.0 a (step-IsGone a s (is_deletion a.action_type) refl)),
        deletions-IsGone rest step.0,
      )
