-- ===== src/Reconciliation/Plan/Wanted.antt =====
-- What the updates and the new memories of a plan have to be.
use memory_system.Shared.{All, ◌≡◌, ◌⊎◌, String, none, some, List, [], ◌∷◌, map}
use memory_system.Reconciliation.Candidate.{
  ReconciliationAction, supersede_action, conflict_action, MemoryNodeSnapshot, plain_create,
  supersede_new, conflict_new, PlannedExistingMemoryUpdate, PlannedMemoryCreate,
}
use memory_system.Reconciliation.Groups.{Group}
use memory_system.Reconciliation.Choice.{members}
use memory_system.Reconciliation.Plan.Parts.{In, IsRecalled}

-- An action that does not replace its target.
abbrev pub Keeps : ReconciliationAction → Type 0
Keeps supersede_action = ⊥
Keeps conflict_action = ⊥
Keeps a = Unit

module _ {W : Type 0} where
  -- The memory that a candidate plans under an id: its content and its facts, no aligned key, and the
  -- target that it supersedes or conflicts with, as its action says.
  abbrev pub IsMemoryOf : Group W → String → PlannedMemoryCreate W → Type 0
  IsMemoryOf g id c =
      (c.planned_memory_id ≡ id)
      × (c.aligned_memory_key ≡ none)
      × (c.memory_type ≡ g.first.memory_type)
      × (c.planned_content ≡ g.first.content)
      × (c.subject_entity_id ≡ g.first.subject_entity_id)
      × (c.predicate ≡ g.first.predicate)
      × (c.object_entity_id ≡ g.first.object_entity_id)
      × (c.object_value ≡ g.first.object_value)
      × (c.planned_latest_source_time ≡ g.first.candidate_source_time)
      × (c.contributing_candidate_indices ≡ g.first.candidate_index ∷ [])

  abbrev pub IsReplacement :
      ReconciliationAction → Group W → String → PlannedMemoryCreate W → Type 0
  IsReplacement supersede_action g id c =
      (c.create_kind ≡ supersede_new)
      × (c.supersedes_target_memory_id ≡ some g.key)
      × (c.conflicts_with_target_memory_id ≡ none)
      × IsMemoryOf g id c
  IsReplacement conflict_action g id c =
      (c.create_kind ≡ conflict_new)
      × (c.supersedes_target_memory_id ≡ none)
      × (c.conflicts_with_target_memory_id ≡ some g.key)
      × IsMemoryOf g id c
  IsReplacement a g id c = ⊥

  -- A group that supersedes or conflicts has one candidate, and its new memory is created.
  abbrev pub IsReplacing :
      Group W → PlannedExistingMemoryUpdate W → List (PlannedMemoryCreate W) → Type 0
  IsReplacing g u cs =
      (id : String) × (c : PlannedMemoryCreate W) × (g.rest ≡ [])
      × (u.planned_new_memory_id ≡ some id)
      × In c cs
      × IsReplacement g.first.action g id c

  -- The update of a group.
  abbrev pub IsUpdate :
      List (PlannedMemoryCreate W) → Group W → PlannedExistingMemoryUpdate W → Type 0
  IsUpdate cs g u =
      (u.target_memory_id ≡ g.key)
      × (u.aggregated_action ≡ g.first.action)
      × (u.contributing_candidate_indices ≡ map (λ c. c.candidate_index) (members g))
      × All (λ c. c.action ≡ g.first.action) g.rest
      × ((m : MemoryNodeSnapshot W) × IsRecalled g.key m (members g))
      × (Keeps g.first.action × (u.planned_new_memory_id ≡ none) ⊎ IsReplacing g u cs)

  abbrev pub IsCreate : Group W → PlannedMemoryCreate W → Type 0
  IsCreate g c =
      (c.create_kind ≡ plain_create)
      × (c.aligned_memory_key ≡ some g.key)
      × (c.contributing_candidate_indices ≡ map (λ x. x.candidate_index) (members g))
