-- ===== src/Reconciliation/Plan/Laws.antt =====
-- What a plan does with the groups of its candidates.
use memory_system.Shared.{ℕ, ◌≡◌, String, List, ◌++◌, map}
use memory_system.Consolidation.Double.{Double}
use memory_system.Reconciliation.Candidate.{
  CandidatePlanInput, PlannedExistingMemoryUpdate, PlannedMemoryCreate, ReconciliationSuccess,
}
use memory_system.Reconciliation.Groups.{Group, Groups}
use memory_system.Reconciliation.Groups.Split.{IsGrouping}
use memory_system.Reconciliation.Choice.{decision}
use memory_system.Reconciliation.Plan.Parts.{Paired}
use memory_system.Reconciliation.Plan.Wanted.{IsUpdate, IsCreate}
use memory_system.Reconciliation.Plan.Steps.{P}

module _ {W : Type 0} (double : Double W) (normalize : String → String)
    (memory_id_factory : ℕ → String) where
  -- The updates of some groups, and more memories.
  abbrev Plannings :
      List (Group W)
      → P double normalize memory_id_factory
      → P double normalize memory_id_factory
      → Type 0
  Plannings gs p q =
      (us : List (PlannedExistingMemoryUpdate W)) × (ds : List (PlannedMemoryCreate W)) × (q.updates
        ≡ p.updates ++ us)
      × (q.creates ≡ p.creates ++ ds)
      × Paired (IsUpdate q.creates) gs us

  abbrev Creations :
      List (Group W)
      → P double normalize memory_id_factory
      → P double normalize memory_id_factory
      → Type 0
  Creations gs p q =
      (cs : List (PlannedMemoryCreate W)) × (q.updates ≡ p.updates)
      × (q.creates ≡ p.creates ++ cs)
      × Paired (IsCreate) gs cs

  -- A plan of some candidates.
  abbrev pub IsPlan : List (CandidatePlanInput W) → ReconciliationSuccess W → Type 0
  IsPlan candidates s =
      (gs : Groups W) × (news created : List (PlannedMemoryCreate W)) × IsGrouping candidates gs
      × (s.per_candidate_decisions ≡ map decision candidates)
      × Paired (IsUpdate s.new_memory_create_plans) gs.existing s.existing_memory_update_plans
      × (s.new_memory_create_plans ≡ news ++ created)
      × Paired (IsCreate) gs.creates created
