-- ===== src/Reconciliation/Groups/Refused.antt =====
-- When the candidates cannot be grouped.
use memory_system.Shared.{
  ◌≡◌, ◌≢◌, ◌↔◌, ◌⊎◌, inl, inr, refl, String, Bool, true, false, Option, none, some, List, [], ◌∷◌,
  if◌then◌else◌,
}
use memory_system.Shared.Exec.{Result, ok, err}
use memory_system.Reconciliation.Candidate.{
  ReconciliationAction, create_action, merge_action, supersede_action, conflict_action, skip_action,
  CandidatePlanInput, PlanError, reconciliation_plan_conflict,
}
use memory_system.Reconciliation.Groups.{
  Groups, participates_in_aggregation, add_create, add_existing, add_by, add_candidate, and_then,
  group_candidates,
}

module _ {W : Type 0} where
  abbrev pub Some : (CandidatePlanInput W → Type 0) → List (CandidatePlanInput W) → Type 0
  Some P [] = ⊥
  Some P (c ∷ cs) = P c ⊎ Some P cs

  -- A candidate that takes part but has no aligned key to create under, or no target.
  abbrev pub IsUnplaced : CandidatePlanInput W → Type 0
  IsUnplaced c =
      (participates_in_aggregation c ≡ true)
      × (((c.action ≡ create_action) × (c.aligned_memory_key ≡ none))
          ⊎ ((c.action ≢ create_action) × (c.target_memory_id ≡ none)))

  -- Whether a step refuses the candidate, and why.
  abbrev Placed : CandidatePlanInput W → Result PlanError (Groups W) → Type 0
  Placed c (ok g) = IsUnplaced c → ⊥
  Placed c (err e) = IsUnplaced c × (e ≡ reconciliation_plan_conflict)

  create-Placed :
      (gs : Groups W) (c : CandidatePlanInput W) (o : Option String)
      → participates_in_aggregation c ≡ true
      → c.action ≡ create_action
      → c.aligned_memory_key ≡ o
      → Placed c (add_create gs c o)
  unfolding add_create
  create-Placed gs c none p a k = ((p, inl (a, k)), refl)
  create-Placed gs c (some key) p a k = at
    where
      at : IsUnplaced c → ⊥
      at (q, inl (b, n)) = absurd (cc)
      at (q, inr (b, n)) = b a

  existing-Placed :
      (gs : Groups W) (c : CandidatePlanInput W) (o : Option String)
      → participates_in_aggregation c ≡ true
      → c.action ≢ create_action
      → c.target_memory_id ≡ o
      → Placed c (add_existing gs c o)
  unfolding add_existing
  existing-Placed gs c none p a k = ((p, inr (a, k)), refl)
  existing-Placed gs c (some key) p a k = at
    where
      at : IsUnplaced c → ⊥
      at (q, inl (b, n)) = a b
      at (q, inr (b, n)) = absurd (cc)

  by-Placed :
      (gs : Groups W) (c : CandidatePlanInput W) (a : ReconciliationAction)
      → participates_in_aggregation c ≡ true
      → c.action ≡ a
      → Placed c (add_by gs c a)
  unfolding add_by
  by-Placed gs c create_action p e = create-Placed gs c _ p e refl
  by-Placed gs c merge_action p e = existing-Placed gs c _ p (λ x. absurd (cc)) refl
  by-Placed gs c supersede_action p e = existing-Placed gs c _ p (λ x. absurd (cc)) refl
  by-Placed gs c conflict_action p e = existing-Placed gs c _ p (λ x. absurd (cc)) refl
  by-Placed gs c skip_action p e = existing-Placed gs c _ p (λ x. absurd (cc)) refl

  step-Placed : (gs : Groups W) (c : CandidatePlanInput W) → Placed c (add_candidate gs c)
  unfolding add_candidate
  step-Placed gs c = at (participates_in_aggregation c) refl
    where
      at :
          (b : Bool)
          → participates_in_aggregation c ≡ b
          → Placed c (if b then add_by gs c c.action else ok gs)
      at true p = by-Placed gs c c.action p refl
      at false p = λ u. absurd (cc (u.0))

  -- Grouping is refused exactly when some candidate that takes part would create without an aligned
  -- key, or would change a memory without a target; the refusal is the plan conflict.
  pub group_candidates-refused :
      (cs : List (CandidatePlanInput W)) (gs : Groups W)
      → (group_candidates cs gs ≡ err reconciliation_plan_conflict) ↔ Some IsUnplaced cs
  unfolding group_candidates
  group_candidates-refused [] gs = ((λ e. absurd (cc)), λ u. absurd u)
  group_candidates-refused (c ∷ cs) gs =
      at (add_candidate gs c) (step-Placed gs c) (λ g. group_candidates-refused cs g)
    where
      at :
          (r : Result PlanError (Groups W))
          → Placed c r
          → ((g : Groups W)
              → (group_candidates cs g ≡ err reconciliation_plan_conflict) ↔ Some IsUnplaced cs)
          → (and_then r (group_candidates cs) ≡ err reconciliation_plan_conflict)
            ↔ (IsUnplaced c ⊎ Some IsUnplaced cs)
      at (err e) (u, q) rest = ((λ x. inl u), λ x. cc)
      at (ok g) n rest = ((λ x. inr ((rest g).0 x)), back)
        where
          back :
              IsUnplaced c ⊎ Some IsUnplaced cs
              → group_candidates cs g ≡ err reconciliation_plan_conflict
          back (inl u) = absurd (n u)
          back (inr h) = (rest g).1 h
