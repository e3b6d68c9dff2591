-- ===== src/Reconciliation/Plan/Steps.antt =====
-- What the plan of one group is.
use mathlib.Core.Path.{subst}
use memory_system.Shared.{
  All, sym, ℕ, ◌≡◌, inl, inr, refl, ap, String, Bool, true, false, ◌&&◌, Option, none, some, List,
  [], ◌∷◌, ◌++◌, map, if◌then◌else◌,
}
use memory_system.Shared.Exec.{Result, ok, err}
use memory_system.Consolidation.Double.{Double}
use memory_system.Reconciliation.Candidate.{
  ReconciliationAction, create_action, merge_action, supersede_action, conflict_action, skip_action,
  MemoryNodeSnapshot, CandidatePlanInput, CreateKind, supersede_new, conflict_new,
  PlannedExistingMemoryUpdate, PlannedMemoryCreate, PlanError, reconciliation_plan_conflict,
}
use memory_system.Reconciliation.Groups.{Group, and_then}
use memory_system.Reconciliation.Choice.{
  same_action, all_do, members, find_target, resolve_merge_merged_content, importance_for_type,
  merge_confidence,
}
use memory_system.Reconciliation.Plan.Wanted.{IsReplacement, Keeps, IsUpdate}
use memory_system.Reconciliation.Plan.Parts.{In-last, append-nil, find_target-IsRecalled}
use memory_system.Reconciliation.Plan.{
  group_confidence, planned_update, planned_replacement, merged_plans, replaced_plans, Plans,
  with_update, plan_merge, plan_replacement, plan_found, is_replacing, is_several, plan_existing,
}

-- What a computation of two steps says of the first.
pub and_then-ok :
    {A B : Type 0} (r : Result PlanError A) (f : A → Result PlanError B) (b : B)
    → and_then r f ≡ ok b
    → (a : A) × (r ≡ ok a) × (f a ≡ ok b)
and_then-ok (ok a) f b e = (a, refl, e)
and_then-ok (err x) f b e = absurd (cc)

same_action-eq : (a b : ReconciliationAction) → same_action a b ≡ true → b ≡ a
unfolding same_action
same_action-eq create_action create_action e = refl
same_action-eq merge_action merge_action e = refl
same_action-eq supersede_action supersede_action e = refl
same_action-eq conflict_action conflict_action e = refl
same_action-eq skip_action skip_action e = refl
same_action-eq a b e = absurd (cc)

both-true : (a b : Bool) → (a && b) ≡ true → (a ≡ true) × (b ≡ true)
both-true true true e = (refl, refl)
both-true true false e = absurd (cc)
both-true false b e = absurd (cc)

all_do-All :
    {W : Type 0} (a : ReconciliationAction) (cs : List (CandidatePlanInput W))
    → all_do a cs ≡ true
    → All (λ c. c.action ≡ a) cs
unfolding all_do
all_do-All a [] e = tt
all_do-All a (c ∷ cs) e =
    let (x, y) = both-true (same_action a c.action) (all_do a cs) e in
    (same_action-eq a c.action x, all_do-All a cs y)

module _ {W : Type 0} (double : Double W) (normalize : String → String)
    (memory_id_factory : ℕ → String) where
  abbrev pub P : Type 0
  P = Plans double normalize memory_id_factory

  -- One more update, and perhaps one more memory.
  abbrev pub Steps : Group W → P → P → Type 0
  Steps g p q =
      (u : PlannedExistingMemoryUpdate W) × (ds : List (PlannedMemoryCreate W)) × (q.updates
        ≡ p.updates ++ (u ∷ []))
      × (q.creates ≡ p.creates ++ ds)
      × IsUpdate q.creates g u

  pub ok-inj : (a b : P) (r : Result PlanError P) → r ≡ ok a → r ≡ ok b → a ≡ b
  ok-inj a b r e h = cc

  merge-Steps :
      (g : Group W) (m : MemoryNodeSnapshot W) (p q : P)
      → all_do g.first.action g.rest ≡ true
      → find_target g.key (members g) ≡ some m
      → g.first.action ≡ merge_action
      → plan_merge double normalize memory_id_factory g m p ≡ ok q
      → Steps g p q
  unfolding plan_merge planned_update
  merge-Steps g m p q d f a e =
      let (content, x, y) =
        and_then-ok (resolve_merge_merged_content double normalize (members g))
          (λ c. ok (merged_plans double normalize memory_id_factory g m p c)) q e in
      subst (Steps g p)
        (ok-inj (merged_plans double normalize memory_id_factory g m p content) q _ refl y)
        (
          planned_update double normalize memory_id_factory g content
              (some (
                merge_confidence double normalize m.confidence
                  (group_confidence double normalize memory_id_factory g)))
              none,
          [],
          refl,
          append-nil p.creates,
          (
            refl,
            refl,
            refl,
            all_do-All g.first.action g.rest d,
            (m, find_target-IsRecalled g.key (members g) m f),
            inl (subst Keeps (sym a) tt, refl),
          ),
        )

  one_index :
      (g : Group W)
      → g.rest ≡ []
      → map (λ c. c.candidate_index) (members g) ≡ g.first.candidate_index ∷ []
  one_index g e = ap (λ l. g.first.candidate_index ∷ map (λ c. c.candidate_index) l) e

  supersede_made :
      (g : Group W) (id : String) (w : W)
      → g.rest ≡ []
      → IsReplacement supersede_action g id
          (planned_replacement double normalize memory_id_factory g supersede_new id w)
  unfolding planned_replacement
  supersede_made g id w e =
      (refl, refl, refl, (refl, refl, refl, refl, refl, refl, refl, refl, refl, one_index g e))

  conflict_made :
      (g : Group W) (id : String) (w : W)
      → g.rest ≡ []
      → IsReplacement conflict_action g id
          (planned_replacement double normalize memory_id_factory g conflict_new id w)
  unfolding planned_replacement
  conflict_made g id w e =
      (refl, refl, refl, (refl, refl, refl, refl, refl, refl, refl, refl, refl, one_index g e))

  replacement-Steps :
      (g : Group W) (m : MemoryNodeSnapshot W) (kind : CreateKind) (p q : P)
      → all_do g.first.action g.rest ≡ true
      → find_target g.key (members g) ≡ some m
      → g.rest ≡ []
      → ((id : String) (w : W)
          → IsReplacement g.first.action g id
              (planned_replacement double normalize memory_id_factory g kind id w))
      → plan_replacement double normalize memory_id_factory g kind p ≡ ok q
      → Steps g p q
  unfolding plan_replacement planned_update
  replacement-Steps g m kind p q d f n r e =
      let (w, x, y) =
        and_then-ok (importance_for_type double normalize g.first.memory_type)
          (λ c. ok (replaced_plans double normalize memory_id_factory g kind p c)) q e in
      let id = memory_id_factory p.taken in
      let new = planned_replacement double normalize memory_id_factory g kind id w in
      subst (Steps g p)
        (ok-inj (replaced_plans double normalize memory_id_factory g kind p w) q _ refl y)
        (
          planned_update double normalize memory_id_factory g none none (some id),
          new ∷ [],
          refl,
          refl,
          (
            refl,
            refl,
            refl,
            all_do-All g.first.action g.rest d,
            (m, find_target-IsRecalled g.key (members g) m f),
            inr (id, new, n, refl, In-last new p.creates, r id w),
          ),
        )

  other-Steps :
      (g : Group W) (m : MemoryNodeSnapshot W) (p q : P)
      → all_do g.first.action g.rest ≡ true
      → find_target g.key (members g) ≡ some m
      → Keeps g.first.action
      → with_update double normalize memory_id_factory p
          (planned_update double normalize memory_id_factory g none none none)
        ≡ q
      → Steps g p q
  unfolding planned_update
  other-Steps g m p q d f a e = subst (Steps g p) e (
    planned_update double normalize memory_id_factory g none none none,
    [],
    refl,
    append-nil p.creates,
    (
      refl,
      refl,
      refl,
      all_do-All g.first.action g.rest d,
      (m, find_target-IsRecalled g.key (members g) m f),
      inl (a, refl),
    ),
  )

  none_left :
      (b : Bool) (cs : List (CandidatePlanInput W))
      → b ≡ true
      → (b && is_several double normalize memory_id_factory cs) ≡ false
      → cs ≡ []
  none_left true [] e h = refl
  none_left true (c ∷ cs) e h = absurd (cc)
  none_left false cs e h = absurd (cc)

  found-Steps :
      (g : Group W) (o : Option (MemoryNodeSnapshot W)) (a : ReconciliationAction) (p q : P)
      → all_do g.first.action g.rest ≡ true
      → find_target g.key (members g) ≡ o
      → g.first.action ≡ a
      → (is_replacing double normalize memory_id_factory a
          && is_several double normalize memory_id_factory g.rest)
        ≡ false
      → plan_found double normalize memory_id_factory g o a p ≡ ok q
      → Steps g p q
  unfolding plan_found
  found-Steps g none a p q d f k n e = absurd (cc)
  found-Steps g (some m) merge_action p q d f k n e = merge-Steps g m p q d f k e
  found-Steps g (some m) supersede_action p q d f k n e =
      replacement-Steps g m supersede_new p q d f (none_left true g.rest refl n)
        (λ id w.
          subst
            (λ x.
              IsReplacement x g id
                (planned_replacement double normalize memory_id_factory g supersede_new id w))
            (sym k) (supersede_made g id w (none_left true g.rest refl n)))
        e
  found-Steps g (some m) conflict_action p q d f k n e =
      replacement-Steps g m conflict_new p q d f (none_left true g.rest refl n)
        (λ id w.
          subst
            (λ x.
              IsReplacement x g id
                (planned_replacement double normalize memory_id_factory g conflict_new id w))
            (sym k) (conflict_made g id w (none_left true g.rest refl n)))
        e
  found-Steps g (some m) create_action p q d f k n e =
      other-Steps g m p q d f (subst Keeps (sym k) tt) (ok-inj _ q _ refl e)
  found-Steps g (some m) skip_action p q d f k n e =
      other-Steps g m p q d f (subst Keeps (sym k) tt) (ok-inj _ q _ refl e)

  pub existing-Steps :
      (g : Group W) (p q : P)
      → plan_existing double normalize memory_id_factory g p ≡ ok q
      → Steps g p q
  unfolding plan_existing
  existing-Steps g p q e =
      at (all_do g.first.action g.rest) refl
        (is_replacing double normalize memory_id_factory g.first.action
          && is_several double normalize memory_id_factory g.rest)
        refl e
    where
      at :
          (b : Bool)
          → all_do g.first.action g.rest ≡ b
          → (c : Bool)
          → (is_replacing double normalize memory_id_factory g.first.action
              && is_several double normalize memory_id_factory g.rest)
            ≡ c
          → (if b
              then (if c
                  then err reconciliation_plan_conflict
                  else plan_found double normalize memory_id_factory g
                      (find_target g.key (members g))
                      g.first.action
                      p)
              else err reconciliation_plan_conflict)
            ≡ ok q
          → Steps g p q
      at true d false n e = found-Steps g _ _ p q d refl refl n e
      at true d true n e = absurd (cc)
      at false d c n e = absurd (cc)
