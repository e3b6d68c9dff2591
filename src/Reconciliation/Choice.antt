-- ===== src/Reconciliation/Choice.antt =====
-- What `build_reconciliation_plan` chooses and computes from the candidates of one group.
use memory_system.Shared.{
  String, Bool, true, false, not, ◌&&◌, Option, none, some, List, [], ◌∷◌, map, if◌then◌else◌,
  str_eq, str_ltb,
}
use memory_system.Shared.Int.{ℤ, max_int, int_ltb, int_eq}
use memory_system.Shared.Exec.{Result, ok, err}
use memory_system.Consolidation.Double.{Double}
use memory_system.Reconciliation.Candidate.{
  ReconciliationAction, create_action, merge_action, supersede_action, conflict_action, skip_action,
  MemoryNodeSnapshot, CandidatePlanInput, PerCandidateDecision, PlanError,
  reconciliation_plan_conflict, unknown_memory_type,
}
use memory_system.Reconciliation.Groups.{Group}

unfoldable pub same_action : ReconciliationAction → ReconciliationAction → Bool
same_action create_action create_action = true
same_action merge_action merge_action = true
same_action supersede_action supersede_action = true
same_action conflict_action conflict_action = true
same_action skip_action skip_action = true
same_action a b = false

-- The values that are present.
abbrev pub present : {A : Type 0} → List (Option A) → List A
present [] = []
present (none ∷ os) = present os
present (some a ∷ os) = a ∷ present os

-- len(set(xs)) == 1, for the rest of a list after its first element
unfoldable pub all_equal_to : String → List String → Bool
all_equal_to x [] = true
all_equal_to x (y ∷ ys) = str_eq x y && all_equal_to x ys

module _ {W : Type 0} where
  abbrev pub members : Group W → List (CandidatePlanInput W)
  members g = g.first ∷ g.rest

  unfoldable pub all_do : ReconciliationAction → List (CandidatePlanInput W) → Bool
  all_do a [] = true
  all_do a (c ∷ cs) = same_action a c.action && all_do a cs

  -- The first memory with the id.
  unfoldable pub memory_among : String → List (MemoryNodeSnapshot W) → Option (MemoryNodeSnapshot W)
  memory_among id [] = none
  memory_among id (m ∷ ms) = if str_eq m.memory_id id then some m else memory_among id ms

  abbrev pub or_else :
      Option (MemoryNodeSnapshot W) → Option (MemoryNodeSnapshot W) → Option (MemoryNodeSnapshot W)
  or_else none o = o
  or_else (some m) o = some m

  unfoldable pub find_target : String → List (CandidatePlanInput W) → Option (MemoryNodeSnapshot W)
  find_target id [] = none
  find_target id (c ∷ cs) = or_else (memory_among id c.recalled_memories) (find_target id cs)

  unfoldable pub latest_source_time : ℤ → List (CandidatePlanInput W) → ℤ
  latest_source_time t [] = t
  latest_source_time t (c ∷ cs) = latest_source_time (max_int t c.candidate_source_time) cs

  abbrev pub decision : CandidatePlanInput W → PerCandidateDecision
  decision c = record {
    candidate_index = c.candidate_index;
    candidate_fingerprint = c.candidate_fingerprint;
    evidence_id = c.evidence_id;
    action = c.action;
    target_memory_id = c.target_memory_id;
    reason_code = c.reason_code;
    skip_reason = c.skip_reason;
    merged_content = c.merged_content;
    recalled_memory_count = c.recalled_memory_count;
    aligned_memory_key = c.aligned_memory_key;
  }

module _ {W : Type 0} (double : Double W) (normalize : String → String) where
  unfoldable pub greatest_confidence : W → List (CandidatePlanInput W) → W
  greatest_confidence w [] = w
  greatest_confidence w (c ∷ cs) = greatest_confidence (double.max_of w c.confidence) cs

  -- min(1.0, old + (1.0 - old) * new * 0.25), rounded
  unfoldable pub merge_confidence : W → W → W
  merge_confidence old new = double.round4 (
      double.min_of double.one (
        double.plus old
          (double.times (double.times (double.minus double.one old) new) (double.hundredths 25))))

  unfoldable pub importance_for_type : String → Result PlanError W
  importance_for_type t =
      if str_eq t "profile"
      then ok (double.hundredths 75)
      else if str_eq t "fact"
      then ok (double.hundredths 70)
      else if str_eq t "preference"
      then ok (double.hundredths 65)
      else if str_eq t "event"
      then ok (double.hundredths 55)
      else err unknown_memory_type

  abbrev pub same_value : W → W → Bool
  same_value x y = double.le x y && double.le y x

  -- Whether the sort key (-confidence, -candidate_source_time, candidate_fingerprint) of the first
  -- candidate is less than that of the second.
  unfoldable pub precedes : CandidatePlanInput W → CandidatePlanInput W → Bool
  precedes c b =
      if same_value c.confidence b.confidence
      then (if int_eq c.candidate_source_time b.candidate_source_time
          then str_ltb c.candidate_fingerprint b.candidate_fingerprint
          else int_ltb b.candidate_source_time c.candidate_source_time)
      else (double.le b.confidence c.confidence && not (double.le c.confidence b.confidence))

  -- sorted(candidates, key=...)[0]
  unfoldable pub select_structural_representative :
      CandidatePlanInput W → List (CandidatePlanInput W) → CandidatePlanInput W
  select_structural_representative best [] = best
  select_structural_representative best (c ∷ cs) =
      select_structural_representative (if precedes c best then c else best) cs

  unfoldable pub select_create_content : Group W → String
  select_create_content g =
      if all_equal_to (normalize g.first.content) (map (λ c. normalize c.content) g.rest)
      then normalize g.first.content
      else (select_structural_representative g.first g.rest).content

  unfoldable pub merged_of : List String → Result PlanError (Option String)
  merged_of [] = ok none
  merged_of (x ∷ xs) = if all_equal_to x xs then ok (some x) else err reconciliation_plan_conflict

  abbrev pub normalized : Option String → Option String
  normalized none = none
  normalized (some s) = some (normalize s)

  unfoldable pub resolve_merge_merged_content :
      List (CandidatePlanInput W) → Result PlanError (Option String)
  resolve_merge_merged_content cs = merged_of (present (map (λ c. normalized c.merged_content) cs))
