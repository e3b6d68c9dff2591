-- ===== src/Reconciliation/Groups/Split.antt =====
-- How the candidates are divided into groups.
use mathlib.Core.Path.{subst}
use memory_system.Shared.{
  ◌+◌, ◌≡◌, ◌≢◌, refl, String, Bool, true, false, Option, none, some, List, [], ◌∷◌, All, arith,
  if◌then◌else◌,
}
use memory_system.Shared.Exec.{Result, ok, err}
use memory_system.Reconciliation.Candidate.{
  ReconciliationAction, create_action, merge_action, supersede_action, conflict_action, skip_action,
  CandidatePlanInput, PlanError,
}
use memory_system.Reconciliation.Groups.{
  Groups, participates_in_aggregation, add_create, add_existing, add_by, add_candidate, and_then,
  group_candidates, no_groups,
}
use memory_system.Reconciliation.Groups.Append.{
  one_if, count, count_in, aggregating, IsDistinct, Targets, Creates, Fits, append-count,
  append-Fits, append-IsDistinct,
}

module _ {W : Type 0} where
  -- What the groups of some candidates are.
  abbrev pub IsGrouping : List (CandidatePlanInput W) → Groups W → Type 0
  IsGrouping cs gs =
      ((p : CandidatePlanInput W → Bool)
        → count p (aggregating cs) ≡ count_in p gs.existing + count_in p gs.creates)
      × All (Fits Targets) gs.existing
      × All (Fits Creates) gs.creates
      × IsDistinct gs.existing
      × IsDistinct gs.creates

  -- The same, for groups that hold candidates before.
  abbrev Extends : List (CandidatePlanInput W) → Groups W → Groups W → Type 0
  Extends cs gs gs' =
      (p : CandidatePlanInput W → Bool)
      → count_in p gs'.existing + count_in p gs'.creates
        ≡ count_in p gs.existing + count_in p gs.creates + count p (aggregating cs)

  abbrev Sound : Groups W → Type 0
  Sound gs =
      All (Fits Targets) gs.existing
      × All (Fits Creates) gs.creates
      × IsDistinct gs.existing
      × IsDistinct gs.creates

  -- A step adds one candidate, or none.
  abbrev Adds : CandidatePlanInput W → Groups W → Groups W → Type 0
  Adds c gs gs' =
      Sound gs'
      × ((p : CandidatePlanInput W → Bool)
          → count_in p gs'.existing + count_in p gs'.creates
            ≡ count_in p gs.existing + count_in p gs.creates + one_if (p c))

  ok_inj : (a b : Groups W) (r : Result PlanError (Groups W)) → r ≡ ok a → r ≡ ok b → a ≡ b
  ok_inj a b r e h = cc

  create-Adds :
      (gs gs' : Groups W) (c : CandidatePlanInput W) (o : Option String)
      → Sound gs
      → participates_in_aggregation c ≡ true
      → c.action ≡ create_action
      → c.aligned_memory_key ≡ o
      → add_create gs c o ≡ ok gs'
      → Adds c gs gs'
  unfolding add_create
  create-Adds gs gs' c none h q a k e = absurd (cc)
  create-Adds gs gs' c (some key) (x, y, u, v) q a k e = subst (Adds c gs) (ok_inj _ gs' _ refl e) (
    (x, append-Fits key c Creates gs.creates (a, k) q y, u, append-IsDistinct key c gs.creates v),
    λ p. omega (arith, append-count key c p gs.creates),
  )

  existing-Adds :
      (gs gs' : Groups W) (c : CandidatePlanInput W) (o : Option String)
      → Sound gs
      → participates_in_aggregation c ≡ true
      → c.action ≢ create_action
      → c.target_memory_id ≡ o
      → add_existing gs c o ≡ ok gs'
      → Adds c gs gs'
  unfolding add_existing
  existing-Adds gs gs' c none h q a k e = absurd (cc)
  existing-Adds gs gs' c (some key) (x, y, u, v) q a k e =
      subst (Adds c gs) (ok_inj _ gs' _ refl e) (
        (
          append-Fits key c Targets gs.existing (a, k) q x,
          y,
          append-IsDistinct key c gs.existing u,
          v,
        ),
        λ p. omega (arith, append-count key c p gs.existing),
      )

  by-Adds :
      (gs gs' : Groups W) (c : CandidatePlanInput W) (a : ReconciliationAction)
      → Sound gs
      → participates_in_aggregation c ≡ true
      → c.action ≡ a
      → add_by gs c a ≡ ok gs'
      → Adds c gs gs'
  unfolding add_by
  by-Adds gs gs' c create_action h q a e = create-Adds gs gs' c _ h q a refl e
  by-Adds gs gs' c merge_action h q a e = existing-Adds gs gs' c _ h q (λ x. absurd (cc)) refl e
  by-Adds gs gs' c supersede_action h q a e = existing-Adds gs gs' c _ h q (λ x. absurd (cc)) refl e
  by-Adds gs gs' c conflict_action h q a e = existing-Adds gs gs' c _ h q (λ x. absurd (cc)) refl e
  by-Adds gs gs' c skip_action h q a e = existing-Adds gs gs' c _ h q (λ x. absurd (cc)) refl e

  step-Extends :
      (gs gs' : Groups W) (c : CandidatePlanInput W)
      → Sound gs
      → add_candidate gs c ≡ ok gs'
      → Sound gs' × Extends (c ∷ []) gs gs'
  unfolding add_candidate
  step-Extends gs gs' c h e = at (participates_in_aggregation c) refl e
    where
      at :
          (b : Bool)
          → participates_in_aggregation c ≡ b
          → (if b then add_by gs c c.action else ok gs) ≡ ok gs'
          → Sound gs'
            × ((p : CandidatePlanInput W → Bool)
                → count_in p gs'.existing + count_in p gs'.creates
                  ≡ count_in p gs.existing
                    + count_in p gs.creates
                    + count p (if b then c ∷ [] else []))
      at true q e =
          let (s, n) = by-Adds gs gs' c c.action h q refl e in (s, λ p. omega (arith, n p))
      at false q e =
          subst
            (λ g.
              Sound g
              × ((p : CandidatePlanInput W → Bool)
                  → count_in p g.existing + count_in p g.creates
                    ≡ count_in p gs.existing + count_in p gs.creates + 0))
            (ok_inj gs gs' (ok gs) refl e) (h, λ p. omega arith)

  count-cons :
      (p : CandidatePlanInput W → Bool) (c : CandidatePlanInput W)
      (cs : List (CandidatePlanInput W))
      → count p (aggregating (c ∷ cs)) ≡ count p (aggregating (c ∷ [])) + count p (aggregating cs)
  count-cons p c cs = at (participates_in_aggregation c)
    where
      at :
          (b : Bool)
          → count p (if b then c ∷ aggregating cs else aggregating cs)
            ≡ count p (if b then c ∷ [] else []) + count p (aggregating cs)
      at true = omega arith
      at false = omega arith

  group-Extends :
      (cs : List (CandidatePlanInput W)) (gs gs' : Groups W)
      → Sound gs
      → group_candidates cs gs ≡ ok gs'
      → Sound gs' × Extends cs gs gs'
  unfolding group_candidates
  group-Extends [] gs gs' h e =
      subst (λ g. Sound g × Extends [] gs g) (ok_inj gs gs' (ok gs) refl e) (h, λ p. omega arith)
  group-Extends (c ∷ cs) gs gs' h e = at (add_candidate gs c) refl e (λ g. group-Extends cs g gs')
    where
      at :
          (r : Result PlanError (Groups W))
          → add_candidate gs c ≡ r
          → and_then r (group_candidates cs) ≡ ok gs'
          → ((g : Groups W)
              → Sound g
              → group_candidates cs g ≡ ok gs'
              → Sound gs' × Extends cs g gs')
          → Sound gs' × Extends (c ∷ cs) gs gs'
      at (err x) q e rest = absurd (cc)
      at (ok g) q e rest =
          let (s, m) = step-Extends gs g c h q in
          let (s', n) = rest g s e in (s', λ p. omega (arith, m p, n p, count-cons p c cs))

  -- When the candidates are grouped, the candidates that take part are exactly the members of the
  -- groups, each as often as before; a group of `existing` holds candidates for its key as their
  -- target that do not create, one of `creates` those that create under its key; and no two groups
  -- of a kind have the same key.
  pub group_candidates-IsGrouping :
      (cs : List (CandidatePlanInput W)) (gs : Groups W)
      → group_candidates cs no_groups ≡ ok gs
      → IsGrouping cs gs
  group_candidates-IsGrouping cs gs e =
      let ((x, y, u, v), n) = group-Extends cs no_groups gs (tt, tt, tt, tt) e in
      (λ p. omega (arith, n p), x, y, u, v)
