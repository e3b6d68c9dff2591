-- ===== src/Stm/Rounds/Answer.antt =====
-- What the coordination of compression answers, whatever its services do.
use memory_system.Shared.{
  ℕ, zero, suc, ◌+◌, ◌≡◌, ◌≤◌, ◌<◌, inl, inr, refl, Bool, true, false, ltb, Option, none, some,
  if◌then◌else◌, arith, String,
}
use memory_system.Shared.Exec.{Exec, pure}
use memory_system.Stm.Rounds.Raises.{
  EndsIn, Yields, Yields-pure, Yields-if, Yields-bind, calls, by_get_meta,
}
use memory_system.Stm.Meta.{WorkingMemoryMeta}
use memory_system.Stm.Settings.{ContextSettings}
use memory_system.Stm.Round.{
  RoundServices, CompressionStatus, not_triggered, completed, partial_completed, failed,
  skipped_lock, insufficient_messages, version_conflict,
}
use memory_system.Stm.Rounds.{
  CompressionCoordinationResult, finished, after_rounds, below_trigger, after_completed,
  after_round, run_round, rounds, aggregate_round_failure, limit_of, run_compression_coordination,
}
use memory_system.Stm.Rounds.Laws.{
  HasRounds, IsCoordinated, IsRoundStatus, aggregate-HasRounds, round-Rounded,
}

after_loop :
    (limit n : ℕ) (b : Bool)
    → n ≡ limit
    → IsCoordinated limit (if b then finished partial_completed n else finished completed n)
after_loop limit n true e = e
after_loop limit zero false e = (omega (arith, e), inr (omega (arith, e)))
after_loop limit (suc n) false e = (omega (arith, e), inl (omega arith))

before_round :
    (limit n : ℕ) (b : Bool)
    → ltb 0 n ≡ b
    → n ≤ limit
    → IsCoordinated limit (if b then finished completed n else finished not_triggered 0)
before_round limit n true e l = (l, inl (ground (arith, e)))
before_round limit n false e l = refl

module _ {S E : Type 0} (services : RoundServices S E) (context : ContextSettings)
    (session_id : String) where
  abbrev Coordinated : ℕ → Exec S E CompressionCoordinationResult → Type 0
  Coordinated limit m = Yields services (IsCoordinated limit) m

  concludes :
      (limit : ℕ) (r : CompressionCoordinationResult)
      → IsCoordinated limit r
      → Coordinated limit (pure r)
  concludes limit r h = Yields-pure r h

  after_rounds-IsCoordinated :
      (limit n : ℕ) (m : Option WorkingMemoryMeta)
      → n ≡ limit
      → IsCoordinated limit (after_rounds services context session_id n m)
  unfolding after_rounds
  after_rounds-IsCoordinated limit n none e = after_loop limit n false e
  after_rounds-IsCoordinated limit n (some m) e = after_loop limit n _ e

  after_completed-Coordinated :
      (limit n : ℕ) (next : Exec S E CompressionCoordinationResult) (m : Option WorkingMemoryMeta)
      → n < limit
      → Coordinated limit next
      → Coordinated limit (after_completed services context session_id next (n + 1) m)
  unfolding after_completed
  after_completed-Coordinated limit n next none l h = h
  after_completed-Coordinated limit n next (some m) l h =
      Yields-if _ _ _
        (concludes limit (finished completed (n + 1)) (omega (arith, l), inl (omega arith))) h

  stopped :
      (limit n : ℕ) (status : CompressionStatus)
      → n < limit
      → HasRounds limit status 0
      → Coordinated limit (pure (finished (aggregate_round_failure n status) n))
  stopped limit n status l h = concludes limit _ (aggregate-HasRounds limit n status l h)

  after_round-Coordinated :
      (limit n : ℕ) (next : ℕ → Exec S E CompressionCoordinationResult) (status : CompressionStatus)
      → n < limit
      → IsRoundStatus status
      → Coordinated limit (next (n + 1))
      → Coordinated limit (after_round services context session_id next n status)
  unfolding after_round
  after_round-Coordinated limit n next completed l i h =
      calls _ _ by_get_meta (λ m. after_completed-Coordinated limit n (next (n + 1)) m l h)
  after_round-Coordinated limit n next failed l i h = stopped limit n failed l (omega (arith, l))
  after_round-Coordinated limit n next skipped_lock l i h = stopped limit n skipped_lock l refl
  after_round-Coordinated limit n next insufficient_messages l i h =
      stopped limit n insufficient_messages l refl
  after_round-Coordinated limit n next version_conflict l i h =
      stopped limit n version_conflict l refl
  after_round-Coordinated limit n next not_triggered l i h = absurd i
  after_round-Coordinated limit n next partial_completed l i h = absurd i

  run_round-Coordinated :
      (limit n : ℕ) (next : ℕ → Exec S E CompressionCoordinationResult)
      (m : Option WorkingMemoryMeta)
      → n < limit
      → Coordinated limit (next (n + 1))
      → Coordinated limit (run_round services context session_id next n m)
  unfolding run_round below_trigger
  run_round-Coordinated limit n next none l h = stopped limit n failed l (omega (arith, l))
  run_round-Coordinated limit n next (some m) l h =
      Yields-if _ _ _ (concludes limit _ (before_round limit n (ltb 0 n) refl (omega (arith, l)))) (
        Yields-bind IsRoundStatus _ _ (round-Rounded services context session_id)
          (λ status i. after_round-Coordinated limit n next status l i h))

  rounds-Coordinated :
      (left n limit : ℕ)
      → n + left ≡ limit
      → Coordinated limit (rounds services context session_id left n)
  unfolding rounds
  rounds-Coordinated zero n limit e =
      calls _ _ by_get_meta
        (λ m. concludes limit _ (after_rounds-IsCoordinated limit n m (omega (arith, e))))
  rounds-Coordinated (suc left) n limit e = calls _ _ by_get_meta (λ m.
      run_round-Coordinated limit n _ m (omega (arith, e))
        (rounds-Coordinated left (n + 1) limit (omega (arith, e))))

-- Whatever the services of a round do, the coordination either raises an error that one of them
-- raises in some state (or the error of an index into an empty archive), or answers a status with
-- fitting rounds: not triggered, a lost lock, too few messages and a version conflict go with no
-- completed round; failure with fewer rounds than the limit; partial completion with exactly the
-- limit, so not when a request stops after fewer completed rounds for lack of messages; completion
-- with at most the limit, and with at least one round unless the limit is zero.
pub coordination-IsCoordinated :
    {S E : Type 0} (services : RoundServices S E) (context : ContextSettings) (session_id : String)
    (max_rounds : Option ℕ) (s : S)
    → EndsIn services
        (IsCoordinated (limit_of services context session_id max_rounds))
        (run_compression_coordination services context session_id max_rounds s).0
unfolding run_compression_coordination
coordination-IsCoordinated services context session_id max_rounds s =
    (rounds-Coordinated services context session_id
        (limit_of services context session_id max_rounds) 0
        (limit_of services context session_id max_rounds) (omega arith)).at
      s
