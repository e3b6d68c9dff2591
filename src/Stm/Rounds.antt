-- ===== src/Stm/Rounds.antt =====
-- `run_compression_coordination` of
-- src/memory_system/domain/services/compression_coordinator_service.py: the rounds of compression
-- that one request runs.
pub mod Raises
pub mod Laws
pub mod Answer
use memory_system.Shared.{ℕ, zero, suc, ◌+◌, ltb, leb, String, Option, none, some, if◌then◌else◌}
use memory_system.Shared.Exec.{Exec, pure, ◌>>=◌}
use memory_system.Stm.Meta.{WorkingMemoryMeta}
use memory_system.Stm.Settings.{ContextSettings}
use memory_system.Stm.Round.{
  RoundServices, CompressionStatus, not_triggered, completed, partial_completed, failed,
  run_single_compression_round,
}

pub record CompressionCoordinationResult : Type 0 where
  pub status : CompressionStatus
  pub rounds_completed : ℕ

unfoldable pub aggregate_round_failure : ℕ → CompressionStatus → CompressionStatus
aggregate_round_failure rounds_completed round_status =
    if ltb 0 rounds_completed then failed else round_status

abbrev pub finished : CompressionStatus → ℕ → CompressionCoordinationResult
finished status rounds_completed = record { status = status; rounds_completed = rounds_completed }

module _ {S E : Type 0} (services : RoundServices S E) (context : ContextSettings)
    (session_id : String) where
  -- After the loop.
  unfoldable pub after_rounds : ℕ → Option WorkingMemoryMeta → CompressionCoordinationResult
  after_rounds rounds_completed none = finished completed rounds_completed
  after_rounds rounds_completed (some meta) =
      if leb context.compression_trigger_tokens meta.estimated_tokens
      then finished partial_completed rounds_completed
      else finished completed rounds_completed

  -- Below the trigger before a round.
  unfoldable pub below_trigger : ℕ → CompressionCoordinationResult
  below_trigger rounds_completed =
      if ltb 0 rounds_completed
      then finished completed rounds_completed
      else finished not_triggered 0

  -- After a completed round, either the request is done or `next` goes on with the loop.
  unfoldable pub after_completed :
      Exec S E CompressionCoordinationResult
      → ℕ
      → Option WorkingMemoryMeta
      → Exec S E CompressionCoordinationResult
  after_completed next rounds_completed none = next
  after_completed next rounds_completed (some meta) =
      if ltb meta.estimated_tokens context.compression_trigger_tokens
      then pure (finished completed rounds_completed)
      else next

  unfoldable pub after_round :
      (ℕ → Exec S E CompressionCoordinationResult)
      → ℕ
      → CompressionStatus
      → Exec S E CompressionCoordinationResult
  after_round next rounds_completed completed = services.get_meta >>= λ meta_after.
      after_completed (next (rounds_completed + 1)) (rounds_completed + 1) meta_after
  after_round next rounds_completed round_status =
      pure (finished (aggregate_round_failure rounds_completed round_status) rounds_completed)

  unfoldable pub run_round :
      (ℕ → Exec S E CompressionCoordinationResult)
      → ℕ
      → Option WorkingMemoryMeta
      → Exec S E CompressionCoordinationResult
  run_round next rounds_completed none =
      pure (finished (aggregate_round_failure rounds_completed failed) rounds_completed)
  run_round next rounds_completed (some meta) =
      if ltb meta.estimated_tokens context.compression_trigger_tokens
      then pure (below_trigger rounds_completed)
      else run_single_compression_round services context session_id >>= λ round_status.
          after_round next rounds_completed round_status

  -- `left` rounds of the limit are still to run.
  unfoldable pub rounds : ℕ → ℕ → Exec S E CompressionCoordinationResult
  rounds zero rounds_completed =
      services.get_meta >>= λ meta_final. pure (after_rounds rounds_completed meta_final)
  rounds (suc left) rounds_completed =
      services.get_meta >>= λ meta. run_round (λ n. rounds left n) rounds_completed meta

  -- `max_rounds`, or the setting.
  unfoldable pub limit_of : Option ℕ → ℕ
  limit_of none = context.max_compression_rounds_per_request
  limit_of (some max_rounds) = max_rounds

  unfoldable pub run_compression_coordination : Option ℕ → Exec S E CompressionCoordinationResult
  run_compression_coordination max_rounds = rounds (limit_of max_rounds) 0
