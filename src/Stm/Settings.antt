-- ===== src/Stm/Settings.antt =====
-- `ContextSettings` of src/memory_system/settings/models.py: the limits of the short-term memory.
use memory_system.Shared.{ℕ}

pub record ContextSettings : Type 0 where
  pub compression_trigger_tokens : ℕ
  pub compression_target_tokens : ℕ
  pub preferred_recent_messages : ℕ
  pub absolute_min_recent_messages : ℕ
  pub max_compressed_context_estimated_tokens : ℕ
  pub max_compression_rounds_per_request : ℕ
  pub max_message_estimated_tokens : ℕ
  pub max_working_memory_estimated_tokens : ℕ
  pub max_archive_estimated_tokens : ℕ
  pub allowed_future_timestamp_skew_seconds : ℕ
  pub compression_llm_timeout_seconds : ℕ
  pub compression_lock_ttl_seconds : ℕ
  pub safety_margin_seconds : ℕ
