-- ===== src/Stm/Message.antt =====
-- src/memory_system/domain/models/working_memory.py: the messages of a session, and their tokens.
use memory_system.Shared.{ℕ, ◌+◌, ◌≡◌, String, List, [], ◌∷◌, ◌++◌, arith}

pub data MessageRole : Type 0 where
  user assistant : MessageRole

pub record WorkingMemoryMessage : Type 0 where
  pub message_id : String
  pub role : MessageRole
  pub content : String
  pub estimated_tokens : ℕ
  pub timestamp : ℕ

-- sum(message.estimated_tokens for message in messages)
abbrev pub total : List WorkingMemoryMessage → ℕ
total [] = 0
total (m ∷ ms) = m.estimated_tokens + total ms

pub total-append : (xs ys : List WorkingMemoryMessage) → total (xs ++ ys) ≡ total xs + total ys
total-append [] ys = omega arith
total-append (x ∷ xs) ys = omega (arith, total-append xs ys)
