-- ===== src/Extraction/World.antt =====
-- The running service around one worker: the collection, what other workers do to it between two
-- calls, the faults of the connection, the clock and the uuid generator.
use memory_system.Shared.{ℕ, ◌+◌, String, Option, none, some}
use memory_system.Shared.Exec.{Result, ok, err, Exec}
use memory_system.Extraction.Collection.{Collection}

-- What pymongo raises: `DuplicateKeyError`, or anything else.
pub data Fault : Type 0 where
  duplicate_key unavailable : Fault

pub data Error : Type 0 where
  mongo_error : Fault → Error
  missing_after_upsert task_vanished unexpected_status : Error
  mark_completed_failed mark_failed_failed admin_mark_failed_failed : Error
  terminal_persist_error pipeline_error : Error
  task_not_found retry_not_allowed infrastructure_error : Error

-- `tick` counts the calls to MongoDB. Between two calls other workers may have changed the
-- collection: `others n` is what they did before the n-th call.
pub record Deployment : Type 1 where
  pub collection : Collection
  pub others : ℕ → collection.Db → collection.Db
  pub fault : ℕ → Option Fault
  pub clock : ℕ → ℕ
  pub uuid : ℕ → String

pub record World (Db : Type 0) : Type 0 where
  pub db : Db
  pub tick : ℕ

abbrev pub Action : Deployment → Type 0 → Type 0
Action d A = Exec (World d.collection.Db) Error A

module _ (d : Deployment) where
  abbrev pub reply :
      {A : Type 0}
      → Option Fault
      → ℕ
      → d.collection.Db
      → A × d.collection.Db
      → Result Error A × World d.collection.Db
  reply (some e) n old new = (err (mongo_error e), record { db = old; tick = n + 1 })
  reply none n old (a, new) = (ok a, record { db = new; tick = n + 1 })

  -- One call to MongoDB. A call that raises leaves the collection alone: a write that reached the
  -- server although its reply was lost is counted among what the others do before the next call.
  unfoldable pub call : {A : Type 0} → (d.collection.Db → A × d.collection.Db) → Action d A
  call op w = let db = d.others w.tick w.db in reply (d.fault w.tick) w.tick db (op db)

  -- clock()
  abbrev pub now : World d.collection.Db → ℕ
  now w = d.clock w.tick
