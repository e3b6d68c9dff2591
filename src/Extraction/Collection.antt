-- ===== src/Extraction/Collection.antt =====
-- The MongoDB collection `memory_extraction_task` as the repository uses it, through pymongo. It is
-- not part of the repository, so it is a parameter: its operations, and what its documentation
-- says of them. `archive_id` carries a unique index, so an archive has at most one document.
use memory_system.Shared.{◌≡◌, String, Option, none, some, str_eq, if◌then◌else◌}
use memory_system.Extraction.Task.{Task, Filter, Update, matches, apply}

abbrev pub by_archive : String → Filter
by_archive a = record { archive_id = a; user_id = none; statuses = none }

-- The document of an archive, if the filter lets it through.
abbrev pub select : Filter → Option Task → Option Task
select f none = none
select f (some t) = if matches f t then some t else none

abbrev pub update_selected : Update → Option Task → Option Task
update_selected u none = none
update_selected u (some t) = some (apply u t)

abbrev pub or_else : Option Task → Option Task → Option Task
or_else none o = o
or_else (some t) o = some t

pub record Collection : Type 1 where
  pub Db : Type 0
  -- find_one(filter)
  pub find_one : Filter → Db → Option Task
  -- find_one_and_update(filter, update, return_document=AFTER)
  pub find_one_and_update : Filter → Update → Db → Option Task × Db
  -- update_one({"archive_id": a}, {"$setOnInsert": document}, upsert=True)
  pub upsert : String → Task → Db → Db
  pub find_one_lem :
      (f : Filter) (db : Db) → find_one f db ≡ select f (find_one (by_archive f.archive_id) db)
  pub find_one-archive :
      (a : String) (db : Db) (t : Task) → find_one (by_archive a) db ≡ some t → t.archive_id ≡ a
  pub update-reply :
      (f : Filter) (u : Update) (db : Db)
      → (find_one_and_update f u db).0 ≡ update_selected u (find_one f db)
  pub update-find_one :
      (f : Filter) (u : Update) (db : Db) (a : String)
      → find_one (by_archive a) (find_one_and_update f u db).1 ≡ (
          if str_eq f.archive_id a
          then or_else (update_selected u (find_one f db)) (find_one (by_archive f.archive_id) db)
          else find_one (by_archive a) db)
  pub upsert-find_one :
      (a : String) (t : Task) (db : Db) (b : String)
      → t.archive_id ≡ a
      → find_one (by_archive b) (upsert a t db) ≡ (
          if str_eq a b
          then or_else (find_one (by_archive a) db) (some t)
          else find_one (by_archive b) db)
