-- ===== src/Extraction/Fake.antt =====
-- A collection in memory, which shows that what `Collection` asks of MongoDB can be met.
use memory_system.Shared.{
  ◌≡◌, refl, sym, ◌∙◌, ap, inl, inr, String, Option, none, some, arith, str_eq, eq_iff, Bool-cases,
  if◌then◌else◌,
}
use memory_system.Extraction.Task.{Task, Filter, Update}
use memory_system.Extraction.Collection.{Collection, by_archive, select, update_selected, or_else}

abbrev pub Documents : Type 0
Documents = String → Option Task

abbrev find : Filter → Documents → Option Task
find f db = select f (db f.archive_id)

abbrev store : String → Option Task → Documents → Documents
store a o db b = if str_eq a b then o else db b

abbrev update : Filter → Update → Documents → Option Task × Documents
update f u db =
    let new = update_selected u (find f db) in
    (new, store f.archive_id (or_else new (db f.archive_id)) db)

abbrev insert_missing : String → Task → Documents → Documents
insert_missing a t db = store a (or_else (find (by_archive a) db) (some t)) db

module _ (f : Filter) where
  pub select-select : (o : Option Task) → select f o ≡ select f (select (by_archive f.archive_id) o)
  select-select none = refl
  select-select (some t) = ground arith

  pub select-archive :
      (a : String) (o : Option Task) (t : Task)
      → select (by_archive a) o ≡ some t
      → t.archive_id ≡ a
  select-archive a none t e = absurd (cc)
  select-archive a (some u) t e = ground (arith, eq_iff a u.archive_id)

  pub select-updated :
      (u : Update) (o : Option Task)
      → select (by_archive f.archive_id) (or_else (update_selected u (select f o)) o)
        ≡ or_else (update_selected u (select f o)) (select (by_archive f.archive_id) o)
  select-updated u none = refl
  select-updated u (some t) = ground arith

pub select-inserted :
    (a : String) (o : Option Task) (t : Task)
    → t.archive_id ≡ a
    → select (by_archive a) (or_else (select (by_archive a) o) (some t))
      ≡ or_else (select (by_archive a) o) (some t)
select-inserted a none t e = ground (arith, eq_iff a t.archive_id)
select-inserted a (some u) t e = ground (arith, eq_iff a t.archive_id)

pub view_stored :
    (a : String) (o : Option Task) (db : Documents) (b : String)
    → find (by_archive b) (store a o db)
      ≡ (if str_eq a b then select (by_archive a) o else find (by_archive b) db)
view_stored a o db b = elim (Bool-cases (str_eq a b)) [
  | inl same ↦
      let e : a ≡ b = (eq_iff a b).0 same in rw same (ap (λ x. select (by_archive x) o) (sym e))
  | inr other ↦ rw other
]

abbrev pub in_memory : Collection
in_memory = record {
  Db = Documents;
  find_one = find;
  find_one_and_update = update;
  upsert = insert_missing;
  find_one_lem = λ f db. select-select f (db f.archive_id);
  find_one-archive = λ a db t. select-archive (by_archive a) a (db a) t;
  update-reply = λ f u db. refl;
  update-find_one = λ f u db a.
      view_stored f.archive_id _ db a
      ∙ ap (λ x. if str_eq f.archive_id a then x else find (by_archive a) db)
          (select-updated f u (db f.archive_id));
  upsert-find_one = λ a t db b e.
      view_stored a _ db b
      ∙ ap (λ x. if str_eq a b then x else find (by_archive b) db) (select-inserted a (db a) t e);
}
