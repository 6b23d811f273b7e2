-- ===== src/Database/Stored.antt =====
-- What is read after an `upsert`.
use learn_vector_db.Prelude.{ℕ, Option, none, some, ◌==◌, if◌then◌else◌, ◌≡◌, refl, ap, ◌∙◌}
use learn_vector_db.Result.{Result, ok, throw}
use learn_vector_db.Exec.Keeps.{Outcome}
use learn_vector_db.Json.{c_str}
use learn_vector_db.Decimal.{to_string}
use learn_vector_db.Wal.{Persistence}
use learn_vector_db.ScalarStorage.{RocksLaws, insert_scalar, get_scalar}
use learn_vector_db.ScalarStorage.Stored.{get_scalar-insert_scalar}
use learn_vector_db.IndexFactory.{Libraries, IndexType}
use learn_vector_db.Database.{Database, at, upsert, query, request_id, get_index_type_from_request}
use learn_vector_db.Database.Upsert.{Same, upsert-Ends}

module _ (l : Libraries) where
  open l use {json, rocks}

  -- The identifier that a document has.
  abbrev pub label_of : json.Value → Option ℕ
  label_of document = elim (at l document request_id) [
    | none ↦ none
    | some id_value ↦ json.get_uint64 id_value
  ]

  -- The database with the document under the identifier, if there is one.
  abbrev pub stored_under : Option ℕ → json.Value → Database l → Database l
  stored_under none document db = db
  stored_under (some id) document db =
      (upsert l id document (get_index_type_from_request l document) db).0

  outcome-scalars :
      (s s' : rocks.Db) (p : Persistence) (x : Database l × Result Unit)
      → Outcome (Same l s p) (Same l s' p) x
      → x.0.scalars ≡ elim x.1 [ ok _ ↦ s' | throw _ ↦ s ]
  outcome-scalars s s' p (db, ok a) h = h.same_scalars
  outcome-scalars s s' p (db, throw e) h = h.same_scalars

  outcome-persistence :
      (s s' : rocks.Db) (p : Persistence) (x : Database l × Result Unit)
      → Outcome (Same l s p) (Same l s' p) x
      → x.0.persistence ≡ p
  outcome-persistence s s' p (db, ok a) h = h.same_persistence
  outcome-persistence s s' p (db, throw e) h = h.same_persistence

  module _ (id : ℕ) (document : json.Value) (type : IndexType) (db : Database l) where
    pub upsert-scalars :
        (upsert l id document type db).0.scalars ≡ elim (upsert l id document type db).1 [
          | ok _ ↦ insert_scalar rocks json id document db.scalars
          | throw _ ↦ db.scalars
        ]
    upsert-scalars =
        outcome-scalars db.scalars (insert_scalar rocks json id document db.scalars) db.persistence
          (upsert l id document type db)
          ((upsert-Ends l id document type db.scalars db.persistence).finish db
            (record { same_scalars = refl; same_persistence = refl }))

    pub upsert-persistence : (upsert l id document type db).0.persistence ≡ db.persistence
    upsert-persistence =
        outcome-persistence db.scalars (insert_scalar rocks json id document db.scalars)
          db.persistence (upsert l id document type db)
          ((upsert-Ends l id document type db.scalars db.persistence).finish db
            (record { same_scalars = refl; same_persistence = refl }))

    -- What identifier `i` reads as, for the result of the `upsert` and of the write of its document.
    abbrev pub query_result : ℕ → Result (Unit {0}) → Option rocks.Db → json.Value
    query_result i (throw e) stored = query l i db
    query_result i (ok a) none = query l i db
    query_result i (ok a) (some db') =
        if id == i then json.parse (c_str (json.write document)) else query l i db

    returned :
        (i : ℕ) (stored : Option rocks.Db)
        → (elim stored [
          | none ↦ get_scalar rocks json i db.scalars
          | some _ ↦
              if id == i
              then json.parse (c_str (json.write document))
              else get_scalar rocks json i db.scalars
        ])
          ≡ query_result i (ok tt) stored
    unfolding query
    returned i none = refl
    returned i (some db') = refl

    after_result :
        (laws : RocksLaws rocks) (i : ℕ) (r : Result (Unit {0}))
        → get_scalar rocks json i (elim r [
          | ok _ ↦ insert_scalar rocks json id document db.scalars
          | throw _ ↦ db.scalars
        ])
          ≡ query_result i r (rocks.put (to_string id) (c_str (json.write document)) db.scalars)
    after_result laws i (throw e) = unfold query in refl
    after_result laws i (ok a) =
        get_scalar-insert_scalar rocks laws json id i document db.scalars
        ∙ returned i (rocks.put (to_string id) (c_str (json.write document)) db.scalars)

    -- After an `upsert` that returns and whose document the database takes, the identifier reads as
    -- what the written document parses to; every other identifier, and every identifier after an
    -- `upsert` that throws or whose write the database refuses, reads as before.
    pub query-upsert :
        (laws : RocksLaws rocks) (i : ℕ)
        → query l i (upsert l id document type db).0
          ≡ query_result i
              (upsert l id document type db).1
              (rocks.put (to_string id) (c_str (json.write document)) db.scalars)
    unfolding query
    query-upsert laws i =
        ap (get_scalar rocks json i) upsert-scalars
        ∙ after_result laws i (upsert l id document type db).1
