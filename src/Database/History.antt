-- ===== src/Database/History.antt =====
-- A database after any sequence of its methods.
use learn_vector_db.Prelude.{
  Option, none, some, ℕ, Bool, false, List, Bytes, bytes_eq, ◌≡◌, refl, ap, ◌∙◌, arith,
  Option-cases, inl, inr,
}
use learn_vector_db.Json.{ℤ}
use learn_vector_db.Decimal.{to_string}
use learn_vector_db.Decimal.RoundTrip.{to_string_head}
use learn_vector_db.Wal.{Persistence}
use learn_vector_db.FilterIndex
use learn_vector_db.FilterIndex.{RoaringLaws}
use learn_vector_db.ScalarStorage
use learn_vector_db.ScalarStorage.{RocksDb, RocksLaws, get_scalar}
use learn_vector_db.IndexFactory.{Libraries, IndexType, filter, index_path, save_index}
use learn_vector_db.Database.{
  Database, query, get_index_type_from_request, insert_new, take_snapshot, upsert,
  snapshot_folder_path,
}
use learn_vector_db.Database.Search
use learn_vector_db.Database.Searched.{search-Keeps}
use learn_vector_db.Database.Upsert.{insert_new-Keeps}
use learn_vector_db.Database.Stays.{held, insert_new-Stays}
use learn_vector_db.Database.Stored.{stored_under}
use learn_vector_db.Database.Exact.{Exact, Stores, upsert-Exact}

-- The key of a snapshot is the key of no document.
snapshot_key : (i : ℕ) → bytes_eq (index_path snapshot_folder_path filter) (to_string i) ≡ false
unfolding index_path bytes_eq
snapshot_key i = let (c, s, shape, digit) = to_string_head i in rw shape (ground (arith, digit))

module _ (l : Libraries) where
  open l use {json, faiss, roaring, rocks}

  get_scalar-put :
      RocksLaws rocks
      → (key value : Bytes) (i : ℕ) (db : rocks.Db) → bytes_eq key (to_string i) ≡ false
      → get_scalar rocks json i (ScalarStorage.put rocks key value db) ≡ get_scalar rocks json i db
  unfolding get_scalar ScalarStorage.put
  get_scalar-put laws key value i db other = elim (Option-cases (rocks.put key value db)) [
    | inl refused ↦ rw (refused, ScalarStorage.put) refl
    | inr (db', taken) ↦
        rw (taken, ScalarStorage.put)
          (rw (laws.get-put key value db db' (to_string i) taken, other, get_scalar) refl)
  ]

  -- The documents stay where they are when a snapshot is taken.
  pub query-take_snapshot :
      RocksLaws rocks
      → (writable : Bool) (db : Database l) (i : ℕ)
      → query l i (take_snapshot l writable db) ≡ query l i db
  unfolding query take_snapshot save_index FilterIndex.save_index
  query-take_snapshot laws writable db i = elim (Option-cases db.factory.filter_index) [
    | inl missing ↦ rw missing refl
    | inr (m, found) ↦ rw found (
        get_scalar-put laws _ (FilterIndex.serialize_int_field_filter roaring m) i db.scalars
          (snapshot_key i))
  ]

  -- What the methods of `VectorDatabase`, and an insertion into its indexes, make of a database. Every
  -- `upsert` keeps to `Stores` for the field.
  pub data Later (field : Bytes) (db : Database l) : Database l → Type 0 where
    unchanged : Later field db db
    upserted :
        {now : Database l} (id : ℕ) (document : json.Value) (type : IndexType)
        → Later field db now
        → Stores l field id document type now
        → Later field db (upsert l id document type now).0
    inserted :
        {now : Database l} (type : IndexType) (vector : List json.Float) (id : ℕ)
        → Later field db now
        → Later field db (insert_new l type vector id now).0
    searched :
        {now : Database l} (request : json.Value)
        → Later field db now
        → Later field db (Search.search l request now).0
    -- what is written to the log, by `write_wal_log` or by the log store
    logged :
        {now : Database l} (log : Persistence)
        → Later field db now
        → Later field db (record now { persistence = log })
    snapped :
        {now : Database l} (writable : Bool)
        → Later field db now
        → Later field db (take_snapshot l writable now)

  module _ (field : Bytes) where
    -- A document is stored, in the sense of `Stores`, if it has an identifier.
    abbrev pub DocumentStores : Option ℕ → json.Value → Database l → Type 0
    DocumentStores none document db = Unit
    DocumentStores (some id) document db =
        Stores l field id document (get_index_type_from_request l document) db

  module _ (field : Bytes) (start : Database l) where
    pub stored-Later :
        (id : Option ℕ) (document : json.Value) (db : Database l)
        → DocumentStores field id document db
        → Later field start db
        → Later field start (stored_under l id document db)
    stored-Later none document db s h = h
    stored-Later (some id) document db s h =
        upserted id document (get_index_type_from_request l document) h s

  pub unchanged-Exact :
      (field : Bytes) (db db' : Database l)
      → ((w : ℤ) (x : ℕ) → held l field w x db' ≡ held l field w x db)
      → ((x : ℕ) → query l x db' ≡ query l x db)
      → Exact l field db
      → Exact l field db'
  unchanged-Exact field db db' same_held same_query exact = record {
    says = λ w x small. rw (same_query x) (same_held w x ∙ exact.says w x small);
  }

  module _ (rocks_laws : RocksLaws rocks) (laws : RoaringLaws roaring) (field : Bytes) where
    insert_new-Exact :
        (type : IndexType) (vector : List json.Float) (id : ℕ) (db : Database l)
        → Exact l field db
        → Exact l field (insert_new l type vector id db).0
    unfolding query
    insert_new-Exact type vector id db =
        unchanged-Exact field db (insert_new l type vector id db).0
          (λ w x.
            (insert_new-Stays l laws field w x (held l field w x db) type vector id).hold db refl)
          (λ x.
            ap (get_scalar rocks json x)
              ((insert_new-Keeps l type vector id).hold db
                (record { same_scalars = refl; same_persistence = refl })).same_scalars)

    search-Exact :
        (request : json.Value) (db : Database l)
        → Exact l field db
        → Exact l field (Search.search l request db).0
    unfolding query held
    search-Exact request db =
        (search-Keeps l (Exact l field)
            (λ db' index exact. unchanged-Exact field db' _ (λ w x. refl) (λ x. refl) exact)
            request).hold
          db

    -- What the filter index says of the field stays exact along any sequence of the methods.
    pub Later-Exact :
        {db db' : Database l} → Exact l field db → Later field db db' → Exact l field db'
    unfolding query held take_snapshot
    Later-Exact exact unchanged = exact
    Later-Exact exact (upserted {now} id document type before stores) =
        upsert-Exact l rocks_laws laws field id document type now (Later-Exact exact before) stores
    Later-Exact exact (inserted {now} type vector id before) =
        insert_new-Exact type vector id now (Later-Exact exact before)
    Later-Exact exact (searched {now} request before) =
        search-Exact request now (Later-Exact exact before)
    Later-Exact exact (logged {now} log before) =
        unchanged-Exact field now _ (λ w x. refl) (λ x. refl) (Later-Exact exact before)
    Later-Exact exact (snapped {now} writable before) =
        unchanged-Exact field now _ (λ w x. refl) (query-take_snapshot rocks_laws writable now)
          (Later-Exact exact before)
