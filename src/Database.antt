-- ===== src/Database.antt =====
-- `VectorDatabase` of vector_database.h and vector_database.cpp, with the calls of `Persistence`
-- that go through the indexes. The global index factory is a part of its state. A method that
-- throws, or that aborts in an assertion of rapidjson or at a null pointer, keeps what it changed
-- before. What is logged is not modelled.
pub mod Search
pub mod Reload
pub mod Upsert
pub mod Stored
pub mod OldFields
pub mod Stays
pub mod Indexed
pub mod Exact
pub mod Searched
pub mod History
pub mod Answers
pub mod Snapshot
pub mod Ordered
pub mod Matches
pub mod Selected
pub mod Filtered
use learn_vector_db.Prelude.{
  ℕ, zero, suc, Bool, true, false, not, ◌&&◌, Option, none, some, List, [], ◌∷◌, Bytes, codes,
  bytes_eq, null, if◌then◌else◌, ◌≡◌,
}
use learn_vector_db.Result.{Result, ok, throw, aborted, require}
use learn_vector_db.Exec.{Exec, pure, lift, gets, need, modify, continue, ◌>>=◌, ◌>>◌}
use learn_vector_db.Json.{Json, ℤ, c_str}
use learn_vector_db.Wal
use learn_vector_db.Wal.{Persistence, Read, read_next_wal_log, save_last_snapshot_id, get_id}
use learn_vector_db.ScalarStorage
use learn_vector_db.ScalarStorage.{RocksDb, ScalarKvPage, insert_scalar, get_scalar, scan_page}
use learn_vector_db.FilterIndex.{
  Index as FilterMap, Roaring, Operation, equal, not_equal, update_int_field_filter,
  get_int_field_filter_bitmap,
}
use learn_vector_db.VectorIndex.{
  Files, Found, to_long, flat_insert, flat_remove, flat_search, HnswIndex, hnsw_insert, hnsw_search,
}
use learn_vector_db.IndexFactory
use learn_vector_db.IndexFactory.{
  Libraries, IndexType, flat, hnsw, filter, unknown, IndexFactory, save_index, load_index,
  index_loaded,
}

-- constants.h
abbrev pub request_vectors : Bytes
request_vectors = codes "vectors"

abbrev pub request_k : Bytes
request_k = codes "k"

abbrev pub request_id : Bytes
request_id = codes "id"

abbrev pub request_index_type : Bytes
request_index_type = codes "indexType"

abbrev pub snapshot_folder_path : Bytes
snapshot_folder_path = codes "snapshots_"

module _ (l : Libraries) where
  open l use {json, faiss, roaring, rocks}

  pub record Database : Type 0 where
    pub factory : IndexFactory l
    pub scalars : rocks.Db
    pub persistence : Persistence
    pub files : Files

  abbrev pub Method : Type 0 → Type 0
  Method = Exec Database

  -- `json[name]` of a request: a member that is not there fails an assertion.
  abbrev pub at : json.Value → Bytes → Option json.Value
  at value name = json.member value name

  unfoldable pub floats : List json.Value → Result (List json.Float)
  floats [] = ok []
  floats (v ∷ vs) = elim (json.get_float v) [
    | none ↦ throw aborted
    | some x ↦ elim (floats vs) [ ok xs ↦ ok (x ∷ xs) | throw e ↦ throw e ]
  ]

  -- The numbers of the member `vectors`.
  unfoldable pub read_vectors : json.Value → Result (List json.Float)
  read_vectors document = elim (at document request_vectors) [
    | none ↦ throw aborted
    | some v ↦ elim (json.get_array v) [ none ↦ throw aborted | some vs ↦ floats vs ]
  ]

  unfoldable pub type_of_text : Bytes → IndexType
  type_of_text text =
      if bytes_eq text (codes "FLAT")
      then flat
      else if bytes_eq text (codes "HNSW")
      then hnsw
      else unknown

  unfoldable pub get_index_type_from_request : json.Value → IndexType
  get_index_type_from_request request = elim (at request request_index_type) [
    | none ↦ unknown
    | some v ↦ elim (json.get_string v) [
      | none ↦ unknown
      | some text ↦ if json.is_string v then type_of_text (c_str text) else unknown
    ]
  ]

  -- A method of the index that `getIndex` gives; without that index it is called at a null pointer.
  unfoldable pub on_flat : (faiss.Index → Result faiss.Index) → Method Unit
  on_flat g db = elim db.factory.flat_index [
    | none ↦ (db, throw aborted)
    | some index ↦ elim (g index) [
      | throw e ↦ (db, throw e)
      | ok index' ↦ (record db { factory = record db.factory { flat_index = some index' } }, ok tt)
    ]
  ]

  unfoldable pub on_hnsw :
      (HnswIndex roaring l.hnsw → Result (HnswIndex roaring l.hnsw)) → Method Unit
  on_hnsw g db = elim db.factory.hnsw_index [
    | none ↦ (db, throw aborted)
    | some index ↦ elim (g index) [
      | throw e ↦ (db, throw e)
      | ok index' ↦ (record db { factory = record db.factory { hnsw_index = some index' } }, ok tt)
    ]
  ]

  unfoldable pub on_filter : (FilterMap roaring → FilterMap roaring) → Method Unit
  on_filter g db = elim db.factory.filter_index [
    | none ↦ (db, throw aborted)
    | some index ↦
        (record db { factory = record db.factory { filter_index = some (g index) } }, ok tt)
  ]

  -- Only a FLAT index gives up the old vector.
  unfoldable pub remove_old : IndexType → ℕ → Method Unit
  remove_old flat id = on_flat (flat_remove roaring faiss (to_long id ∷ []))
  remove_old hnsw id = pure tt
  remove_old filter id = pure tt
  remove_old unknown id = pure tt

  unfoldable pub insert_new : IndexType → List json.Float → ℕ → Method Unit
  insert_new flat vector id = on_flat (λ index. ok (flat_insert roaring faiss vector id index))
  insert_new hnsw vector id = on_hnsw (hnsw_insert roaring l.hnsw vector id)
  insert_new filter vector id = pure tt
  insert_new unknown vector id = pure tt

  -- `existingData[field].GetInt64()`, if there is an existing document.
  unfoldable pub old_value : json.Value → Bytes → Result (Option ℤ)
  old_value existing field =
      if json.is_object existing
      then elim (at existing field) [
        | none ↦ throw aborted
        | some v ↦ elim (json.get_int64 v) [ none ↦ throw aborted | some w ↦ ok (some w) ]
      ]
      else ok none

  -- One round of the loop over the members of the document.
  unfoldable pub update_filter : json.Value → ℕ → Bytes → json.Value → Method Unit
  update_filter existing id field value =
      if json.is_int value && not (bytes_eq field request_id)
      then (do
        new ← need (json.get_int64 value)
        old ← lift (old_value existing field)
        on_filter (update_int_field_filter roaring field old new id))
      else pure tt

  unfoldable pub update_filters : json.Value → ℕ → List (Bytes × json.Value) → Method Unit
  update_filters existing id [] = pure tt
  update_filters existing id ((name, value) ∷ rest) = do
    update_filter existing id (c_str name) value
    update_filters existing id rest

  -- The old vector is read and not used, but a document without one aborts.
  unfoldable pub forget : json.Value → IndexType → ℕ → Method Unit
  forget existing type id =
      if json.is_object existing
      then (do lift (read_vectors existing); remove_old type id)
      else pure tt

  unfoldable pub upsert : ℕ → json.Value → IndexType → Method Unit
  upsert id document type = do
    existing ← gets (λ db. get_scalar rocks json id db.scalars)
    forget existing type id
    vector ← lift (read_vectors document)
    insert_new type vector id
    update_filters existing id (json.members document)
    modify (λ db. record db { scalars = insert_scalar rocks json id document db.scalars })

  unfoldable pub query : ℕ → Database → json.Value
  query id db = get_scalar rocks json id db.scalars

  unfoldable pub write_wal_log : Bytes → json.Value → Database → Database
  write_wal_log operation_type document db = record db {
    persistence = Wal.write_wal_log json operation_type document (codes "1.0") db.persistence;
  }

  -- `takeSnapshot` of the database and of `Persistence`; `writable`: whether snapshots_MaxLogID
  -- could be opened.
  unfoldable pub take_snapshot : Bool → Database → Database
  take_snapshot writable db =
      let p = record db.persistence { last_snapshot_id = db.persistence.increase_id } in
      let (files, scalars) = save_index l snapshot_folder_path db.factory db.files db.scalars in
      record db { scalars = scalars; files = files; persistence = save_last_snapshot_id writable p }

  unfoldable pub load_snapshot : Method Unit
  load_snapshot db = elim (load_index l snapshot_folder_path db.files db.scalars db.factory) [
    | throw e ↦ (
      record db { factory = index_loaded l snapshot_folder_path db.files db.scalars db.factory },
      throw e,
    )
    | ok factory ↦ (record db { factory = factory }, ok tt)
  ]
