-- ===== src/Database/Search.antt =====
-- `VectorDatabase::search`.
use learn_vector_db.Prelude.{Option, none, some, List, [], Bytes, codes, bytes_eq, if◌then◌else◌}
use learn_vector_db.Result.{ok, throw, aborted}
use learn_vector_db.Exec.{pure, lift, gets, need, ◌>>=◌}
use learn_vector_db.Json.{ℤ, c_str}
use learn_vector_db.FilterIndex.{Operation, equal, not_equal, get_int_field_filter_bitmap}
use learn_vector_db.VectorIndex.{Found, flat_search, hnsw_search}
use learn_vector_db.IndexFactory.{Libraries, IndexType, flat, hnsw, filter, unknown}
use learn_vector_db.Database.{
  Database, Method, at, read_vectors, get_index_type_from_request, request_k,
}

module _ (l : Libraries) where
  open l use {json, faiss, roaring, rocks}

  unfoldable pub operation_of : Bytes → Operation
  operation_of text = if bytes_eq text (codes "=") then equal else not_equal

  -- The bitmap of the request's filter, if it has one that is an object.
  unfoldable pub filter_bitmap : json.Value → Method l (Option roaring.Bitmap)
  filter_bitmap request db = elim (at l request (codes "filter")) [
    | none ↦ (db, ok none)
    | some f ↦
        if json.is_object f
        then (do
          field_value ← need (at l f (codes "fieldName"))
          field ← need (json.get_string field_value)
          op_value ← need (at l f (codes "op"))
          op ← need (json.get_string op_value)
          value_value ← need (at l f (codes "value"))
          value ← need (json.get_int64 value_value)
          index ← gets (λ (d : Database l). d.factory.filter_index)
          m ← need index
          pure (
              some (
                get_int_field_filter_bitmap roaring (c_str field) (operation_of (c_str op)) value m
                  roaring.create)))
            db
        else (db, ok none)
  ]

  unfoldable pub search_index :
      IndexType → List json.Float → ℤ → Option roaring.Bitmap → Method l (Found json.Float)
  search_index flat query k bitmap db = elim db.factory.flat_index [
    | none ↦ (db, throw aborted)
    | some index ↦ (db, flat_search roaring faiss query k bitmap index)
  ]
  search_index hnsw query k bitmap db = elim db.factory.hnsw_index [
    | none ↦ (db, throw aborted)
    | some index ↦
        let (index', found) = hnsw_search roaring l.hnsw query k bitmap 50 index in
        (record db { factory = record db.factory { hnsw_index = some index' } }, ok found)
  ]
  search_index filter query k bitmap db = (db, ok ([], []))
  search_index unknown query k bitmap db = (db, ok ([], []))

  unfoldable pub search : json.Value → Method l (Found json.Float)
  search request = do
    vector ← lift (read_vectors l request)
    k_value ← need (at l request request_k)
    k ← need (json.get_int k_value)
    bitmap ← filter_bitmap request
    search_index (get_index_type_from_request l request) vector k bitmap
