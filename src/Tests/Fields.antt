-- ===== src/Tests/Fields.antt =====
-- The theorems on the fields of a document in the filter index, at a database without documents.
use learn_vector_db.Prelude.{true, none, some, [], ◌∷◌, bytes_eq, codes, ◌≡◌, refl}
use learn_vector_db.Result.{ok}
use learn_vector_db.Exec.{◌>>=◌, modify}
use learn_vector_db.Json.{pos, c_str}
use learn_vector_db.Decimal.{to_string}
use learn_vector_db.StdMap.{find}
use learn_vector_db.ScalarStorage.{get_scalar}
use learn_vector_db.VectorIndex.{flat_insert}
use learn_vector_db.IndexFactory.{flat}
use learn_vector_db.Database.{
  Database, upsert, old_value, forget, read_vectors, floats, insert_new, update_filter,
  update_filters, on_flat, on_filter,
}
use learn_vector_db.Database.Stays.{held, moved}
use learn_vector_db.Database.Indexed.{IndexedField, held-upsert, held-upsert_dropped}
use learn_vector_db.Tests.Bitmaps.{list_roaring_laws}
use learn_vector_db.Tests.Store.{empty_store}
use learn_vector_db.Tests.Documents.{Value, number, sequence, structure, values_of, members_of}
use learn_vector_db.Tests.Cluster.{small_libraries}

abbrev pub aged : Value
aged = structure (
    members_of (
      (codes "id", number (pos 1))
      ∷ (codes "vectors", sequence (values_of (number (pos 7) ∷ [])))
      ∷ (codes "age", number (pos 30))
      ∷ []))

abbrev pub database : Database small_libraries
database = record {
  factory = record { flat_index = some []; hnsw_index = none; filter_index = some [] };
  scalars = empty_store;
  persistence = record {
    increase_id = 10;
    last_snapshot_id = 0;
    content = [];
    unread = [];
    good = true;
    max_log_id_file = none;
  };
  files = [];
}

age_Indexed :
    IndexedField small_libraries aged
      (get_scalar small_libraries.rocks small_libraries.json 1 database.scalars)
      (codes "age")
      none
      (pos 30)
unfolding get_scalar old_value bytes_eq c_str find
age_Indexed = record {
  value = number (pos 30);
  front =
      (codes "id", number (pos 1))
      ∷ (codes "vectors", sequence (values_of (number (pos 7) ∷ [])))
      ∷ [];
  back = [];
  place = refl;
  not_before = (refl, (refl, tt));
  not_behind = tt;
  integer = refl;
  not_id = refl;
  new_value = refl;
  read_old = refl;
}

aged_returns : (upsert small_libraries 1 aged flat database).1 ≡ ok tt
unfolding upsert ◌>>=◌ get_scalar forget read_vectors floats insert_new on_flat update_filters
    update_filter on_filter old_value bytes_eq c_str modify find to_string flat_insert
aged_returns = refl

held-upsert_example :
    held small_libraries (codes "age") (pos 30) 1 (upsert small_libraries 1 aged flat database).0
    ≡ moved small_libraries
        (pos 30)
        1
        (held small_libraries (codes "age") (pos 30) 1 database)
        none
        (pos 30)
        1
unfolding c_str
held-upsert_example =
    held-upsert small_libraries list_roaring_laws 1 aged flat (codes "age") none (pos 30) (pos 30) 1
      database age_Indexed aged_returns

held-upsert_dropped_example :
    held small_libraries (codes "size") (pos 4) 1 (upsert small_libraries 1 aged flat database).0
    ≡ held small_libraries (codes "size") (pos 4) 1 database
unfolding bytes_eq c_str
held-upsert_dropped_example =
    held-upsert_dropped small_libraries list_roaring_laws 1 aged flat (codes "size") (pos 4) 1
      database (refl, (refl, (refl, tt)))
