-- ===== src/Tests/Histories.antt =====
-- Two documents that are stored one after the other under one identifier.
use learn_vector_db.Prelude.{
  ℕ, ◌^◌, true, none, some, List, [], ◌∷◌, Bytes, bytes_eq, codes, ◌==◌, ◌≡◌, refl, arith, inl, inr,
}
use learn_vector_db.Exec.{◌>>=◌, modify}
use learn_vector_db.Json.{ℤ, pos, c_str}
use learn_vector_db.Decimal.{to_string}
use learn_vector_db.Wal.{Persistence}
use learn_vector_db.StdMap.{find, insert}
use learn_vector_db.ScalarStorage.{get_scalar, insert_scalar}
use learn_vector_db.VectorIndex.{flat_insert, flat_remove}
use learn_vector_db.IndexFactory.{Libraries, flat}
use learn_vector_db.Database.{
  Database, upsert, query, take_snapshot, old_value, forget, read_vectors, floats, insert_new,
  remove_old, update_filter, update_filters, on_flat, on_filter,
}
use learn_vector_db.Database.Search
use learn_vector_db.Database.Stays.{held}
use learn_vector_db.Database.Exact.{Exact, Stores, int_field, upsert-Exact}
use learn_vector_db.Database.History.{upserted, snapped, unchanged, Later-Exact}
use learn_vector_db.Database.Filtered.{AsksFor}
use learn_vector_db.Tests.Bitmaps.{list_roaring_laws}
use learn_vector_db.Tests.Store.{empty_store, sorted_rocks_laws}
use learn_vector_db.Tests.Documents.{
  Value, absent_value, number, text, sequence, structure, values_of, members_of, small_json,
}
use learn_vector_db.Tests.Cluster.{small_libraries}
use learn_vector_db.Tests.Filters.{asking}

-- The second byte of a text is the member `age`.
abbrev parse_aged : Bytes → Value
parse_aged [] = absent_value
parse_aged (c ∷ []) = absent_value
parse_aged (c ∷ d ∷ s) = structure (
    members_of (
      (codes "id", number (pos c))
      ∷ (codes "age", number (pos d))
      ∷ (codes "vectors", sequence (values_of (number (pos 7) ∷ [])))
      ∷ (codes "indexType", text (codes "FLAT"))
      ∷ []))

abbrev pub aged_libraries : Libraries
aged_libraries = record {
  json = record small_json { parse = parse_aged };
  faiss = small_libraries.faiss;
  hnsw = small_libraries.hnsw;
  roaring = small_libraries.roaring;
  rocks = small_libraries.rocks;
  spdlog = small_libraries.spdlog;
}

abbrev pub of_age : ℕ → Value
of_age n = parse_aged (1 ∷ n ∷ [])

abbrev pub start_with : Persistence → Database aged_libraries
start_with persistence = record {
  factory = record { flat_index = some []; hnsw_index = none; filter_index = some [] };
  scalars = empty_store;
  persistence = persistence;
  files = [];
}

abbrev pub start : Database aged_libraries
start = start_with (record {
  increase_id = 10;
  last_snapshot_id = 0;
  content = [];
  unread = [];
  good = true;
  max_log_id_file = none;
})

abbrev pub young : Database aged_libraries
young = (upsert aged_libraries 1 (of_age 30) flat start).0

pub start-Exact : (p : Persistence) → Exact aged_libraries (codes "age") (start_with p)
unfolding held int_field query get_scalar find learn_vector_db.FilterIndex.Members.is_member
start-Exact p = record { says = λ w x small. refl }

pub young_Stores :
    (p : Persistence) → Stores aged_libraries (codes "age") 1 (of_age 30) flat (start_with p)
unfolding upsert ◌>>=◌ get_scalar forget read_vectors floats insert_new on_flat update_filters
    update_filter on_filter old_value bytes_eq c_str modify find to_string flat_insert int_field
young_Stores p = record {
  small = omega arith;
  returned = refl;
  taken = _;
  put_taken = refl;
  kept = inl (record {
    name = codes "age";
    old = none;
    new = pos 30;
    same_name = refl;
    indexed = record {
      value = number (pos 30);
      front = (codes "id", number (pos 1)) ∷ [];
      back =
          (codes "vectors", sequence (values_of (number (pos 7) ∷ [])))
          ∷ (codes "indexType", text (codes "FLAT"))
          ∷ [];
      place = refl;
      not_before = (refl, tt);
      not_behind = (refl, (refl, tt));
      integer = refl;
      not_id = refl;
      new_value = refl;
      read_old = refl;
    };
    reads_back = refl;
  });
}

abbrev between : Database aged_libraries
between = take_snapshot aged_libraries true young

abbrev older : Database aged_libraries
older = (upsert aged_libraries 1 (of_age 31) flat between).0

older_Stores : Stores aged_libraries (codes "age") 1 (of_age 31) flat between
unfolding upsert ◌>>=◌ get_scalar forget read_vectors floats insert_new on_flat update_filters
    update_filter on_filter old_value bytes_eq c_str modify find to_string flat_insert int_field
    take_snapshot learn_vector_db.IndexFactory.save_index learn_vector_db.FilterIndex.save_index
    learn_vector_db.ScalarStorage.put insert insert_scalar learn_vector_db.IndexFactory.index_path
    learn_vector_db.Prelude.bytes_less remove_old flat_remove
older_Stores = record {
  small = omega arith;
  returned = refl;
  taken = _;
  put_taken = refl;
  kept = inl (record {
    name = codes "age";
    old = some (pos 30);
    new = pos 31;
    same_name = refl;
    indexed = record {
      value = number (pos 31);
      front = (codes "id", number (pos 1)) ∷ [];
      back =
          (codes "vectors", sequence (values_of (number (pos 7) ∷ [])))
          ∷ (codes "indexType", text (codes "FLAT"))
          ∷ [];
      place = refl;
      not_before = (refl, tt);
      not_behind = (refl, (refl, tt));
      integer = refl;
      not_id = refl;
      new_value = refl;
      read_old = refl;
    };
    reads_back = refl;
  });
}

between-Exact : Exact aged_libraries (codes "age") between
between-Exact =
    Later-Exact aged_libraries sorted_rocks_laws list_roaring_laws (codes "age")
      (start-Exact start.persistence)
      (snapped true (upserted 1 (of_age 30) flat unchanged (young_Stores start.persistence)))

pub request_asks : (v : ℤ) → AsksFor aged_libraries (asking v) (codes "age") v
unfolding bytes_eq c_str Search.operation_of
request_asks v = record {
  filter_value = _;
  name_value = _;
  op_value = _;
  value_value = _;
  name = _;
  op = _;
  has_filter = refl;
  is_object = refl;
  has_name = refl;
  name_text = refl;
  same_name = refl;
  has_op = refl;
  op_text = refl;
  is_equal = refl;
  has_value = refl;
  value_number = refl;
}

upsert-Exact_example : Exact aged_libraries (codes "age") older
upsert-Exact_example =
    upsert-Exact aged_libraries sorted_rocks_laws list_roaring_laws (codes "age") 1 (of_age 31) flat
      between between-Exact older_Stores
