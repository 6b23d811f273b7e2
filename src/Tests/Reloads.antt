-- ===== src/Tests/Reloads.antt =====
-- The theorem on the documents after a reload: of two entries the second is behind the snapshot.
use learn_vector_db.Prelude.{◌<◌, true, none, some, Option, List, [], ◌∷◌, codes, ◌≡◌, refl, arith}
use learn_vector_db.Result.{ok}
use learn_vector_db.Wal.{lines}
use learn_vector_db.Wal.Lines.{log_text, AllLines}
use learn_vector_db.Database.{Database, query}
use learn_vector_db.Database.Reload.{reload_database}
use learn_vector_db.Database.Reload.Rebuilt.{rebuilt, reload_database-scalars}
use learn_vector_db.ScalarStorage.{RocksDb}
use learn_vector_db.Database.Reload.Reads.{
  Takes, last_document, read_as, query-reload_database, query-reload_twice,
}
use learn_vector_db.Tests.Store.{empty_store, sorted_rocks, sorted_rocks_laws}
use learn_vector_db.Tests.Cluster.{small_libraries}
use learn_vector_db.Tests.Databases.{IsLine-first, IsLine-other, entries, database}

abbrev reloaded : Database small_libraries
reloaded = record {
  factory = record { flat_index = some []; hnsw_index = none; filter_index = some [] };
  scalars = record { pairs = (codes "98", codes "bc") ∷ []; ascending = (tt, tt) };
  persistence = record {
    increase_id = 12;
    last_snapshot_id = 5;
    content = log_text entries;
    unread = [];
    good = true;
    max_log_id_file = none;
  };
  files = [];
}

-- The second reload begins with the documents of the first.
reload_database_returns :
    (reload_database small_libraries (database empty_store) ≡ some (reloaded, ok tt))
    × (reload_database small_libraries (database reloaded.scalars) ≡ some (reloaded, ok tt))
unfolding reload_database learn_vector_db.Database.load_snapshot
    learn_vector_db.IndexFactory.load_index learn_vector_db.IndexFactory.load_filter
    learn_vector_db.FilterIndex.load_index learn_vector_db.FilterIndex.deserialize_int_field_filter
    learn_vector_db.FilterIndex.load_lines lines learn_vector_db.ScalarStorage.get
    learn_vector_db.StdMap.find learn_vector_db.Database.Reload.reload_loop
    learn_vector_db.Database.Reload.reload_step learn_vector_db.Exec.◌>>=◌
    learn_vector_db.Database.Reload.read_next learn_vector_db.Wal.read_next_wal_log log_text
    learn_vector_db.Wal.wal_line learn_vector_db.Decimal.to_string
    learn_vector_db.Database.Reload.replay learn_vector_db.Database.floats
    learn_vector_db.Database.forget learn_vector_db.Database.get_index_type_from_request
    learn_vector_db.Database.insert_new learn_vector_db.Database.old_value
    learn_vector_db.Database.on_filter learn_vector_db.Database.on_flat
    learn_vector_db.Database.read_vectors learn_vector_db.Database.remove_old
    learn_vector_db.Database.type_of_text learn_vector_db.Database.update_filter
    learn_vector_db.Database.update_filters learn_vector_db.Database.upsert
    learn_vector_db.Decimal.scan learn_vector_db.Decimal.skip_space learn_vector_db.Decimal.stoull
    learn_vector_db.Exec.modify learn_vector_db.IndexFactory.index_path
    learn_vector_db.IndexFactory.type_text learn_vector_db.Json.c_str
    learn_vector_db.Prelude.bytes_eq learn_vector_db.Prelude.bytes_less
    learn_vector_db.ScalarStorage.get_scalar learn_vector_db.ScalarStorage.insert_scalar
    learn_vector_db.StdMap.insert learn_vector_db.VectorIndex.flat_load
    learn_vector_db.VectorIndex.hnsw_load learn_vector_db.Wal.fields learn_vector_db.Wal.next_field
    learn_vector_db.Wal.read_lines learn_vector_db.Wal.see_id learn_vector_db.Wal.split
reload_database_returns = (refl, refl)

whole : AllLines entries
whole = (IsLine-first 3 (omega arith), (IsLine-other 12 (omega arith), tt))

reload_database-scalars_example : reloaded.scalars ≡ rebuilt small_libraries 5 entries empty_store
reload_database-scalars_example =
    reload_database-scalars small_libraries entries (database empty_store) reloaded whole refl
      reload_database_returns.0

sorted_rocks_takes : Takes sorted_rocks
sorted_rocks_takes = record { taken = λ key value db. _; put_taken = λ key value db. refl }

query-reload_database_example :
    query small_libraries 98 reloaded
    ≡ read_as small_libraries
        (last_document small_libraries 5 98 entries)
        (query small_libraries 98 (database empty_store))
query-reload_database_example =
    query-reload_database small_libraries sorted_rocks_laws sorted_rocks_takes 98 entries
      (database empty_store) reloaded whole refl reload_database_returns.0

query-reload_twice_example : query small_libraries 98 reloaded ≡ query small_libraries 98 reloaded
query-reload_twice_example =
    query-reload_twice small_libraries sorted_rocks_laws sorted_rocks_takes 98 entries
      (database empty_store) reloaded (database reloaded.scalars) reloaded whole refl
      reload_database_returns.0 refl refl refl reload_database_returns.1
