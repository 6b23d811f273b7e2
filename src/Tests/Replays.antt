-- ===== src/Tests/Replays.antt =====
-- A reload of a log with one document, into a database without documents.
use learn_vector_db.Prelude.{
  ℕ, true, none, some, List, [], ◌∷◌, ◌++◌, codes, bytes_eq, ◌≡◌, ap, sym, refl, arith,
}
use mathlib.Core.Path.{subst}
use learn_vector_db.Result.{ok}
use learn_vector_db.Json.{pos, c_str}
use learn_vector_db.Wal.{Persistence, lines}
use learn_vector_db.Wal.ReadBack.{before_bar}
use learn_vector_db.Decimal.RoundTrip.{absent}
use learn_vector_db.Wal.Lines.{LogEntry, AllLines, log_text}
use learn_vector_db.Database.{Database, load_snapshot}
use learn_vector_db.Database.Exact.{Exact}
use learn_vector_db.Database.Reload.{reload_database}
use learn_vector_db.Database.Reload.Fields.{AllReplayed, reload_database-Exact}
use learn_vector_db.Tests.Bitmaps.{list_roaring_laws}
use learn_vector_db.Tests.Store.{sorted_rocks_laws}
use learn_vector_db.Tests.Histories.{aged_libraries, start_with, start-Exact, young_Stores}

abbrev entries : List LogEntry
entries = record { log_id = 12; text = 1 ∷ 30 ∷ [] } ∷ []

abbrev log : Persistence
log = record {
  increase_id = 10;
  last_snapshot_id = 5;
  content = log_text entries;
  unread = lines (log_text entries);
  good = true;
  max_log_id_file = none;
}

abbrev reloaded : Database aged_libraries
reloaded = record {
  factory = record {
    flat_index = some ((pos 1, 7 ∷ []) ∷ []);
    hnsw_index = none;
    filter_index = some ((codes "age", (pos 30, 1 ∷ []) ∷ []) ∷ []);
  };
  scalars = record { pairs = (codes "1", 1 ∷ 30 ∷ 7 ∷ codes "FLAT") ∷ []; ascending = (tt, tt) };
  persistence = record log { increase_id = 12; unread = [] };
  files = [];
}

reload_returns : reload_database aged_libraries (start_with log) ≡ some (reloaded, ok tt)
unfolding reload_database learn_vector_db.Database.load_snapshot
    learn_vector_db.IndexFactory.load_index learn_vector_db.IndexFactory.load_filter
    learn_vector_db.FilterIndex.load_index learn_vector_db.FilterIndex.deserialize_int_field_filter
    learn_vector_db.FilterIndex.load_lines lines learn_vector_db.ScalarStorage.get
    learn_vector_db.StdMap.find learn_vector_db.Database.Reload.reload_loop
    learn_vector_db.Database.Reload.reload_step learn_vector_db.Exec.◌>>=◌
    learn_vector_db.Database.Reload.read_next learn_vector_db.Wal.read_next_wal_log log_text
    learn_vector_db.Wal.wal_line learn_vector_db.Decimal.to_string
    learn_vector_db.Database.Reload.replay learn_vector_db.Database.floats
    learn_vector_db.Database.forget learn_vector_db.Database.get_index_type_from_request
    learn_vector_db.Database.insert_new learn_vector_db.Database.old_value
    learn_vector_db.Database.on_filter learn_vector_db.Database.on_flat
    learn_vector_db.Database.read_vectors learn_vector_db.Database.remove_old
    learn_vector_db.Database.type_of_text learn_vector_db.Database.update_filter
    learn_vector_db.Database.update_filters learn_vector_db.Database.upsert
    learn_vector_db.Decimal.scan learn_vector_db.Decimal.skip_space learn_vector_db.Decimal.stoull
    learn_vector_db.Exec.modify learn_vector_db.IndexFactory.index_path
    learn_vector_db.IndexFactory.type_text learn_vector_db.Json.c_str
    learn_vector_db.Prelude.bytes_eq learn_vector_db.Prelude.bytes_less
    learn_vector_db.ScalarStorage.get_scalar learn_vector_db.ScalarStorage.insert_scalar
    learn_vector_db.StdMap.insert learn_vector_db.VectorIndex.flat_load
    learn_vector_db.VectorIndex.hnsw_load learn_vector_db.Wal.fields learn_vector_db.Wal.next_field
    learn_vector_db.Wal.read_lines learn_vector_db.Wal.see_id learn_vector_db.Wal.split
    learn_vector_db.VectorIndex.flat_insert learn_vector_db.FilterIndex.update_int_field_filter
    learn_vector_db.VectorIndex.to_long learn_vector_db.FilterIndex.add_int_field_filter
reload_returns = refl

whole : AllLines entries
unfolding absent
whole = (
  record {
    fits = omega arith;
    version_bar = refl;
    version_newline = refl;
    op_bar = refl;
    op_newline = refl;
    text_newline = refl;
  },
  tt,
)

snapshot_loads : load_snapshot aged_libraries (start_with log) ≡ (start_with log, ok tt)
unfolding load_snapshot learn_vector_db.IndexFactory.load_index
    learn_vector_db.IndexFactory.load_filter learn_vector_db.FilterIndex.load_index
    learn_vector_db.FilterIndex.deserialize_int_field_filter learn_vector_db.FilterIndex.load_lines
    lines learn_vector_db.ScalarStorage.get learn_vector_db.StdMap.find
    learn_vector_db.VectorIndex.flat_load
snapshot_loads = refl

replayed : AllReplayed aged_libraries (codes "age") entries (start_with log)
unfolding AllReplayed c_str before_bar bytes_eq learn_vector_db.Database.get_index_type_from_request
    learn_vector_db.Database.type_of_text learn_vector_db.Wal.see_id
replayed = (young_Stores _, tt)

reload_database-Exact_example : Exact aged_libraries (codes "age") reloaded
reload_database-Exact_example =
    reload_database-Exact aged_libraries (codes "age") entries (start_with log) reloaded (ok tt)
      sorted_rocks_laws list_roaring_laws whole refl (ap (λ x. x.1) snapshot_loads)
      (subst (λ x. Exact aged_libraries (codes "age") x.0) (sym snapshot_loads) (start-Exact log))
      (subst (λ x. AllReplayed aged_libraries (codes "age") entries x.0) (sym snapshot_loads)
        replayed)
      reload_returns
