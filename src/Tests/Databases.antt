-- ===== src/Tests/Databases.antt =====
-- The theorems on the database, at one without indexes but the FLAT and the filter index.
use learn_vector_db.Prelude.{
  ℕ, ◌<◌, true, none, some, List, [], ◌∷◌, bytes_eq, codes, ◌≡◌, ◌≢◌, refl, arith,
}
use learn_vector_db.Result.{ok}
use learn_vector_db.Json.{pos, c_str}
use learn_vector_db.Decimal.RoundTrip.{absent}
use learn_vector_db.StdMap.{find}
use learn_vector_db.Decimal.{to_string}
use learn_vector_db.Wal.{lines}
use learn_vector_db.Wal.ReadBack.{IsLine}
use learn_vector_db.ScalarStorage.{get_scalar}
use learn_vector_db.IndexFactory.{flat, unknown}
use learn_vector_db.Database.{Database, upsert, query}
use learn_vector_db.Database.Stored.{query-upsert, query_result}
use learn_vector_db.Database.OldFields.{IsNewField, upsert_new_field}
use learn_vector_db.Database.Reload.{reload_loop}
use learn_vector_db.Database.Reload.Log.{replay_log}
use learn_vector_db.Wal.Lines.{LogEntry, log_text, upsert_text}
use learn_vector_db.Database.Reload.InOrder.{reload_loop-log}
use learn_vector_db.Tests.Store.{Sorted, sorted_rocks, sorted_rocks_laws, empty_store}
use learn_vector_db.Tests.Documents.{Value, number, structure, members_of, small_json, parse_text}
use learn_vector_db.Tests.Cluster.{small_libraries}

abbrev pub entries : List LogEntry
entries = record { log_id = 3; text = codes "a1" } ∷ record { log_id = 12; text = codes "bc" } ∷ []

abbrev pub database : Sorted → Database small_libraries
database scalars = record {
  factory = record { flat_index = some []; hnsw_index = none; filter_index = some [] };
  scalars = scalars;
  persistence = record {
    increase_id = 10;
    last_snapshot_id = 5;
    content = log_text entries;
    unread = lines (log_text entries);
    good = true;
    max_log_id_file = none;
  };
  files = [];
}

pub IsLine-first : (id : ℕ) → id < 100 → IsLine id (codes "1.0") upsert_text (codes "a1")
unfolding absent
IsLine-first id h = record {
  fits = omega arith;
  version_bar = refl;
  version_newline = refl;
  op_bar = refl;
  op_newline = refl;
  text_newline = refl;
}

pub IsLine-other : (id : ℕ) → id < 100 → IsLine id (codes "1.0") upsert_text (codes "bc")
unfolding absent
IsLine-other id h = record {
  fits = omega arith;
  version_bar = refl;
  version_newline = refl;
  op_bar = refl;
  op_newline = refl;
  text_newline = refl;
}

-- The first entry is in the snapshot, the second is replayed.
reload_loop-log_example :
    reload_loop small_libraries 3 (database empty_store)
    ≡ some (replay_log small_libraries entries (database empty_store))
reload_loop-log_example =
    reload_loop-log small_libraries 3 entries (database empty_store)
      (IsLine-first 3 (omega arith), (IsLine-other 12 (omega arith), tt)) refl (omega arith)

query-upsert_example :
    query small_libraries 97
      (upsert small_libraries 97 (parse_text (codes "abc")) flat (database empty_store)).0
    ≡ query_result small_libraries 97
        (parse_text (codes "abc"))
        flat
        (database empty_store)
        97
        (upsert small_libraries 97 (parse_text (codes "abc")) flat (database empty_store)).1
        (sorted_rocks.put (to_string 97) (c_str (codes "abc")) empty_store)
query-upsert_example =
    query-upsert small_libraries 97 (parse_text (codes "abc")) flat (database empty_store)
      sorted_rocks_laws 97

-- A stored document of the identifier 1 without a field `age`, and one that has it.
abbrev stored : Sorted
stored = record { pairs = (codes "1", 1 ∷ 2 ∷ []) ∷ []; ascending = (tt, tt) }

abbrev with_age : Value
with_age =
    structure (members_of ((codes "id", number (pos 1)) ∷ (codes "age", number (pos 30)) ∷ []))

age_new :
    IsNewField small_libraries
      (get_scalar sorted_rocks small_json 1 stored)
      1
      (codes "age")
      (number (pos 30))
unfolding get_scalar to_string c_str find bytes_eq
age_new = record { object = refl; integer = refl; not_id = refl; missing = refl }

upsert_new_field_example : (upsert small_libraries 1 with_age unknown (database stored)).1 ≢ ok tt
upsert_new_field_example =
    upsert_new_field small_libraries 1 with_age (number (pos 30)) unknown (database stored)
      (codes "age") ((codes "id", number (pos 1)) ∷ []) [] age_new refl
