-- ===== src/Database/Reload.antt =====
-- `VectorDatabase::reloadDatabase`: the snapshot, then the log behind it.
pub mod Log
pub mod InOrder
pub mod Total
pub mod Seen
pub mod Rebuilt
pub mod Reads
pub mod Fields
use learn_vector_db.Prelude.{
  length, ℕ, zero, suc, Bool, true, false, Option, none, some, [], Bytes, codes, bytes_eq, null,
  if◌then◌else◌,
}
use learn_vector_db.Result.{Result, ok, throw}
use learn_vector_db.Exec.{pure, need, ◌>>=◌, ◌>>◌}
use learn_vector_db.Wal.{read_next_wal_log, read_lines_thrown}
use learn_vector_db.IndexFactory.{Libraries}
use learn_vector_db.Database.{
  Database, Method, at, get_index_type_from_request, upsert, load_snapshot, request_id,
}

module _ (l : Libraries) where
  open l use {json, faiss, roaring, rocks}

  -- What the loop of `reloadDatabase` does with one entry of the log.
  unfoldable pub replay : Bytes → json.Value → Method l Unit
  replay operation_type document =
      if bytes_eq operation_type (codes "upsert")
      then (do
        id_value ← need (at l document request_id)
        id ← need (json.get_uint64 id_value)
        upsert l id document (get_index_type_from_request l document))
      else pure tt

  unfoldable pub read_next : Method l (Bytes × json.Value)
  read_next db = elim (read_next_wal_log json db.persistence [] json.null) [
    | throw e ↦ (
      record db { persistence = read_lines_thrown json db.persistence.unread db.persistence },
      throw e,
    )
    | ok r ↦ (record db { persistence = r.state }, ok (r.operation, r.document))
  ]

  -- One round of the loop: whether the log is at its end.
  unfoldable pub reload_step : Method l Bool
  reload_step = do r ← read_next; if null r.0 then pure true else (do replay r.0 r.1; pure false)

  abbrev pub loop_on :
      (Database l → Option (Database l × Result (Unit {0})))
      → Database l × Result Bool
      → Option (Database l × Result (Unit {0}))
  loop_on again (db, throw e) = some (db, throw e)
  loop_on again (db, ok true) = some (db, ok tt)
  loop_on again (db, ok false) = again db

  -- The loop with fuel; `none` means that the fuel ran out.
  unfoldable pub reload_loop : ℕ → Database l → Option (Database l × Result (Unit {0}))
  reload_loop zero db = none
  reload_loop (suc fuel) db = loop_on (reload_loop fuel) (reload_step db)

  -- Every round reads a line, and one round finds the end.
  unfoldable pub reload_database : Database l → Option (Database l × Result (Unit {0}))
  reload_database db =
      let (db1, loaded) = load_snapshot l db in
      elim loaded [
        | throw e ↦ some (db1, throw e)
        | ok _ ↦ reload_loop (suc (length db1.persistence.unread)) db1
      ]
