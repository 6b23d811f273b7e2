-- ===== src/Database/Reload/Fields.antt =====
-- A field of the filter index through a reload.
use mathlib.Core.Path.{subst}
use learn_vector_db.Prelude.{
  Option, none, some, List, [], ◌∷◌, Bytes, bytes_eq, ltb, if◌then◌else◌, ◌≡◌, refl, sym, ◌∙◌,
  Bool-cases, Option-cases, inl, inr,
}
use learn_vector_db.Result.{Result, ok, throw}
use learn_vector_db.Exec.{need, continue, ◌>>=◌}
use learn_vector_db.Wal.{lines, see_id}
use learn_vector_db.Wal.Lines.{LogEntry, AllLines, log_text, upsert_text}
use learn_vector_db.FilterIndex.{RoaringLaws}
use learn_vector_db.ScalarStorage.{RocksLaws}
use learn_vector_db.IndexFactory.{Libraries}
use learn_vector_db.Database.{Database, Method, at, load_snapshot, request_id}
use learn_vector_db.Database.Stored.{label_of, stored_under}
use learn_vector_db.Database.Exact.{Exact}
use learn_vector_db.Database.History.{
  Later, unchanged, logged, DocumentStores, stored-Later, Later-Exact,
}
use learn_vector_db.Database.Reload.{replay, reload_database}
use learn_vector_db.Database.Reload.Log.{replay_log, document_of}
use learn_vector_db.Database.Reload.Seen.{reload_database-log}

module _ (l : Libraries) where
  open l use {json, roaring, rocks}

  replay-database :
      (document : json.Value) (db : Database l)
      → (replay l upsert_text document db).0 ≡ stored_under l (label_of l document) document db
  unfolding replay need ◌>>=◌ bytes_eq
  replay-database document db = elim (Option-cases (at l document request_id)) [
    | inl missing ↦ rw (missing, replay, label_of) refl
    | inr (id_value, found) ↦ elim (Option-cases (json.get_uint64 id_value)) [
      | inl no_number ↦ rw (found, no_number, replay, label_of) refl
      | inr (id, number) ↦ rw (found, number, replay, label_of) refl
    ]
  ]

  module _ (field : Bytes) where
    -- Every document behind the snapshot is stored when it is replayed.
    unfoldable pub AllReplayed : List LogEntry → Database l → Type 0
    AllReplayed [] db = Unit
    AllReplayed (e ∷ es) db =
        let p = see_id e.log_id db.persistence in
        let document = document_of l e in
        let read : Database l = record db {
          persistence = record p { unread = lines (log_text es) };
        } in
        if ltb db.persistence.last_snapshot_id e.log_id
        then DocumentStores l field (label_of l document) document read
          × AllReplayed es (replay l upsert_text document read).0
        else AllReplayed es (record db { persistence = p })

    module _ (start : Database l) where
      continue-Later :
          (x : Result (Unit {0})) (rest : Method l Unit) (db : Database l)
          → Later l field start db
          → Later l field start (rest db).0
          → Later l field start (continue x (λ _. rest) db).0
      continue-Later (ok a) rest db h k = k
      continue-Later (throw e) rest db h k = h

      replay-Later :
          (document : json.Value) (db : Database l)
          → DocumentStores l field (label_of l document) document db
          → Later l field start db
          → Later l field start (replay l upsert_text document db).0
      replay-Later document db s h =
          subst (Later l field start) (sym (replay-database document db))
            (stored-Later l field start (label_of l document) document db s h)

      replay_log-Later :
          (es : List LogEntry) (db : Database l)
          → AllReplayed es db
          → Later l field start db
          → Later l field start (replay_log l es db).0
      unfolding replay_log AllReplayed ◌>>=◌
      replay_log-Later [] db s h = logged _ h
      replay_log-Later (e ∷ es) db s h =
          let p = see_id e.log_id db.persistence in
          let document = document_of l e in
          let read : Database l = record db {
            persistence = record p { unread = lines (log_text es) };
          } in
          elim (Bool-cases (ltb db.persistence.last_snapshot_id e.log_id)) [
            | inl new ↦
                let s' : DocumentStores l field (label_of l document) document read
                    × AllReplayed es (replay l upsert_text document read).0 =
                  rw new at s in
                let after = replay-Later document read s'.0 (logged _ h) in
                rw new (
                  continue-Later (replay l upsert_text document read).1 (replay_log l es)
                    (replay l upsert_text document read).0 after
                    (replay_log-Later es (replay l upsert_text document read).0 s'.1 after))
            | inr old ↦
                rw old
                  (replay_log-Later es (record db { persistence = p }) (rw old at s) (logged _ h))
          ]

    abbrev ExactAfter : Option (Database l × Result (Unit {0})) → Type 0
    ExactAfter none = Unit
    ExactAfter (some x) = Exact l field x.0

    -- Where the snapshot is loaded with a filter index that is exact for a field, a reload of a log of
    -- whole lines leaves it exact, whether it returns or throws. Every document of an entry behind
    -- the snapshot that has an identifier is stored by an `upsert` that returns, that the database
    -- takes and that does not drop the field.
    pub reload_database-Exact :
        (es : List LogEntry) (db db' : Database l) (x : Result (Unit {0}))
        → RocksLaws rocks
        → RoaringLaws roaring
        → AllLines es
        → db.persistence.unread ≡ lines (log_text es)
        → (load_snapshot l db).1 ≡ ok tt
        → Exact l field (load_snapshot l db).0
        → AllReplayed es (load_snapshot l db).0
        → reload_database l db ≡ some (db', x)
        → Exact l field db'
    reload_database-Exact es db db' x rocks_laws laws h u loaded exact stores returned =
        subst ExactAfter (sym (reload_database-log l es db h u loaded) ∙ returned) (
          Later-Exact l rocks_laws laws field exact
            (replay_log-Later (load_snapshot l db).0 es (load_snapshot l db).0 stores unchanged))
