-- ===== src/Database/Reload/InOrder.antt =====
-- The loop of `reloadDatabase` on a log of whole lines.
use learn_vector_db.Prelude.{
  ℕ, zero, suc, ◌<◌, true, false, Option, some, List, [], ◌∷◌, Bytes, codes, bytes_eq, length, ltb,
  ◌≡◌, refl, sym, ap, ◌∙◌, arith, Bool-cases, inl, inr,
}
use learn_vector_db.Result.{Result, ok, throw}
use learn_vector_db.Exec.Keeps.{Keeps, Keeps-if, Keeps-bind, Keeps-need, Keeps-pure}
use learn_vector_db.Exec.{pure, continue, ◌>>=◌}
use learn_vector_db.Wal.{Persistence, lines, see_id}
use learn_vector_db.IndexFactory.{Libraries}
use learn_vector_db.Database.{Database, Method, get_index_type_from_request, request_id}
use learn_vector_db.Database.Stored.{upsert-persistence}
use learn_vector_db.Database.Reload.{replay, reload_step, reload_loop, loop_on}
use learn_vector_db.Database.Reload.Log.{
  document_of, first_read, first_read-unread, replay_log, replay_log-unread, after_read,
  reload_step-log,
}
use learn_vector_db.Wal.Lines.{LogEntry, AllLines, log_text, upsert_text}

module _ (l : Libraries) where
  open l use {json}

  pub replay-Keeps :
      (p : Persistence) (operation : Bytes) (document : json.Value)
      → Keeps (λ (db : Database l). db.persistence ≡ p) (replay l operation document)
  unfolding replay
  replay-Keeps p operation document =
      Keeps-if (bytes_eq operation (codes "upsert")) _ _
        (Keeps-bind _ _ (Keeps-need (json.member document request_id)) (λ v.
          Keeps-bind _ _ (Keeps-need (json.get_uint64 v)) (λ id. record {
            hold = λ db h.
                upsert-persistence l id document (get_index_type_from_request l document) db ∙ h;
          })))
        (Keeps-pure tt)

  after_continue :
      (again : Database l → Option (Database l × Result (Unit {0}))) (rest : Method l Unit)
      (r : Result (Unit {0})) (db : Database l)
      → again db ≡ some (rest db)
      → loop_on l again (continue r (λ _. pure false) db) ≡ some (continue r (λ _. rest) db)
  unfolding pure
  after_continue again rest (throw e) db h = refl
  after_continue again rest (ok u) db h = h

  after_replay :
      (again : Database l → Option (Database l × Result (Unit {0}))) (rest m : Method l Unit)
      (db : Database l)
      → again (m db).0 ≡ some (rest (m db).0)
      → loop_on l again ((m >>= λ _. pure false) db) ≡ some ((m >>= λ _. rest) db)
  unfolding ◌>>=◌
  after_replay again rest m db h = after_continue again rest (m db).1 (m db).0 h

  reload_step-skip :
      (e : LogEntry) (es : List LogEntry) (db : Database l)
      → AllLines (e ∷ es)
      → db.persistence.unread ≡ lines (log_text (e ∷ es))
      → ltb db.persistence.last_snapshot_id e.log_id ≡ false
      → reload_step l db
        ≡ reload_step l (record db {
          persistence = record (see_id e.log_id db.persistence) { unread = lines (log_text es) };
        })
  unfolding first_read after_read
  reload_step-skip e es db h u old =
      reload_step-log l (e ∷ es) db h u
      ∙ (rw old (
            ap (λ x. after_read l x db)
              (sym (
                first_read-unread l es (see_id e.log_id db.persistence) (lines (log_text es))
                  json.null)))
          ∙ sym (reload_step-log l es _ h.1 refl))

  reload_step-new :
      (e : LogEntry) (es : List LogEntry) (db : Database l)
      → AllLines (e ∷ es)
      → db.persistence.unread ≡ lines (log_text (e ∷ es))
      → ltb db.persistence.last_snapshot_id e.log_id ≡ true
      → reload_step l db
        ≡ (replay l upsert_text (document_of l e) >>= λ _. pure false) (record db {
          persistence = record (see_id e.log_id db.persistence) { unread = lines (log_text es) };
        })
  unfolding first_read after_read
  reload_step-new e es db h u new = reload_step-log l (e ∷ es) db h u ∙ rw new

  -- The loop over a log of whole lines gives each entry behind the snapshot to `upsert`, in the
  -- order of the log, until one of them throws; one round per entry and one for the end are enough.
  pub reload_loop-log :
      (fuel : ℕ) (es : List LogEntry) (db : Database l)
      → AllLines es
      → db.persistence.unread ≡ lines (log_text es)
      → length es < fuel
      → reload_loop l fuel db ≡ some (replay_log l es db)
  unfolding reload_loop replay_log first_read after_read
  reload_loop-log zero es db h u enough = elim enough [ ]
  reload_loop-log (suc fuel) [] db h u enough =
      ap (loop_on l (reload_loop l fuel)) (reload_step-log l [] db h u)
  reload_loop-log (suc fuel) (e ∷ es) db h u enough =
      elim (Bool-cases (ltb db.persistence.last_snapshot_id e.log_id)) [
        | inl new ↦ rw new (
            ap (loop_on l (reload_loop l fuel)) (reload_step-new e es db h u new)
            ∙ after_replay (reload_loop l fuel) (replay_log l es)
                (replay l upsert_text (document_of l e)) _
                (reload_loop-log fuel es _ h.1
                  (ap (λ (p : Persistence). p.unread)
                    ((replay-Keeps _ upsert_text (document_of l e)).hold _ refl))
                  (omega arith)))
        | inr old ↦ rw old (
            ap (loop_on l (reload_loop l fuel)) (reload_step-skip e es db h u old)
            ∙ (reload_loop-log (suc fuel) es _ h.1 refl (omega arith)
                ∙ ap some (
                    replay_log-unread l es db (see_id e.log_id db.persistence)
                      (lines (log_text es)))))
      ]
