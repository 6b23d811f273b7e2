-- ===== src/Database/Reload/Log.antt =====
-- A log of whole lines, as `readNextWALLog` gives its entries to `reloadDatabase`.
use learn_vector_db.Prelude.{
  ℕ, Bool, true, false, List, [], ◌∷◌, Bytes, codes, null, ltb, if◌then◌else◌, ◌≡◌, refl, ap, ◌∙◌,
  arith, Bool-cases, inl, inr,
}
use learn_vector_db.Result.{Result, ok}
use learn_vector_db.Exec.{pure, ◌>>=◌}
use learn_vector_db.Json.{c_str}
use learn_vector_db.Wal.{Persistence, Read, lines, see_id, read_lines, read_next_wal_log}
use learn_vector_db.Wal.ReadBack.{before_bar, read_lines-wal_line}
use learn_vector_db.Wal.Lines.{LogEntry, AllLines, log_text, upsert_text}
use learn_vector_db.IndexFactory.{Libraries}
use learn_vector_db.Database.{Database, Method}
use learn_vector_db.Database.Reload.{replay, read_next, reload_step}

module _ (l : Libraries) where
  open l use {json}

  abbrev pub document_of : LogEntry → json.Value
  document_of e = json.parse (c_str (before_bar e.text))

  -- What one call of the reader gives on such a log.
  unfoldable pub first_read : List LogEntry → Persistence → json.Value → Read json
  first_read [] p document = record {
    state = record p { unread = []; good = true };
    operation = [];
    document = document;
  }
  first_read (e ∷ es) p document =
      if ltb p.last_snapshot_id e.log_id
      then record {
        state = record (see_id e.log_id p) { unread = lines (log_text es) };
        operation = upsert_text;
        document = document_of e;
      }
      else first_read es (see_id e.log_id p) document

  read_lines-log_text :
      (es : List LogEntry) (p : Persistence) (old : Bytes) (document : json.Value)
      → AllLines es
      → read_lines json (lines (log_text es)) p old document ≡ ok (first_read es p document)
  unfolding log_text first_read
  read_lines-log_text [] p old document h = unfold read_lines lines in refl
  read_lines-log_text (e ∷ es) p old document h =
      rw
        (read_lines-wal_line e.log_id (codes "1.0") upsert_text e.text h.0 json (log_text es) p old
          document)
        (ground (arith, read_lines-log_text es (see_id e.log_id p) upsert_text document h.1))

  see_id-unread :
      (id : ℕ) (p : Persistence) (ls : List Bytes)
      → see_id id (record p { unread = ls }) ≡ record (see_id id p) { unread = ls }
  unfolding see_id
  see_id-unread id p ls = ground arith

  pub first_read-unread :
      (es : List LogEntry) (p : Persistence) (ls : List Bytes) (document : json.Value)
      → first_read es (record p { unread = ls }) document ≡ first_read es p document
  unfolding first_read
  first_read-unread [] p ls document = refl
  first_read-unread (e ∷ es) p ls document =
      rw (see_id-unread e.log_id p ls) (elim (Bool-cases (ltb p.last_snapshot_id e.log_id)) [
        | inl new ↦ rw new
        | inr old ↦ rw old (first_read-unread es (see_id e.log_id p) ls document)
      ])

  -- The entries behind the snapshot one after the other, until one throws; the reader's state with
  -- each.
  unfoldable pub replay_log : List LogEntry → Method l Unit
  replay_log [] db =
      (record db { persistence = record db.persistence { unread = []; good = true } }, ok tt)
  replay_log (e ∷ es) db =
      let p = see_id e.log_id db.persistence in
      if ltb db.persistence.last_snapshot_id e.log_id
      then (replay l upsert_text (document_of e) >>= λ _. replay_log es)
          (record db { persistence = record p { unread = lines (log_text es) } })
      else replay_log es (record db { persistence = p })

  pub replay_log-unread :
      (es : List LogEntry) (db : Database l) (p : Persistence) (ls : List Bytes)
      → replay_log es (record db { persistence = record p { unread = ls } })
        ≡ replay_log es (record db { persistence = p })
  unfolding replay_log
  replay_log-unread [] db p ls = refl
  replay_log-unread (e ∷ es) db p ls =
      rw (see_id-unread e.log_id p ls) (elim (Bool-cases (ltb p.last_snapshot_id e.log_id)) [
        | inl new ↦ rw new
        | inr old ↦ rw old (replay_log-unread es db (see_id e.log_id p) ls)
      ])

  unfoldable pub after_read : Read json → Database l → Database l × Result Bool
  after_read r db =
      let db1 = record db { persistence = r.state } in
      if null r.operation
      then (db1, ok true)
      else (replay l r.operation r.document >>= λ _. pure false) db1

  pub read_next_lem :
      (db : Database l) (r : Read json)
      → read_next_wal_log json db.persistence [] json.null ≡ ok r
      → read_next l db ≡ (record db { persistence = r.state }, ok (r.operation, r.document))
  unfolding read_next
  read_next_lem db r h = rw (h, read_next)

  read_next_wal_log-log_text :
      (es : List LogEntry) (p : Persistence)
      → AllLines es
      → p.unread ≡ lines (log_text es)
      → read_next_wal_log json p [] json.null ≡ ok (first_read es p json.null)
  unfolding read_next_wal_log
  read_next_wal_log-log_text es p h u =
      ap (λ ls. read_lines json ls p [] json.null) u ∙ read_lines-log_text es p [] json.null h

  pub reload_step_lem :
      (db : Database l) (r : Read json)
      → read_next l db ≡ (record db { persistence = r.state }, ok (r.operation, r.document))
      → reload_step l db ≡ after_read r db
  unfolding reload_step after_read ◌>>=◌
  reload_step_lem db r h =
      rw h (elim (Bool-cases (null r.operation)) [ inl end ↦ rw end | inr more ↦ rw more ])

  pub reload_step-log :
      (es : List LogEntry) (db : Database l)
      → AllLines es
      → db.persistence.unread ≡ lines (log_text es)
      → reload_step l db ≡ after_read (first_read es db.persistence json.null) db
  reload_step-log es db h u = reload_step_lem db (first_read es db.persistence json.null) (
      read_next_lem db (first_read es db.persistence json.null)
        (read_next_wal_log-log_text es db.persistence h u))
