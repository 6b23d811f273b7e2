-- ===== src/Database/Reload/Seen.antt =====
-- What reloading a log of whole lines does to the write-ahead log.
use learn_vector_db.Prelude.{
  suc, ◌≤◌, true, some, List, [], ◌∷◌, Bytes, length, ltb, ◌≡◌, refl, ap, ◌∙◌, arith, Bool-cases,
  inl, inr,
}
use mathlib.Core.Path.{subst}
use learn_vector_db.Result.{Result, Error, ok, throw}
use learn_vector_db.Exec.{continue, ◌>>=◌}
use learn_vector_db.Wal.ReadBack.{lines-wal_line}
use learn_vector_db.Wal.{Persistence, lines, see_id}
use learn_vector_db.Wal.Lines.{LogEntry, AllLines, log_text, version_text, upsert_text, last_id}
use learn_vector_db.IndexFactory.{Libraries}
use learn_vector_db.Database.{Database, Method, load_snapshot}
use learn_vector_db.Database.Reload.{replay, reload_database}
use learn_vector_db.Database.Reload.Log.{replay_log, document_of}
use learn_vector_db.Database.Reload.InOrder.{replay-Keeps, reload_loop-log}

-- The file as it was, and the identifiers of `es` seen.
pub record Seen (es : List LogEntry) (p q : Persistence) : Type 0 where
  pub same_content : q.content ≡ p.content
  pub now_good : q.good ≡ true
  pub seen_id : q.increase_id ≡ last_id es p.increase_id
  pub same_file : q.max_log_id_file ≡ p.max_log_id_file

Seen-cons :
    (e : LogEntry) (es : List LogEntry) (p q : Persistence) (ls : List Bytes)
    → Seen es (record (see_id e.log_id p) { unread = ls }) q
    → Seen (e ∷ es) p q
unfolding see_id last_id
Seen-cons e es p q ls h = record {
  same_content = ground (arith, h.same_content);
  now_good = h.now_good;
  seen_id = ground (arith, h.seen_id);
  same_file = ground (arith, h.same_file);
}

module _ (l : Libraries) where
  open l use {json}

  -- Where the action returned.
  abbrev pub SeenAfter : List LogEntry → Persistence → Database l × Result (Unit {0}) → Type 0
  SeenAfter es p (db, ok a) = Seen es p db.persistence
  SeenAfter es p (db, throw e) = Unit

  continue-SeenAfter :
      (es : List LogEntry) (p : Persistence) (x : Result (Unit {0})) (rest : Method l Unit)
      (db : Database l)
      → SeenAfter es p (rest db)
      → SeenAfter es p (continue x (λ _. rest) db)
  continue-SeenAfter es p (ok a) rest db h = h
  continue-SeenAfter es p (throw e) rest db h = tt

  bind-SeenAfter :
      (es : List LogEntry) (p : Persistence) (m rest : Method l Unit) (db : Database l)
      → SeenAfter es p (rest (m db).0)
      → SeenAfter es p ((m >>= λ _. rest) db)
  unfolding ◌>>=◌
  bind-SeenAfter es p m rest db h = continue-SeenAfter es p (m db).1 rest (m db).0 h

  SeenAfter-cons :
      (e : LogEntry) (es : List LogEntry) (p : Persistence) (ls : List Bytes)
      (x : Database l × Result (Unit {0}))
      → SeenAfter es (record (see_id e.log_id p) { unread = ls }) x
      → SeenAfter (e ∷ es) p x
  SeenAfter-cons e es p ls (db, ok a) h = Seen-cons e es p db.persistence ls h
  SeenAfter-cons e es p ls (db, throw error) h = tt

  -- A replay that returns leaves the log file as it was and has seen every identifier.
  pub replay_log-Seen :
      (es : List LogEntry) (db : Database l) → SeenAfter es db.persistence (replay_log l es db)
  unfolding replay_log
  replay_log-Seen [] db =
      unfold last_id in
      record { same_content = refl; now_good = refl; seen_id = refl; same_file = refl }
  replay_log-Seen (e ∷ es) db =
      let p = see_id e.log_id db.persistence in
      let db1 : Database l = record db {
        persistence = record p { unread = lines (log_text es) };
      } in
      let m : Method l Unit = replay l upsert_text (document_of l e) in
      elim (Bool-cases (ltb db.persistence.last_snapshot_id e.log_id)) [
        | inl new ↦ rw new (
            bind-SeenAfter (e ∷ es) db.persistence m (replay_log l es) db1 (
              SeenAfter-cons e es db.persistence (lines (log_text es)) (replay_log l es (m db1).0) (
                subst (λ q. SeenAfter es q (replay_log l es (m db1).0))
                  ((replay-Keeps l db1.persistence upsert_text (document_of l e)).hold db1 refl)
                  (replay_log-Seen es (m db1).0))))
        | inr old ↦ rw old (
            SeenAfter-cons e es db.persistence p.unread
              (replay_log l es (record db { persistence = p }))
              (replay_log-Seen es (record db { persistence = p })))
      ]

  pub load_snapshot-persistence :
      (db : Database l) → (load_snapshot l db).0.persistence ≡ db.persistence
  unfolding load_snapshot
  load_snapshot-persistence db = ground arith

  length-lines : (es : List LogEntry) → AllLines es → length es ≤ length (lines (log_text es))
  unfolding log_text lines
  length-lines [] h = omega arith
  length-lines (e ∷ es) h = omega (
    arith,
    ap length (lines-wal_line e.log_id version_text upsert_text e.text h.0 (log_text es)),
    length-lines es h.1,
  )

  -- The snapshot, and behind it the replay of a log of whole lines.
  pub reload_database-log :
      (es : List LogEntry) (db : Database l)
      → AllLines es
      → db.persistence.unread ≡ lines (log_text es)
      → (load_snapshot l db).1 ≡ ok tt
      → reload_database l db ≡ some (replay_log l es (load_snapshot l db).0)
  unfolding reload_database
  reload_database-log es db h u loaded =
      let u' : (load_snapshot l db).0.persistence.unread ≡ lines (log_text es) =
        ap (λ (p : Persistence). p.unread) (load_snapshot-persistence db) ∙ u in
      rw (loaded, reload_database)
        (reload_loop-log l (suc (length (load_snapshot l db).0.persistence.unread)) es
          (load_snapshot l db).0 h u' (omega (arith, ap length u', length-lines es h)))

  -- A snapshot that does not load ends the reload.
  pub reload_database-throws :
      (e : Error) (db : Database l)
      → (load_snapshot l db).1 ≡ throw e
      → reload_database l db ≡ some ((load_snapshot l db).0, throw e)
  unfolding reload_database
  reload_database-throws e db h = rw (h, reload_database)
