-- ===== src/Database/Reload/Rebuilt.antt =====
-- The documents after a reload.
use mathlib.Core.Path.{subst}
use learn_vector_db.Prelude.{
  ℕ, Option, none, some, List, [], ◌∷◌, bytes_eq, ltb, if◌then◌else◌, ◌≡◌, refl, ap, ◌∙◌, arith,
  Bool-cases, Option-cases, inl, inr,
}
use learn_vector_db.Result.{Result, ok, throw, Result-cases}
use learn_vector_db.Exec.{need, continue, ◌>>=◌}
use learn_vector_db.Wal.{Persistence, lines, see_id}
use learn_vector_db.Wal.Lines.{LogEntry, AllLines, log_text, upsert_text}
use learn_vector_db.ScalarStorage.{insert_scalar}
use learn_vector_db.IndexFactory.{Libraries}
use learn_vector_db.Database.{
  Database, Method, upsert, get_index_type_from_request, load_snapshot, request_id,
}
use learn_vector_db.Database.Stored.{upsert-scalars}
use learn_vector_db.Database.Reload.{replay, reload_database}
use learn_vector_db.Database.Reload.Log.{replay_log, document_of}
use learn_vector_db.Database.Reload.InOrder.{replay-Keeps}
use learn_vector_db.Database.Reload.Seen.{
  load_snapshot-persistence, reload_database-log, reload_database-throws,
}

module _ (l : Libraries) where
  open l use {json, rocks}

  -- The document of an entry, stored under its identifier.
  unfoldable pub stored : json.Value → rocks.Db → rocks.Db
  stored document s = elim (json.member document request_id) [
    | none ↦ s
    | some v ↦ elim (json.get_uint64 v) [
      | none ↦ s
      | some id ↦ insert_scalar rocks json id document s
    ]
  ]

  -- The documents of the entries behind identifier `n`, stored one after the other.
  unfoldable pub rebuilt : ℕ → List LogEntry → rocks.Db → rocks.Db
  rebuilt n [] s = s
  rebuilt n (e ∷ es) s = rebuilt n es (if ltb n e.log_id then stored (document_of l e) s else s)

  -- Where the action returned, the scalar storage is `s`.
  abbrev pub ScalarsAfter : rocks.Db → Database l × Result (Unit {0}) → Type 0
  ScalarsAfter s (db, ok a) = db.scalars ≡ s
  ScalarsAfter s (db, throw e) = Unit

  upserted :
      (s s' : rocks.Db) (x : Database l × Result (Unit {0}))
      → x.0.scalars ≡ elim x.1 [ ok _ ↦ s' | throw _ ↦ s ]
      → ScalarsAfter s' x
  upserted s s' (db, ok a) h = h
  upserted s s' (db, throw e) h = tt

  replay-ScalarsAfter :
      (document : json.Value) (db : Database l)
      → ScalarsAfter (stored document db.scalars) (replay l upsert_text document db)
  unfolding stored replay need ◌>>=◌ bytes_eq
  replay-ScalarsAfter document db = elim (Option-cases (json.member document request_id)) [
    | inl missing ↦ rw (missing, replay) tt
    | inr (v, found) ↦ elim (Option-cases (json.get_uint64 v)) [
      | inl no_number ↦ rw (found, no_number, replay) tt
      | inr (id, number) ↦
          rw (found, number, stored, replay)
            (upserted db.scalars (insert_scalar rocks json id document db.scalars)
              (upsert l id document (get_index_type_from_request l document) db)
              (upsert-scalars l id document (get_index_type_from_request l document) db))
    ]
  ]

  -- An action that leaves `t`, and another that makes `s` of it.
  both-ScalarsAfter :
      (s t : rocks.Db) (x : Database l × Result (Unit {0})) (rest : Method l Unit)
      → ScalarsAfter t x
      → (x.0.scalars ≡ t → ScalarsAfter s (rest x.0))
      → ScalarsAfter s (continue x.1 (λ _. rest) x.0)
  both-ScalarsAfter s t (db, ok a) rest h k = k h
  both-ScalarsAfter s t (db, throw e) rest h k = tt

  replay_log-ScalarsAfter :
      (n : ℕ) (es : List LogEntry) (s : rocks.Db) (db : Database l)
      → db.persistence.last_snapshot_id ≡ n
      → db.scalars ≡ s
      → ScalarsAfter (rebuilt n es s) (replay_log l es db)
  unfolding replay_log rebuilt ◌>>=◌
  replay_log-ScalarsAfter n [] s db last same = same
  replay_log-ScalarsAfter n (e ∷ es) s db last same =
      let p = see_id e.log_id db.persistence in
      let db1 : Database l = record db {
        persistence = record p { unread = lines (log_text es) };
      } in
      let m : Method l Unit = replay l upsert_text (document_of l e) in
      let seen : p.last_snapshot_id ≡ n = unfold see_id in ground (arith, last) in
      let new_n : ltb db.persistence.last_snapshot_id e.log_id ≡ ltb n e.log_id =
        ap (λ k. ltb k e.log_id) last in
      elim (Bool-cases (ltb n e.log_id)) [
        | inl new ↦ rw new (
            rw (new_n ∙ new) (
              both-ScalarsAfter (rebuilt n es (stored (document_of l e) s))
                (stored (document_of l e) s) (m db1) (replay_log l es)
                (subst (λ t. ScalarsAfter (stored (document_of l e) t) (m db1)) same
                  (replay-ScalarsAfter (document_of l e) db1))
                (λ k.
                  replay_log-ScalarsAfter n es (stored (document_of l e) s) (m db1).0
                    (ap (λ (q : Persistence). q.last_snapshot_id)
                        ((replay-Keeps l db1.persistence upsert_text (document_of l e)).hold db1
                          refl)
                      ∙ seen)
                    k)))
        | inr old ↦ rw old (
            rw (new_n ∙ old)
              (replay_log-ScalarsAfter n es s (record db { persistence = p }) seen same))
      ]

  load_snapshot-scalars : (db : Database l) → (load_snapshot l db).0.scalars ≡ db.scalars
  unfolding load_snapshot
  load_snapshot-scalars db = ground arith

  -- Where the reload came to an end without a throw.
  abbrev ReloadedScalars : rocks.Db → Option (Database l × Result (Unit {0})) → Type 0
  ReloadedScalars s none = Unit
  ReloadedScalars s (some x) = ScalarsAfter s x

  reload_database-ReloadedScalars :
      (es : List LogEntry) (db : Database l)
      → AllLines es
      → db.persistence.unread ≡ lines (log_text es)
      → ReloadedScalars
          (rebuilt db.persistence.last_snapshot_id es db.scalars)
          (reload_database l db)
  reload_database-ReloadedScalars es db h u = elim (Result-cases (load_snapshot l db).1) [
    | inr (e, bad) ↦ rw (reload_database-throws l e db bad) tt
    | inl (a, good) ↦ rw (reload_database-log l es db h u good) (
        replay_log-ScalarsAfter db.persistence.last_snapshot_id es db.scalars (load_snapshot l db).0
          (ap (λ (q : Persistence). q.last_snapshot_id) (load_snapshot-persistence l db))
          (load_snapshot-scalars db))
  ]

  -- A reload of a log of whole lines that returns has stored the documents of the entries behind the
  -- snapshot, each under its identifier and in the order of the log, on top of the documents that the
  -- database had, and no others.
  pub reload_database-scalars :
      (es : List LogEntry) (db db' : Database l)
      → AllLines es
      → db.persistence.unread ≡ lines (log_text es)
      → reload_database l db ≡ some (db', ok tt)
      → db'.scalars ≡ rebuilt db.persistence.last_snapshot_id es db.scalars
  reload_database-scalars es db db' h u returned =
      subst (ReloadedScalars (rebuilt db.persistence.last_snapshot_id es db.scalars)) returned
        (reload_database-ReloadedScalars es db h u)
