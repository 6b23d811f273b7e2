-- ===== src/Database/Reload/Total.antt =====
-- `reloadDatabase` comes to an end on every log.
use learn_vector_db.Prelude.{
  ℕ, zero, suc, ◌<◌, Bool, true, false, Option, some, List, [], ◌∷◌, Bytes, length, null, ltb, ◌≡◌,
  refl, ap, arith, Bool-cases, inl, inr,
}
use learn_vector_db.Result.{Result, ok, throw, Error, Result-cases}
use learn_vector_db.Exec
use learn_vector_db.Exec.{pure, continue}
use learn_vector_db.Decimal.{stoull}
use learn_vector_db.Wal.{
  Persistence, Read, fields, see_id, read_lines, read_lines_thrown, read_next_wal_log,
}
use learn_vector_db.IndexFactory.{Libraries}
use learn_vector_db.Database.{Database, load_snapshot}
use learn_vector_db.Database.Reload.{
  replay, read_next, reload_step, reload_loop, loop_on, reload_database,
}
use learn_vector_db.Database.Reload.Log.{after_read, read_next_lem, reload_step_lem}
use learn_vector_db.Database.Reload.InOrder.{replay-Keeps}

module _ (l : Libraries) where
  open l use {json}

  -- An entry was read, so that less than `n` lines are left.
  abbrev Consumed : ℕ → Result (Read json) → Type 0
  Consumed n (throw e) = Unit
  Consumed n (ok r) = null r.operation ≡ false → length r.state.unread < n

  Consumed-weaken : (n : ℕ) (r : Result (Read json)) → Consumed n r → Consumed (suc n) r
  Consumed-weaken n (throw e) h = tt
  Consumed-weaken n (ok r) h = λ k. omega (arith, h k)

  read_lines-Consumed :
      (ls : List Bytes) (p : Persistence) (operation : Bytes) (document : json.Value)
      → Consumed (length ls) (read_lines json ls p operation document)
  unfolding read_lines
  read_lines-Consumed [] p operation document = λ k. ground (arith, k)
  read_lines-Consumed (line ∷ rest) p operation document =
      let f = fields operation line in
      elim (Result-cases (stoull f.log_id_str)) [
        | inr (e, bad) ↦ rw bad tt
        | inl (id, good) ↦ elim (Bool-cases (ltb (see_id id p).last_snapshot_id id)) [
          | inl new ↦ rw good (rw new (λ k. omega arith))
          | inr old ↦ rw good (
              rw old (
                Consumed-weaken (length rest) _
                  (read_lines-Consumed rest (see_id id p) f.operation_type document)))
        ]
      ]

  -- Where the loop goes on, less than `n` lines are left.
  abbrev Progress : ℕ → Database l × Result Bool → Type 0
  Progress n (db, throw e) = Unit
  Progress n (db, ok true) = Unit
  Progress n (db, ok false) = length db.persistence.unread < n

  continue-Progress :
      (n : ℕ) (r : Result (Unit {0})) (db : Database l)
      → length db.persistence.unread < n
      → Progress n (continue r (λ _. pure false) db)
  unfolding pure
  continue-Progress n (throw e) db h = tt
  continue-Progress n (ok u) db h = h

  after_read-Progress :
      (n : ℕ) (r : Read json) (db : Database l) → Consumed n (ok r) → Progress n (after_read l r db)
  unfolding after_read Exec.◌>>=◌
  after_read-Progress n r db h = elim (Bool-cases (null r.operation)) [
    | inl end ↦ rw end tt
    | inr more ↦
        let kept : (replay l r.operation r.document
              (record db { persistence = r.state })).0.persistence
            ≡ r.state =
          (replay-Keeps l r.state r.operation r.document).hold (record db { persistence = r.state })
            refl in
        rw more (
          continue-Progress n _ _
            (omega (arith, h more, ap (λ (p : Persistence). length p.unread) kept)))
  ]

  read_next_throws :
      (db : Database l) (e : Error)
      → read_next_wal_log json db.persistence [] json.null ≡ throw e
      → read_next l db ≡ (
        record db { persistence = read_lines_thrown json db.persistence.unread db.persistence },
        throw e,
      )
  unfolding read_next
  read_next_throws db e h = rw (h, read_next)

  reload_step_throws :
      (db db' : Database l) (e : Error)
      → read_next l db ≡ (db', throw e)
      → reload_step l db ≡ (db', throw e)
  unfolding reload_step Exec.◌>>=◌
  reload_step_throws db db' e h = rw h

  reload_step-Progress :
      (db : Database l) → Progress (length db.persistence.unread) (reload_step l db)
  unfolding read_next_wal_log
  reload_step-Progress db =
      elim (Result-cases (read_lines json db.persistence.unread db.persistence [] json.null)) [
        | inr (e, bad) ↦ rw (reload_step_throws db _ e (read_next_throws db e bad)) tt
        | inl (r, good) ↦ rw (reload_step_lem l db r (read_next_lem l db r good)) (
            after_read-Progress (length db.persistence.unread) r db
              (rw good at (read_lines-Consumed db.persistence.unread db.persistence [] json.null)))
      ]

  loop_on-some :
      (n : ℕ) (again : Database l → Option (Database l × Result (Unit {0})))
      (x : Database l × Result Bool)
      → ((db : Database l)
          → length db.persistence.unread < n
          → (y : Database l × Result (Unit {0})) × (again db ≡ some y))
      → Progress n x
      → (y : Database l × Result (Unit {0})) × (loop_on l again x ≡ some y)
  loop_on-some n again (db, throw e) h progress = ((db, throw e), refl)
  loop_on-some n again (db, ok true) h progress = ((db, ok tt), refl)
  loop_on-some n again (db, ok false) h progress = h db progress

  -- More rounds than there are lines left are enough for the loop to end.
  pub reload_loop_total :
      (fuel : ℕ) (db : Database l)
      → length db.persistence.unread < fuel
      → (y : Database l × Result (Unit {0})) × (reload_loop l fuel db ≡ some y)
  unfolding reload_loop
  reload_loop_total zero db h = elim h [ ]
  reload_loop_total (suc fuel) db h =
      loop_on-some (length db.persistence.unread) (reload_loop l fuel) (reload_step l db)
        (λ db' less. reload_loop_total fuel db' (omega (arith, less, h))) (reload_step-Progress db)

  after_snapshot :
      (x : Database l × Result (Unit {0}))
      → (y : Database l × Result (Unit {0})) × ((elim x.1 [
        | throw e ↦ some (x.0, throw e)
        | ok _ ↦ reload_loop l (suc (length x.0.persistence.unread)) x.0
      ])
          ≡ some y)
  after_snapshot (db, throw e) = ((db, throw e), refl)
  after_snapshot (db, ok u) =
      reload_loop_total (suc (length db.persistence.unread)) db (omega arith)

  -- Reloading comes to an end on every log and every snapshot, with a database or by a throw: its
  -- fuel does not run out.
  pub reload_database_total :
      (db : Database l) → (y : Database l × Result (Unit {0})) × (reload_database l db ≡ some y)
  unfolding reload_database
  reload_database_total db = after_snapshot (load_snapshot l db)
