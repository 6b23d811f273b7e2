-- ===== src/LogStore/Wrote.antt =====
-- The write-ahead log along the operations of the log store.
use learn_vector_db.Prelude.{
  ℕ, Bool, true, false, List, [], ◌∷◌, ◌++◌, Bytes, if◌then◌else◌, ◌≡◌, refl, sym, ap, ◌∙◌,
}
use mathlib.Core.List.{append-nil}
use learn_vector_db.Result.{Result, ok, throw}
use learn_vector_db.Wal.{Persistence, write_wal_raw_log, wal_line}
use learn_vector_db.Wal.Lines.{
  LogEntry, log_text, log_text-append, log_text-one, version_text, upsert_text,
}
use learn_vector_db.LogStore.{write_wal_log_with_id}
use learn_vector_db.LogStore.Writes.{logged}
use learn_vector_db.LogStore.Spec.{noted}

-- The write-ahead log has just these lines, and nothing else of `Persistence` has changed since `p`.
pub record Wrote (p : Persistence) (written : List LogEntry) (q : Persistence) : Type 0 where
  pub content_same : q.content ≡ log_text written
  pub still_good : q.good ≡ true
  pub same_increase : q.increase_id ≡ p.increase_id
  pub same_snapshot : q.last_snapshot_id ≡ p.last_snapshot_id
  pub same_file : q.max_log_id_file ≡ p.max_log_id_file

module _ {p : Persistence} {written : List LogEntry} where
  write-Wrote :
      (index : ℕ) (text : Bytes) (q : Persistence)
      → Wrote p written q
      → Wrote p
          (written ++ record { log_id = index; text = text } ∷ [])
          (write_wal_log_with_id index text q)
  unfolding write_wal_log_with_id write_wal_raw_log
  write-Wrote index text q h = rw h.still_good (record {
    content_same =
        ap (λ c. c ++ wal_line index version_text upsert_text text) h.content_same
        ∙ ap (◌++◌ (log_text written)) (sym (log_text-one (record { log_id = index; text = text })))
        ∙ sym (log_text-append written (record { log_id = index; text = text } ∷ []));
    still_good = refl;
    same_increase = h.same_increase;
    same_snapshot = h.same_snapshot;
    same_file = h.same_file;
  })

  pub logged-Wrote :
      (b : Bool) (x : Result Bytes) (index : ℕ) (q : Persistence)
      → Wrote p written q
      → Wrote p (written ++ noted b x index) (if b then logged x index q else q)
  unfolding noted
  logged-Wrote true (ok text) index q h = write-Wrote index text q h
  logged-Wrote true (throw e) index q h = rw (append-nil written) h
  logged-Wrote false x index q h = rw (append-nil written) h
