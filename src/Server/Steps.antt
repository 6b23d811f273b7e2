-- ===== src/Server/Steps.antt =====
-- What one event does to the lines of the log, and to the write-ahead log of the process.
use mathlib.Core.List.{append_assoc}
use learn_vector_db.Prelude.{
  ℕ, ◌+◌, ◌≤◌, ◌<◌, Bool, true, false, List, ◌++◌, Bytes, length, ◌≡◌, refl, ap, ◌∙◌, arith, inl,
  inr, Option-cases,
}
use learn_vector_db.Result.{Result, ok, throw}
use learn_vector_db.Raft.{Raft}
use learn_vector_db.Wal.{Persistence, save_last_snapshot_id}
use learn_vector_db.Wal.Lines.{LogEntry, AllAbove, AllAbove-append, extract-to_string, last_id}
use learn_vector_db.LogStore.{payload}
use learn_vector_db.LogStore.Spec.{
  Op, append_op, write_at_op, compact_op, pack_op, flush_op, delay_op, round_op, Log, step, note,
  noted, Allowed,
}
use learn_vector_db.IndexFactory.{Libraries}
use learn_vector_db.RaftStuff.{RaftServer, Node, content_of, commit, commit_document}
use learn_vector_db.Exec.{lift}
use learn_vector_db.Exec.Keeps.{Keeps-bind, Keeps-need, Keeps-pure}
use learn_vector_db.Json.{c_str}
use learn_vector_db.Decimal.{max_u64}
use learn_vector_db.Database.{get_index_type_from_request}
use learn_vector_db.Database.Stored.{upsert-persistence}
use learn_vector_db.HttpServer.Quiet.{Quiet, Keeps-modify, in_database-Quiet}
use learn_vector_db.HttpServer.Logged.{snapped}
use learn_vector_db.Server.Events.{Behind, file_id}

pub snapped_file :
    (writable : Bool) (p : Persistence) (n : ℕ)
    → p.increase_id ≡ n
    → n ≤ max_u64
    → file_id p.max_log_id_file ≤ n
    → file_id (snapped writable p).max_log_id_file ≤ n
unfolding snapped save_last_snapshot_id
snapped_file true p n same fits h =
    omega (arith, extract-to_string p.increase_id (omega (arith, same, fits)), same)
snapped_file false p n same fits h = h

pub snapped_rest :
    (writable : Bool) (p : Persistence)
    → ((snapped writable p).content ≡ p.content)
      × ((snapped writable p).good ≡ p.good)
      × ((snapped writable p).increase_id ≡ p.increase_id)
unfolding snapped save_last_snapshot_id
snapped_rest true p = (refl, refl, refl)
snapped_rest false p = (refl, refl, refl)

module _ (r : Raft) where
  noted-AllAbove :
      (b : Bool) (x : Result Bytes) (n index : ℕ) → n < index → AllAbove n (noted b x index)
  unfolding noted
  noted-AllAbove false x n index h = tt
  noted-AllAbove true (throw e) n index h = tt
  noted-AllAbove true (ok text) n index h = (h, tt)

  note-AllAbove : (e : r.Entry) (n index : ℕ) → n < index → AllAbove n (note r e index)
  unfolding note
  note-AllAbove e n index h =
      noted-AllAbove (r.is_app_log (r.get_val_type e)) (payload r (r.get_buf e)) n index h

  module _ {es : List LogEntry} where
    noted-Behind :
        (e : r.Entry) (index : ℕ) (a b : Log r)
        → b.written ≡ a.written ++ note r e index
        → b.start ≡ a.start
        → a.start ≤ index
        → Behind r es a
        → Behind r es b
    noted-Behind e index a b w s bound h = record {
      new = h.new ++ note r e index;
      written_same =
          w ∙ ap (λ x. x ++ note r e index) h.written_same ∙ append_assoc es h.new (note r e index);
      all_above =
          AllAbove-append (last_id es 10) h.new (note r e index) h.all_above
            (note-AllAbove e (last_id es 10) index (omega (arith, h.start_above, bound)));
      start_above = omega (arith, h.start_above, s);
    }

    pub step-Behind :
        (op : Op r) (a : Log r) → Allowed r op a → Behind r es a → Behind r es (step r op a)
    unfolding step
    step-Behind (append_op now e) a k h =
        noted-Behind e (a.start + length a.entries) a _ refl refl (omega arith) h
    step-Behind (write_at_op now index e) a k h = noted-Behind e index a _ refl refl k.0 h
    step-Behind (compact_op last) a k h = record {
      new = h.new;
      written_same = h.written_same;
      all_above = h.all_above;
      start_above = ground (arith, h.start_above);
    }
    step-Behind (pack_op index es) a k h = record {
      new = h.new;
      written_same = h.written_same;
      all_above = h.all_above;
      start_above = h.start_above;
    }
    step-Behind flush_op a k h = h
    step-Behind (delay_op ms) a k h = h
    step-Behind (round_op time) a k h = h

module _ (l : Libraries) (rs : RaftServer) where
  open l use {json}

  commit_document-Quiet :
      (p : Persistence) (index : ℕ) (request : json.Value)
      → Quiet l rs (λ db. db.persistence ≡ p) (commit_document l rs index request)
  unfolding commit_document
  commit_document-Quiet p index request = Keeps-bind _ _ (Keeps-need _) (λ v.
      Keeps-bind _ _ (Keeps-need _) (λ label. Keeps-bind _ _ (Keeps-modify _ (λ n h. h)) (λ _.
        Keeps-bind _ _
          (in_database-Quiet l rs (λ db. db.persistence ≡ p) _
            (record {
              hold = λ db h.
                  upsert-persistence l label request (get_index_type_from_request l request) db ∙ h;
            }))
          (λ _. Keeps-pure _))))

  pub commit-persistence :
      (index : ℕ) (text : Bytes) (n : Node l rs)
      → (commit l rs index text n).0.database.persistence ≡ n.database.persistence
  unfolding commit
  commit-persistence index text n = elim (Option-cases (content_of l rs text)) [
    | inl short ↦ rw (short, commit) (unfold lift in refl)
    | inr (content, found) ↦
        rw (found, commit)
          ((commit_document-Quiet n.database.persistence index (json.parse (c_str content))).hold n
            refl)
  ]
