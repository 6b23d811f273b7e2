-- ===== src/LogStore/Spec.antt =====
-- What a log store promises NuRaft: a list of entries from a start index on, and what was written to
-- the write-ahead log on the way; and the operations of NuRaft on both.
use learn_vector_db.Prelude.{
  ℕ, ◌+◌, ◌-◌, ◌^◌, ◌≤◌, ◌<◌, Bool, true, false, List, [], ◌∷◌, ◌++◌, Bytes, length, take, drop,
  leb, if◌then◌else◌,
}
use learn_vector_db.Result.{Result, ok, throw}
use learn_vector_db.Raft.{Raft}
use learn_vector_db.Wal.{Persistence}
use learn_vector_db.Wal.Lines.{LogEntry}
use learn_vector_db.LogStore.{
  LogStore, payload, append, write_at, compact, apply_pack, flush, set_disk_delay, disk_emul_round,
}
use learn_vector_db.LogStore.Run.{overwrite}
use learn_vector_db.LogStore.Pack.{packed, sent, Fits}

-- What an entry adds to the write-ahead log: its text, if it is an application entry with one.
unfoldable pub noted : Bool → Result Bytes → ℕ → List LogEntry
noted false x index = []
noted true (throw e) index = []
noted true (ok text) index = record { log_id = index; text = text } ∷ []

module _ (r : Raft) where
  -- The calls that change a store, each with the time at which it is made where that matters.
  pub data Op : Type 0 where
    append_op : ℕ → r.Entry → Op
    write_at_op : ℕ → ℕ → r.Entry → Op
    compact_op : ℕ → Op
    -- `apply_pack` of a pack of these entries
    pack_op : ℕ → List r.Entry → Op
    flush_op : Op
    delay_op : ℕ → Op
    round_op : ℕ → Op

  -- The store and the write-ahead log that it writes to.
  abbrev pub Stored : Type 0
  Stored = LogStore r × Persistence

  unfoldable pub apply_op : Op → Stored → Stored
  apply_op (append_op now e) (s, p) = let (s', p', _) = append r now e s p in (s', p')
  apply_op (write_at_op now index e) (s, p) =
      let (s', p', _) = write_at r now index e s p in (s', p')
  apply_op (compact_op last) (s, p) = ((compact r last s).0, p)
  apply_op (pack_op index es) (s, p) = ((apply_pack r index (packed r es) s).0, p)
  apply_op flush_op (s, p) = ((flush r s).0, p)
  apply_op (delay_op ms) (s, p) = (set_disk_delay r ms s, p)
  apply_op (round_op time) (s, p) = ((disk_emul_round r time s).0, p)

  unfoldable pub apply_ops : List Op → Stored → Stored
  apply_ops [] x = x
  apply_ops (op ∷ ops) x = apply_ops ops (apply_op op x)

  pub record Log : Type 0 where
    pub start : ℕ
    pub entries : List r.Entry
    pub written : List LogEntry

  unfoldable pub note : r.Entry → ℕ → List LogEntry
  note e index = noted (r.is_app_log (r.get_val_type e)) (payload r (r.get_buf e)) index

  unfoldable pub step : Op → Log → Log
  step (append_op now e) a = record a {
    entries = a.entries ++ e ∷ [];
    written = a.written ++ note e (a.start + length a.entries);
  }
  step (write_at_op now index e) a = record a {
    entries = take (index - a.start) a.entries ++ e ∷ [];
    written = a.written ++ note e index;
  }
  step (compact_op last) a = record a {
    start = if leb a.start last then last + 1 else a.start;
    entries = drop (last + 1 - a.start) a.entries;
  }
  step (pack_op index es) a = record a {
    entries = overwrite (index - a.start) (sent r es) a.entries;
  }
  step flush_op a = a
  step (delay_op ms) a = a
  step (round_op time) a = a

  unfoldable pub steps : List Op → Log → Log
  steps [] a = a
  steps (op ∷ ops) a = steps ops (step op a)

  -- What NuRaft keeps to: it overwrites an index of the store or the next one, a pack of at least one
  -- entry begins at such an index too, and its indices have 64 bits.
  abbrev pub Allowed : Op → Log → Type 0
  Allowed (append_op now e) a = a.start + length a.entries + 1 < 2 ^ 64
  Allowed (write_at_op now index e) a =
      (a.start ≤ index) × (index ≤ a.start + length a.entries) × (index + 1 < 2 ^ 64)
  Allowed (compact_op last) a = last + 1 < 2 ^ 64
  Allowed (pack_op index es) a =
      (a.start ≤ index)
      × (index ≤ a.start + length a.entries)
      × (a.start + length (overwrite (index - a.start) (sent r es) a.entries) < 2 ^ 64)
      × (0 < length es)
      × (length es < 2 ^ 31)
      × (index + length es < 2 ^ 64)
      × Fits r es
  Allowed flush_op a = Unit
  Allowed (delay_op ms) a = Unit
  Allowed (round_op time) a = Unit

  abbrev pub AllAllowed : List Op → Log → Type 0
  AllAllowed [] a = Unit
  AllAllowed (op ∷ ops) a = Allowed op a × AllAllowed ops (step op a)
