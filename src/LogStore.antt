-- ===== src/LogStore.antt =====
-- `inmem_log_store` of in_memory_log_store.h and in_memory_log_store.cpp. The logger and the locks
-- are not modelled: a method is one step. The write-ahead log of the database that the store
-- points to is passed in and out; the time of `get_timeofday_us` is an argument.
pub mod Run
pub mod Refine
pub mod Writes
pub mod Reads
pub mod Compact
pub mod Pack
pub mod Batch
pub mod Disk
pub mod Progress
pub mod Start
pub mod Spec
pub mod Wrote
pub mod Simulation
use learn_vector_db.Prelude.{
  ℕ, zero, suc, ◌+◌, ◌-◌, ◌*◌, ◌%◌, ◌^◌, Bool, true, false, not, ◌&&◌, Option, none, some, List, [],
  ◌∷◌, ◌++◌, Bytes, codes, length, take, drop, keep, null, ◌==◌, ltb, leb, if◌then◌else◌, nat_key,
}
use learn_vector_db.Result.{Result, ok, throw, length_error, out_of_range, require, ◌>>=◌, ◌>>◌}
use learn_vector_db.StdMap.{StdMap, find, insert, erase, erase_from_lower_bound, upper_bound}
use learn_vector_db.Json.{ℤ, pos, negsuc}
use learn_vector_db.Raft.{Raft}
use learn_vector_db.Wal.{Persistence, get_id, write_wal_raw_log}

abbrev pub wrap64 : ℕ → ℕ
wrap64 n = n % 2 ^ 64

-- `VectorDatabase::writeWALLogWithID`.
unfoldable pub write_wal_log_with_id : ℕ → Bytes → Persistence → Persistence
write_wal_log_with_id log_id text = write_wal_raw_log log_id (codes "upsert") text (codes "1.0")

module _ (r : Raft) where
  open r use {Buffer, Entry}

  pub record LogStore : Type 0 where
    pub logs : StdMap ℕ Entry
    pub start_idx : ℕ
    pub disk_emul_delay : ℕ
    -- time at which the write ends, and index of the log
    pub logs_being_written : StdMap ℕ ℕ
    pub last_durable : ℕ
    pub thread_started : Bool

  abbrev pub Step : Type 0 → Type 0
  Step A = LogStore × Persistence × Result A

  unfoldable pub init : Persistence → LogStore
  init p = record {
    logs = insert 0 (r.plain_entry 0 r.blank) [];
    start_idx = wrap64 (get_id p + 1);
    disk_emul_delay = 0;
    logs_being_written = [];
    last_durable = 0;
    thread_started = false;
  }

  unfoldable pub make_clone : Entry → Entry
  make_clone e =
      r.log_entry (r.get_term e) (r.clone (r.get_buf e)) (r.get_val_type e) (r.get_timestamp e)
        (r.has_crc32 e) (r.get_crc32 e)

  unfoldable pub next_slot : LogStore → ℕ
  next_slot s = wrap64 (s.start_idx + length s.logs + (2 ^ 64 - 1))

  abbrev pub start_index : LogStore → ℕ
  start_index s = s.start_idx

  -- An entry, or the dummy of index 0; a store without one is read through its end.
  unfoldable pub entry_or_dummy : ℕ → LogStore → Result Entry
  entry_or_dummy index s = elim (find index s.logs) [
    | some e ↦ ok e
    | none ↦ require (find 0 s.logs)
  ]

  unfoldable pub last_entry : LogStore → Result Entry
  last_entry s = do e ← entry_or_dummy (wrap64 (next_slot s + (2 ^ 64 - 1))) s; ok (make_clone e)

  unfoldable pub entry_at : ℕ → LogStore → Result Entry
  entry_at index s = do e ← entry_or_dummy index s; ok (make_clone e)

  unfoldable pub term_at : ℕ → LogStore → Result ℕ
  term_at index s = do e ← entry_or_dummy index s; ok (r.get_term e)

  -- The string behind the prefix of four bytes; its length wraps below zero in a shorter buffer.
  unfoldable pub payload : Buffer → Result Bytes
  payload b =
      let bytes = r.contents b in
      if ltb (length bytes) 4 then throw length_error else ok (drop 4 bytes)

  unfoldable pub start_write : ℕ → ℕ → LogStore → LogStore
  start_write now idx s = if s.disk_emul_delay == 0 then s else record s {
    logs_being_written = insert (wrap64 (now + s.disk_emul_delay * 1000)) idx s.logs_being_written;
  }

  unfoldable pub append : ℕ → Entry → LogStore → Persistence → Step ℕ
  append now entry s p =
      let clone = make_clone entry in
      let idx = next_slot s in
      let s' = record s { logs = insert idx clone s.logs } in
      if r.is_app_log (r.get_val_type entry)
      then elim (payload (r.get_buf clone)) [
        | throw e ↦ (s', p, throw e)
        | ok text ↦ (start_write now idx s', write_wal_log_with_id idx text p, ok idx)
      ]
      else (start_write now idx s', p, ok idx)

  -- In `write_at` the emulated writes of greater indices are dropped.
  unfoldable pub restart_write : ℕ → ℕ → LogStore → LogStore
  restart_write now index s = if s.disk_emul_delay == 0 then s else record s {
    logs_being_written =
        keep (λ w. leb w.1 index)
          (insert (wrap64 (now + s.disk_emul_delay * 1000)) index s.logs_being_written);
  }

  unfoldable pub write_at : ℕ → ℕ → Entry → LogStore → Persistence → Step Unit
  write_at now index entry s p =
      let clone = make_clone entry in
      let s' = record s { logs = insert index clone (erase_from_lower_bound index s.logs) } in
      elim (payload (r.get_buf clone)) [
        | throw e ↦ (s', p, throw e)
        | ok text ↦ (
          restart_write now index s',
          (if r.is_app_log (r.get_val_type entry) then write_wal_log_with_id index text p else p),
          ok tt,
        )
      ]

  -- The loop of `log_entries`: `assert(0)` where an index is missing.
  unfoldable pub collect : ℕ → ℕ → StdMap ℕ Entry → Result (List Entry)
  collect zero ii logs = ok []
  collect (suc rounds) ii logs = do
    src ← require (find ii logs)
    rest ← collect rounds (ii + 1) logs
    ok (make_clone src ∷ rest)

  -- Where `end < start`, `ret->resize(end - start)` wraps to a size that is too large for a vector:
  -- this is so for a `start` below 2 ^ 63, and greater ones are not modelled.
  unfoldable pub log_entries : ℕ → ℕ → LogStore → Result (List Entry)
  log_entries start end s =
      if ltb end start then throw length_error else collect (end - start) start s.logs

  unfoldable pub collect_ext : ℕ → ℕ → ℕ → ℕ → StdMap ℕ Entry → Result (List Entry)
  collect_ext zero ii accum_size hint logs = ok []
  collect_ext (suc rounds) ii accum_size hint logs = do
    src ← require (find ii logs)
    let total = accum_size + length (r.contents (r.get_buf src))
    rest ←
        (if not (hint == 0) && leb hint total
          then ok []
          else collect_ext rounds (ii + 1) total hint logs)
    ok (make_clone src ∷ rest)

  unfoldable pub log_entries_ext : ℕ → ℕ → ℤ → LogStore → Result (List Entry)
  log_entries_ext start end (negsuc n) s = ok []
  log_entries_ext start end (pos hint) s = collect_ext (end - start) start 0 hint s.logs

  -- The loop of `compact`.
  unfoldable pub erase_range : ℕ → ℕ → StdMap ℕ Entry → StdMap ℕ Entry
  erase_range zero ii logs = logs
  erase_range (suc rounds) ii logs = erase_range rounds (ii + 1) (erase ii logs)

  unfoldable pub compact : ℕ → LogStore → LogStore × Bool
  compact last_log_index s = (
    record s {
      logs = erase_range (last_log_index + 1 - s.start_idx) s.start_idx s.logs;
      start_idx =
          if leb s.start_idx last_log_index then wrap64 (last_log_index + 1) else s.start_idx;
    },
    true,
  )

  unfoldable pub serialize_range : ℕ → ℕ → StdMap ℕ Entry → Result (List Bytes)
  serialize_range zero ii logs = ok []
  serialize_range (suc rounds) ii logs = do
    le ← require (find ii logs)
    rest ← serialize_range rounds (ii + 1) logs
    ok (r.serialize le ∷ rest)

  unfoldable pub put_all : List Bytes → Bytes
  put_all [] = []
  put_all (b ∷ bs) = r.put_int (pos (length b)) ++ (b ++ put_all bs)

  unfoldable pub pack : ℕ → ℕ → LogStore → Result Bytes
  pack index cnt s = do
    logs ← serialize_range (wrap64 (index + cnt) - index) index s.logs
    ok (r.put_int (pos cnt) ++ put_all logs)

  -- `pack.get_int()` and `pack.get(buf)`: NuRaft throws where too few bytes are left.
  unfoldable pub read_int : Bytes → Result (ℤ × Bytes)
  read_int s = elim (r.get_int s) [ some x ↦ ok x | none ↦ throw out_of_range ]

  unfoldable pub read_bytes : ℤ → Bytes → Result (Bytes × Bytes)
  read_bytes (negsuc n) s = throw length_error
  read_bytes (pos n) s = if leb n (length s) then ok (take n s, drop n s) else throw out_of_range

  unfoldable pub read_buf : Bytes → Result (Bytes × Bytes)
  read_buf s = do (buf_size, rest) ← read_int s; read_bytes buf_size rest

  -- The loop of `apply_pack`; the entries that stand before a throw stay.
  unfoldable pub unpack : ℕ → ℕ → Bytes → StdMap ℕ Entry → StdMap ℕ Entry × Result (Unit {0})
  unpack zero cur_idx s logs = (logs, ok tt)
  unpack (suc rounds) cur_idx s logs = elim (read_buf s) [
    | throw e ↦ (logs, throw e)
    | ok (buf_local, rest) ↦
        unpack rounds (wrap64 (cur_idx + 1)) rest (insert cur_idx (r.deserialize buf_local) logs)
  ]

  abbrev pub rounds_of : ℤ → ℕ
  rounds_of (pos n) = n
  rounds_of (negsuc n) = 0

  unfoldable pub unpacked :
      StdMap ℕ Entry × Result (Unit {0}) → LogStore → LogStore × Result (Unit {0})
  unpacked (logs, throw e) s = (record s { logs = logs }, throw e)
  unpacked (logs, ok _) s = (
    record s { logs = logs; start_idx = elim (upper_bound 0 logs) [ some e ↦ e.0 | none ↦ 1 ] },
    ok tt,
  )

  unfoldable pub apply_pack : ℕ → Bytes → LogStore → LogStore × Result (Unit {0})
  apply_pack index bytes s = elim (read_int bytes) [
    | throw e ↦ (s, throw e)
    | ok (num_logs, rest) ↦ unpacked (unpack (rounds_of num_logs) index rest s.logs) s
  ]

  unfoldable pub flush : LogStore → LogStore × Bool
  flush s = (record s { last_durable = wrap64 (next_slot s + (2 ^ 64 - 1)) }, true)

  unfoldable pub last_durable_index : LogStore → ℕ
  last_durable_index s =
      if s.disk_emul_delay == 0 then wrap64 (next_slot s + (2 ^ 64 - 1)) else s.last_durable

  unfoldable pub set_disk_delay : ℕ → LogStore → LogStore
  set_disk_delay delay_ms s = record s { disk_emul_delay = delay_ms; thread_started = true }

  -- The inner loop of `disk_emul_loop`: the writes that are done, and what stays.
  unfoldable pub finish_writes : ℕ → StdMap ℕ ℕ → ℕ → Bool → StdMap ℕ ℕ × ℕ × Bool
  finish_writes cur_time [] durable notify = ([], durable, notify)
  finish_writes cur_time ((t, idx) ∷ rest) durable notify =
      let next = finish_writes cur_time rest idx true in
      if leb t cur_time then next else ((t, idx) ∷ rest, durable, notify)

  -- One round of `disk_emul_loop`: the store, whether the server is notified, the next sleep in us.
  unfoldable pub disk_emul_round : ℕ → LogStore → LogStore × Bool × ℕ
  disk_emul_round cur_time s =
      let (left, durable, notify) =
        finish_writes cur_time s.logs_being_written s.last_durable false in
      (
        record s { logs_being_written = left; last_durable = durable },
        notify,
        elim left [ [] ↦ 100 * 1000 | w ∷ ws ↦ w.0 - cur_time ],
      )
