-- ===== src/Tests/LogStores.antt =====
-- The theorems on the log store, at a store with two entries behind its dummy.
use learn_vector_db.Prelude.{
  ℕ, true, false, none, some, List, [], ◌∷◌, ◌++◌, Bytes, codes, take, ◌≡◌, refl, arith, nat_key,
}
use learn_vector_db.Result.{ok, ◌>>=◌}
use learn_vector_db.Json.{pos}
use learn_vector_db.Wal.{Persistence}
use learn_vector_db.LogStore.{
  LogStore, append, write_at, payload, pack, apply_pack, log_entries, log_entries_ext,
  disk_emul_round,
}
use learn_vector_db.LogStore.{next_slot}
use learn_vector_db.LogStore.Run.{run}
use learn_vector_db.LogStore.Refine.{Represents}
use learn_vector_db.LogStore.Writes.{append_refines, write_at_refines, logged}
use learn_vector_db.LogStore.Pack.{AllAlike, apply_pack-pack}
use learn_vector_db.LogStore.Reads.{log_entries_lem}
use learn_vector_db.LogStore.Batch.{log_entries_ext_lem, IsBatch}
use learn_vector_db.LogStore.{make_clone, start_write, write_wal_log_with_id}
use learn_vector_db.StdMap.{find, insert}
use learn_vector_db.LogStore.Progress.{rounds, append-durable}
use learn_vector_db.Wal.Lines.{log_text}
use learn_vector_db.LogStore.Spec.{
  Op, append_op, write_at_op, compact_op, pack_op, round_op, Log, step, steps, apply_ops,
  AllAllowed,
}
use learn_vector_db.LogStore.Simulation.{Simulates, apply_ops-Simulates}
use learn_vector_db.Tests.Cluster.{small_raft, small_raft_laws, SmallEntry}

abbrev dummy : SmallEntry
dummy = record { term = 0; buf = []; app = true; time = 0; has_crc = false; crc = 0 }

abbrev entry : Bytes → SmallEntry
entry text = record {
  term = 3;
  buf = 0 ∷ 0 ∷ 0 ∷ 0 ∷ text;
  app = true;
  time = 0;
  has_crc = false;
  crc = 0;
}

abbrev first : SmallEntry
first = entry (codes "a")

abbrev second : SmallEntry
second = record (entry (codes "bc")) { time = 7 }

-- A payload of two bytes is too short.
abbrev short : SmallEntry
short = record { term = 4; buf = codes "xy"; app = true; time = 0; has_crc = false; crc = 0 }

abbrev two : List SmallEntry
two = first ∷ second ∷ []

abbrev store_of : ℕ → List SmallEntry → LogStore small_raft
store_of start es = record {
  logs = (0, dummy) ∷ run start es;
  start_idx = start;
  disk_emul_delay = 0;
  logs_being_written = (5, 11) ∷ (8, 12) ∷ [];
  last_durable = 10;
  thread_started = false;
}

abbrev store : LogStore small_raft
store = store_of 11 two

abbrev wal : Persistence
wal = record {
  increase_id = 10;
  last_snapshot_id = 0;
  content = [];
  unread = [];
  good = true;
  max_log_id_file = none;
}

store_rep : Represents small_raft store dummy two
store_rep = record { shape = refl; positive = omega arith; bounded = omega arith }

empty_rep : Represents small_raft (store_of 1 []) dummy []
empty_rep = record { shape = refl; positive = omega arith; bounded = omega arith }

append_refines_example :
    Represents small_raft (append small_raft 0 first store wal).0 dummy (two ++ first ∷ [])
    × ((append small_raft 0 first store wal).2 ≡ ok 13)
    × ((append small_raft 0 first store wal).1 ≡ logged (ok (codes "a")) 13 wal)
unfolding payload
append_refines_example =
    append_refines small_raft small_raft_laws 0 first wal store_rep (omega arith)

write_at_refines_example :
    Represents small_raft (write_at small_raft 0 12 short store wal).0 dummy (first ∷ short ∷ [])
    × ((write_at small_raft 0 12 short store wal).2
        ≡ (payload small_raft (codes "xy") >>= λ _. ok tt))
    × ((write_at small_raft 0 12 short store wal).1
        ≡ logged (payload small_raft (codes "xy")) 12 wal)
write_at_refines_example =
    write_at_refines small_raft small_raft_laws 0 short wal store_rep 1 (omega arith) (omega arith)

apply_pack-pack_example :
    (bytes : Bytes) × (got : List SmallEntry) × (pack small_raft 12 1 store ≡ ok bytes)
    × ((apply_pack small_raft 12 bytes (store_of 1 [])).1 ≡ ok tt)
    × Represents small_raft (apply_pack small_raft 12 bytes (store_of 1 [])).0 dummy got
    × ((apply_pack small_raft 12 bytes (store_of 1 [])).0.start_idx ≡ 12)
    × AllAlike small_raft (second ∷ []) got
apply_pack-pack_example =
    apply_pack-pack small_raft small_raft_laws 1 1 store_rep empty_rep (omega arith) (omega arith)
      (omega arith) (omega arith, tt)

log_entries_example : log_entries small_raft 11 13 store ≡ ok two
log_entries_example = log_entries_lem small_raft small_raft_laws store_rep 0 2 (omega arith)

log_entries_ext_example :
    (m : ℕ) × (log_entries_ext small_raft 11 13 (pos 5) store ≡ ok (take m two))
    × IsBatch small_raft 5 0 two m
log_entries_ext_example =
    log_entries_ext_lem small_raft small_raft_laws store_rep 0 2 5 (omega arith)

abbrev log : Log small_raft
log = record { start = 11; entries = two; written = [] }

store-Simulates : Simulates small_raft dummy wal (store, wal) log
unfolding log_text
store-Simulates = record {
  represents = store_rep;
  same_start = refl;
  wrote = record {
    content_same = refl;
    still_good = refl;
    same_increase = refl;
    same_snapshot = refl;
    same_file = refl;
  };
}

-- An entry is overwritten, the store is compacted, an entry comes behind the others, and a pack
-- overwrites it and brings another one.
abbrev ops : List (Op small_raft)
ops = write_at_op 0 12 first ∷ compact_op 11 ∷ append_op 0 second ∷ pack_op 13 two ∷ round_op 6 ∷ []

ops_allowed : AllAllowed small_raft ops log
unfolding step
ops_allowed = (
  (omega arith, omega arith, omega arith),
  (
    omega arith,
    (
      omega arith,
      (
        (
          omega arith,
          omega arith,
          omega arith,
          omega arith,
          omega arith,
          omega arith,
          (omega arith, (omega arith, tt)),
        ),
        (tt, tt),
      ),
    ),
  ),
)

apply_ops-Simulates_example :
    Simulates small_raft dummy wal
      (apply_ops small_raft ops (store, wal))
      (steps small_raft ops log)
apply_ops-Simulates_example =
    apply_ops-Simulates small_raft dummy wal small_raft_laws ops (store, wal) log store-Simulates
      ops_allowed

-- The store with a delay of two milliseconds.
abbrev delayed : LogStore small_raft
delayed = record store { disk_emul_delay = 2 }

delayed-append : (append small_raft 10 first delayed wal).2 ≡ ok 13
unfolding append payload make_clone next_slot start_write write_wal_log_with_id insert run
delayed-append = refl

-- The round that the append wakes comes at its time, and another one before the write ends.
append-durable_example :
    (let waiting : LogStore small_raft =
        rounds small_raft (10 ∷ 900 ∷ []) (append small_raft 10 first delayed wal).0 in
      (find 2010 waiting.logs_being_written ≡ some 13)
      × ((disk_emul_round small_raft 3000 waiting).0.last_durable ≡ 13)
      × ((disk_emul_round small_raft 3000 waiting).0.logs_being_written ≡ [])
      × ((disk_emul_round small_raft 3000 waiting).1 ≡ true))
append-durable_example =
    append-durable small_raft 10 13 3000 (10 ∷ 900 ∷ []) first delayed wal (omega arith)
      (omega arith) (omega arith, (omega arith, tt)) (omega arith, (omega arith, tt)) delayed-append
      (omega arith, (omega arith, tt)) (omega arith)
