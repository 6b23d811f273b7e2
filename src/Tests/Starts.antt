-- ===== src/Tests/Starts.antt =====
-- A process that starts on a log of one line that is in the snapshot.
use learn_vector_db.Prelude.{
  ℕ, true, false, none, some, List, [], ◌∷◌, ◌++◌, Bytes, codes, bytes_eq, bytes_less, ◌≡◌, refl,
  arith,
}
use learn_vector_db.Result.{Result, ok}
use learn_vector_db.Json.{pos}
use learn_vector_db.Wal
use learn_vector_db.Wal.{
  Disk, lines, extract, next_field, split, load_last_snapshot_id, read_next_wal_log,
}
use learn_vector_db.FilterIndex.{stol}
use learn_vector_db.Decimal.{skip_space, scan, stoull}
use learn_vector_db.StdMap.{find, insert}
use learn_vector_db.ScalarStorage.{open_storage}
use learn_vector_db.IndexFactory
use learn_vector_db.Database.Reload.{reload_database, reload_loop, reload_step, read_next}
use learn_vector_db.Exec.{◌>>=◌}
use learn_vector_db.Wal.Lines.{LogEntry, log_text, last_id}
use learn_vector_db.StateMgr.{Configs, new_state_mgr}
use learn_vector_db.RaftStuff.{SrvConfig, set_vector_database}
use learn_vector_db.Server
use learn_vector_db.Server.{Outside, System, Config, start, read_config_file}
use learn_vector_db.Server.Events.{Sound, Running}
use learn_vector_db.Server.Start.{start-Running, start_total, fresh}
use learn_vector_db.LogStore.{LogStore, payload}
use learn_vector_db.Database.{Database, load_snapshot}
use learn_vector_db.Tests.Databases.{IsLine-first}
use learn_vector_db.Tests.Store.{empty_store}
use learn_vector_db.Tests.Cluster.{small_libraries, small_raft, list_server, SmallEntry}

abbrev pub list_configs : Configs
list_configs = record {
  Config = List SrvConfig;
  empty_config = [];
  push_back = λ s config. config ++ s ∷ [];
  serialize_config = λ config. [];
  deserialize_config = λ text. [];
  State = ℕ;
  serialize_state = λ n. n ∷ [];
  deserialize_state = λ text. elim text [ [] ↦ 0 | n ∷ _ ↦ n ];
}

abbrev pub old : List LogEntry
old = record { log_id = 12; text = codes "a1" } ∷ []

abbrev pub disk : Disk
disk = record { log = log_text old; max_log_id = some (codes "12") }

abbrev config_text : Bytes
config_text = codes "node_id=1\nport=80\nhttp_server_port=81\ndb_path=d\nwal_path=w\nendpoint=e\n"

abbrev dummy : SmallEntry
dummy = record {
  term = 0;
  buf = 0 ∷ 0 ∷ 0 ∷ 0 ∷ 0 ∷ 0 ∷ 0 ∷ 0 ∷ [];
  app = true;
  time = 0;
  has_crc = false;
  crc = 0;
}

abbrev pub outside : Outside small_libraries small_raft list_server list_configs
outside = record {
  config_file = some config_text;
  open_db = λ path. some empty_store;
  open_log = λ path. some disk;
  files = [];
  launch = λ port low high. some (true, []);
}

abbrev pub config : Config
config = Server.read_lines (lines config_text) []

abbrev pub store : LogStore small_raft
store = record {
  logs = (0, dummy) ∷ [];
  start_idx = 13;
  disk_emul_delay = 0;
  logs_being_written = [];
  last_durable = 0;
  thread_started = false;
}

abbrev database : Database small_libraries
database = record {
  factory = record {
    flat_index = some [];
    hnsw_index = some (record { index = []; space = 1; max_elements = 100000 });
    filter_index = some [];
  };
  scalars = empty_store;
  persistence = record {
    increase_id = 12;
    last_snapshot_id = 12;
    content = log_text old;
    unread = [];
    good = true;
    max_log_id_file = some (codes "12");
  };
  files = [];
}

abbrev pub system : System small_libraries small_raft list_server list_configs
system = record {
  node = record {
    database = database;
    last_committed_idx = 12;
    node_id = pos 1;
    raft_instance = some (true, []);
  };
  mgr = record {
    my_id = pos 1;
    my_endpoint = codes "e";
    cur_log_store = store;
    my_srv_config = record { id = pos 1; endpoint = codes "e" };
    saved_config = record { id = pos 1; endpoint = codes "e" } ∷ [];
    saved_state = none;
  };
}

pub start_system :
    start small_libraries small_raft list_server list_configs outside ≡ some (ok system)
unfolding start Server.boot read_config_file Server.stoi stol skip_space Server.value_of find
    Server.read_lines lines insert bytes_eq Server.config_line next_field split bytes_less scan
    Server.new_database open_storage Wal.init load_last_snapshot_id extract stoull
    Server.init_factory IndexFactory.init IndexFactory.load_index IndexFactory.load_filter
    reload_database reload_loop reload_step read_next read_next_wal_log load_snapshot ◌>>=◌
    Server.serve Server.init_raft new_state_mgr set_vector_database
    learn_vector_db.FilterIndex.load_index learn_vector_db.FilterIndex.deserialize_int_field_filter
    learn_vector_db.FilterIndex.load_lines learn_vector_db.ScalarStorage.get log_text Wal.wal_line
    learn_vector_db.Decimal.to_string Wal.fields Wal.see_id learn_vector_db.VectorIndex.flat_load
    learn_vector_db.VectorIndex.hnsw_load learn_vector_db.LogStore.init
    learn_vector_db.VectorIndex.new_hnsw learn_vector_db.Logger.init_global_logger
    learn_vector_db.Logger.set_log_level
start_system = refl

pub old-Sound : Sound old disk
unfolding last_id extract stoull
old-Sound = record {
  log_same = refl;
  whole = (IsLine-first 12 (omega arith), tt);
  snapshot_old = omega arith;
}

pub system-Running :
    Running small_libraries small_raft list_server list_configs old system (fresh small_raft old)
unfolding read_config_file last_id
system-Running =
    start-Running small_libraries small_raft list_server list_configs old disk old-Sound
      (omega arith) outside config system refl refl start_system

start-Running_example :
    Running small_libraries small_raft list_server list_configs old system (fresh small_raft old)
unfolding read_config_file last_id
start-Running_example =
    start-Running small_libraries small_raft list_server list_configs old disk old-Sound
      (omega arith) outside config system refl refl start_system

start_total_example :
    (x : Result (System small_libraries small_raft list_server list_configs)) × (start
        small_libraries small_raft list_server list_configs outside
      ≡ some x)
start_total_example = start_total small_libraries small_raft list_server list_configs outside
