-- ===== src/Server.antt =====
-- The process: vdb_server.cpp, and `RaftStuff::Init` of raft_stuff.cpp. What the process finds outside
-- is an argument: the configuration file, the database and the log at their paths, the files of a
-- snapshot, and the server that NuRaft's launcher gives. The check of `argc` and the server of httplib
-- are not modelled: `start` ends where `main` calls `server.start()`.
pub mod Events
pub mod Steps
pub mod Durable
pub mod Opened
pub mod Start
pub mod Restart
pub mod Fields
use learn_vector_db.Prelude.{
  ℕ, suc, ◌^◌, ◌<◌, Bool, true, false, Option, none, some, List, [], ◌∷◌, Bytes, codes, bytes_key,
  leb, ltb, if◌then◌else◌,
}
use learn_vector_db.Result.{Result, ok, throw, aborted, runtime_error, out_of_range, ◌>>=◌}
use learn_vector_db.StdMap.{StdMap, find, insert}
use learn_vector_db.Json.{ℤ, pos, negsuc}
use learn_vector_db.Logger.{Spdlog, GlobalLogger, debug, init_global_logger, set_log_level}
use learn_vector_db.Raft.{Raft}
use learn_vector_db.Wal
use learn_vector_db.Wal.{Disk, newline, lines, next_field}
use learn_vector_db.ScalarStorage.{open_storage}
use learn_vector_db.FilterIndex.{stol}
use learn_vector_db.VectorIndex.{Files, l2}
use learn_vector_db.IndexFactory
use learn_vector_db.IndexFactory.{Libraries, flat, hnsw, filter, IndexFactory, empty_factory}
use learn_vector_db.Database.{Database}
use learn_vector_db.Database.Reload.{reload_database}
use learn_vector_db.RaftStuff.{RaftServer, Node, set_vector_database}
use learn_vector_db.StateMgr.{Configs, StateMgr, new_state_mgr}

abbrev pub Config : Type 0
Config = StdMap Bytes Bytes

-- One line of the configuration file: the key is what stands before the first `=`.
unfoldable pub config_line : Bytes → Bytes × Bytes
config_line line =
    let (key, input) = next_field b'=' [] (record { rest = line; good = true }) in
    let (value, _) = next_field newline [] input in (key, value)

unfoldable pub read_lines : List Bytes → Config → Config
read_lines [] config = config
read_lines (line ∷ rest) config =
    let (key, value) = config_line line in read_lines rest (insert key value config)

-- `none` is a file that cannot be opened: `GlobalLogger` is told so before the throw, at whatever it
-- points to.
unfoldable pub read_config_file : (s : Spdlog) → GlobalLogger s → Option Bytes → Result Config
read_config_file s logger (some text) = ok (read_lines (lines text) [])
read_config_file s (some logger) none = throw runtime_error
read_config_file s none none = throw aborted

-- `config[key]`
unfoldable pub value_of : Bytes → Config → Bytes
value_of key config = elim (find key config) [ none ↦ [] | some value ↦ value ]

abbrev pub in_int : ℤ → Bool
in_int (pos n) = ltb n (2 ^ 31)
in_int (negsuc n) = ltb n (2 ^ 31)

unfoldable pub stoi : Bytes → Result ℤ
stoi s = do n ← stol s; if in_int n then ok n else throw out_of_range

-- The log at the path, if it could be opened.
abbrev pub opened_log : Option Disk → Result Wal.Persistence
opened_log none = Wal.init false (record { log = []; max_log_id = none })
opened_log (some disk) = Wal.init true disk

module _ (l : Libraries) (r : Raft) (rs : RaftServer) (c : Configs) where
  open l use {rocks, spdlog}

  pub record Outside : Type 0 where
    pub config_file : Option Bytes
    pub open_db : Bytes → Option rocks.Db
    pub open_log : Bytes → Option Disk
    pub files : Files
    -- the port and the bounds of the election timeout
    pub launch : ℤ → ℤ → ℤ → Option rs.Server

  pub record System : Type 0 where
    pub node : Node l rs
    pub mgr : StateMgr r c

  unfoldable pub init_factory : IndexFactory l
  init_factory =
      IndexFactory.init l filter 1 0 l2
        (IndexFactory.init l hnsw 1 100000 l2 (IndexFactory.init l flat 1 0 l2 (empty_factory l)))

  -- The constructor of `VectorDatabase`, on the index factory that `main` set up.
  unfoldable pub new_database : Outside → Bytes → Bytes → Result (Database l)
  new_database o db_path wal_path = do
    scalars ← open_storage rocks (o.open_db db_path)
    persistence ← opened_log (o.open_log wal_path)
    ok (record {
      factory = init_factory;
      scalars = scalars;
      persistence = persistence;
      files = o.files;
    })

  -- The constructor of `RaftStuff` and `Init`.
  unfoldable pub init_raft : Outside → ℤ → Bytes → ℤ → Database l → System
  init_raft o node_id endpoint port db = record {
    node = set_vector_database l rs (record {
      database = db;
      last_committed_idx = 0;
      node_id = node_id;
      raft_instance = o.launch port (pos 10000) (pos 20000);
    });
    mgr = new_state_mgr r c node_id endpoint db.persistence;
  }

  pub record Boot : Type 0 where
    pub logger : GlobalLogger spdlog
    pub config : Config
    pub node_id : ℤ
    pub port : ℤ
    pub database : Database l

  -- What `main` does up to `reloadDatabase`.
  unfoldable pub boot : Outside → Result Boot
  boot o = do
    config ← read_config_file spdlog none o.config_file
    created ← init_global_logger spdlog
    logger ← set_log_level spdlog debug created
    node_id ← stoi (value_of (codes "node_id") config)
    port ← stoi (value_of (codes "port") config)
    database ←
        new_database o (value_of (codes "db_path") config) (value_of (codes "wal_path") config)
    ok (record {
      logger = logger;
      config = config;
      node_id = node_id;
      port = port;
      database = database;
    })

  -- What `main` does with the reloaded database.
  unfoldable pub serve : Outside → Boot → Database l → Result System
  serve o b db = do
    http_server_port ← stoi (value_of (codes "http_server_port") b.config)
    ok (init_raft o b.node_id (value_of (codes "endpoint") b.config) b.port db)

  abbrev pub serve_reloaded :
      Outside → Boot → Option (Database l × Result (Unit {0})) → Option (Result System)
  serve_reloaded o b none = none
  serve_reloaded o b (some (db, throw e)) = some (throw e)
  serve_reloaded o b (some (db, ok _)) = some (serve o b db)

  -- `none` would be a reload that runs out of fuel.
  unfoldable pub start : Outside → Option (Result System)
  start o = elim (boot o) [
    | throw e ↦ some (throw e)
    | ok b ↦ serve_reloaded o b (reload_database l b.database)
  ]
