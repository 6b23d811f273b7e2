-- ===== src/Server/Events.antt =====
-- What happens in a running process, one event after the other: NuRaft calls the log store, the state
-- machine and the state manager, its threads change its server, and requests come in. An event is one
-- step; threads are not modelled further.
use learn_vector_db.Prelude.{
  ℕ, ◌≤◌, ◌<◌, Bool, true, Option, none, some, List, [], ◌∷◌, ◌++◌, Bytes, ◌≡◌,
}
use learn_vector_db.Raft.{Raft}
use learn_vector_db.Wal.{Disk, extract}
use learn_vector_db.Wal.Lines.{LogEntry, AllLines, AllAbove, last_id, log_text}
use learn_vector_db.LogStore.Spec.{Op, apply_op, Log, step, Allowed}
use learn_vector_db.LogStore.Refine.{Represents}
use learn_vector_db.IndexFactory.{Libraries}
use learn_vector_db.RaftStuff.{RaftServer, commit, commit_config}
use learn_vector_db.StateMgr.{Configs, save_config, save_state}
use learn_vector_db.HttpServer.Routes.{HttpRequest, serve_request}
use learn_vector_db.Server.{System}

-- The identifier in the file of the last snapshot, 0 without one.
abbrev pub file_id : Option Bytes → ℕ
file_id none = 0
file_id (some text) = extract text

-- The disk holds just the lines of `es`, and a snapshot of no later identifier than theirs.
pub record Sound (es : List LogEntry) (disk : Disk) : Type 0 where
  pub log_same : disk.log ≡ log_text es
  pub whole : AllLines es
  pub snapshot_old : file_id disk.max_log_id ≤ last_id es 10

module _ (r : Raft) where
  -- What was written since the log held `es` stands behind it, with greater identifiers.
  pub record Behind (es : List LogEntry) (a : Log r) : Type 0 where
    pub new : List LogEntry
    pub written_same : a.written ≡ es ++ new
    pub all_above : AllAbove (last_id es 10) new
    pub start_above : last_id es 10 < a.start

module _ (l : Libraries) (r : Raft) (rs : RaftServer) (c : Configs) where
  pub data Event : Type 0 where
    log_event : Op r → Event
    commit_event : ℕ → Bytes → Event
    commit_config_event : ℕ → Event
    save_config_event : c.Config → Event
    save_state_event : c.State → Event
    -- what the threads of NuRaft do to its server
    raft_event : (rs.Server → rs.Server) → Event
    request_event : Bool → HttpRequest → Event

  unfoldable pub on_server : (rs.Server → rs.Server) → Option rs.Server → Option rs.Server
  on_server f none = none
  on_server f (some server) = some (f server)

  unfoldable pub apply_log : Op r → System l r rs c → System l r rs c
  apply_log op sys =
      let (store, persistence) =
        apply_op r op (sys.mgr.cur_log_store, sys.node.database.persistence) in
      record {
        node = record sys.node {
          database = record sys.node.database { persistence = persistence };
        };
        mgr = record sys.mgr { cur_log_store = store };
      }

  unfoldable pub apply_event : Event → System l r rs c → System l r rs c
  apply_event (log_event op) sys = apply_log op sys
  apply_event (commit_event index text) sys = record sys {
    node = (commit l rs index text sys.node).0;
  }
  apply_event (commit_config_event index) sys = record sys {
    node = commit_config l rs index sys.node;
  }
  apply_event (save_config_event config) sys = record sys { mgr = save_config r c config sys.mgr }
  apply_event (save_state_event state) sys = record sys { mgr = save_state r c state sys.mgr }
  apply_event (raft_event f) sys = record sys {
    node = record sys.node { raft_instance = on_server f sys.node.raft_instance };
  }
  apply_event (request_event writable q) sys = record sys {
    node = serve_request l rs writable q sys.node;
  }

  unfoldable pub apply_events : List Event → System l r rs c → System l r rs c
  apply_events [] sys = sys
  apply_events (e ∷ es) sys = apply_events es (apply_event e sys)

  -- What the events do to the log of the specification.
  abbrev pub log_step : Event → Log r → Log r
  log_step (log_event op) a = step r op a
  log_step (commit_event index text) a = a
  log_step (commit_config_event index) a = a
  log_step (save_config_event config) a = a
  log_step (save_state_event state) a = a
  log_step (raft_event f) a = a
  log_step (request_event writable q) a = a

  unfoldable pub log_steps : List Event → Log r → Log r
  log_steps [] a = a
  log_steps (e ∷ es) a = log_steps es (log_step e a)

  abbrev pub Permitted : Event → Log r → Type 0
  Permitted (log_event op) a = Allowed r op a
  Permitted (commit_event index text) a = Unit
  Permitted (commit_config_event index) a = Unit
  Permitted (save_config_event config) a = Unit
  Permitted (save_state_event state) a = Unit
  Permitted (raft_event f) a = Unit
  Permitted (request_event writable q) a = Unit

  -- NuRaft makes calls of the log store as it should.
  abbrev pub AllPermitted : List Event → Log r → Type 0
  AllPermitted [] a = Unit
  AllPermitted (e ∷ es) a = Permitted e a × AllPermitted es (log_step e a)

  -- What the process leaves behind when it ends.
  unfoldable pub disk_of : System l r rs c → Disk
  disk_of sys = record {
    log = sys.node.database.persistence.content;
    max_log_id = sys.node.database.persistence.max_log_id_file;
  }

  -- A process that began with the lines of `es` in its log, and whose log store stands for `a`.
  pub record Running (es : List LogEntry) (sys : System l r rs c) (a : Log r) : Type 0 where
    pub represents : Represents r sys.mgr.cur_log_store (r.plain_entry 0 r.blank) a.entries
    pub same_start : sys.mgr.cur_log_store.start_idx ≡ a.start
    pub log_written : sys.node.database.persistence.content ≡ log_text a.written
    pub still_good : sys.node.database.persistence.good ≡ true
    pub same_id : sys.node.database.persistence.increase_id ≡ last_id es 10
    pub file_old : file_id sys.node.database.persistence.max_log_id_file ≤ last_id es 10
    pub behind : Behind r es a
