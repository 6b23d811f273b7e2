-- ===== src/Tests/Servers.antt =====
-- The theorems on a process, from its start to its end and the next start.
use learn_vector_db.Prelude.{
  true, false, none, some, List, [], ◌∷◌, ◌++◌, codes, bytes_eq, ◌≡◌, refl, arith,
}
use learn_vector_db.Wal.{lines}
use learn_vector_db.IndexFactory
use learn_vector_db.Database.Reload.{reload_database}
use learn_vector_db.Wal.Lines.{LogEntry, AllLines, AllAbove, last_id}
use learn_vector_db.Server.{System, read_config_file}
use learn_vector_db.Server.Events.{
  Event, log_event, commit_event, request_event, AllPermitted, apply_events, log_steps, disk_of,
  file_id, Sound,
}
use learn_vector_db.Server.Restart.{events-Sound, reload_database-apply_events}
use learn_vector_db.Database.Reload.Log.{replay_log}
use learn_vector_db.LogStore.Spec.{append_op, compact_op, step, note, noted}
use learn_vector_db.HttpServer.Routes.{HttpRequest, post, serve_request}
use learn_vector_db.HttpServer.Logged.{snapped, serve_request-persistence}
use learn_vector_db.Server.Opened.{Opened}
use learn_vector_db.Server.Start.{fresh}
use learn_vector_db.LogStore.{payload}
use learn_vector_db.Database.{Database, load_snapshot}
use learn_vector_db.Tests.Databases.{IsLine-first, IsLine-other}
use learn_vector_db.Tests.Store.{empty_store}
use learn_vector_db.Tests.Cluster.{
  small_libraries, small_raft, small_raft_laws, list_server, SmallEntry,
}
use learn_vector_db.Tests.Starts.{
  list_configs, old, disk, config, system, outside, start_system, old-Sound,
}

abbrev entry : SmallEntry
entry = record {
  term = 3;
  buf = 0 ∷ 0 ∷ 0 ∷ 0 ∷ codes "bc";
  app = true;
  time = 0;
  has_crc = false;
  crc = 0;
}

abbrev pub snapshot_request : HttpRequest
snapshot_request = record {
  method = post;
  path = codes "/admin/snapshot";
  body = [];
  param = λ name. [];
}

-- An entry is stored and committed, a snapshot is taken, and the log store is compacted.
abbrev events : List (Event small_libraries small_raft list_server list_configs)
events =
    log_event (append_op 0 entry)
    ∷ commit_event 13 (0 ∷ 0 ∷ 0 ∷ 0 ∷ codes "bc")
    ∷ request_event true snapshot_request
    ∷ log_event (compact_op 13)
    ∷ []

permitted :
    AllPermitted small_libraries small_raft list_server list_configs events (fresh small_raft old)
unfolding fresh last_id step
permitted = (omega arith, (tt, (tt, (omega arith, tt))))

written_lines :
    AllLines
      (log_steps small_libraries small_raft list_server list_configs events
        (fresh small_raft old)).written
unfolding log_steps fresh step note noted payload last_id
written_lines = (IsLine-first 12 (omega arith), (IsLine-other 13 (omega arith), tt))

events-Sound_example :
    Sound
      (log_steps small_libraries small_raft list_server list_configs events
        (fresh small_raft old)).written
      (disk_of small_libraries small_raft list_server list_configs
        (apply_events small_libraries small_raft list_server list_configs events system))
unfolding read_config_file last_id
events-Sound_example =
    events-Sound small_libraries small_raft list_server list_configs small_raft_laws old disk
      outside config system events old-Sound (omega arith) refl refl start_system permitted
      written_lines

-- The process at its end, and the database of the next one.
abbrev ended : System small_libraries small_raft list_server list_configs
ended = apply_events small_libraries small_raft list_server list_configs events system

abbrev next : Database small_libraries
next = record {
  factory = record { flat_index = some []; hnsw_index = none; filter_index = none };
  scalars = empty_store;
  persistence = record {
    increase_id = 10;
    last_snapshot_id = file_id ended.node.database.persistence.max_log_id_file;
    content = ended.node.database.persistence.content;
    unread = lines ended.node.database.persistence.content;
    good = true;
    max_log_id_file = ended.node.database.persistence.max_log_id_file;
  };
  files = [];
}

next_Opened :
    Opened (disk_of small_libraries small_raft list_server list_configs ended) next.persistence
unfolding disk_of
next_Opened = record {
  all_content = refl;
  all_unread = refl;
  first_id = refl;
  snapshot_id = refl;
  found_file = refl;
}

reload_database-apply_events_example :
    (reload_database small_libraries next
      ≡ some (
          replay_log small_libraries
            (log_steps small_libraries small_raft list_server list_configs events
              (fresh small_raft old)).written
            (load_snapshot small_libraries next).0))
    × (new : List LogEntry) × ((log_steps small_libraries small_raft list_server list_configs events
          (fresh small_raft old)).written
        ≡ old ++ new)
    × AllAbove next.persistence.last_snapshot_id new
unfolding load_snapshot read_config_file last_id IndexFactory.load_index IndexFactory.load_filter
reload_database-apply_events_example =
    reload_database-apply_events small_libraries small_raft list_server list_configs small_raft_laws
      old disk outside config system events next old-Sound (omega arith) refl refl start_system
      permitted written_lines next_Opened refl

serve_request-persistence_example :
    (serve_request small_libraries list_server true snapshot_request
      system.node).database.persistence
    ≡ snapped true system.node.database.persistence
unfolding bytes_eq
serve_request-persistence_example =
    serve_request-persistence small_libraries list_server true system.node snapshot_request
