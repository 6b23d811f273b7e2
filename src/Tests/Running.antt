-- ===== src/Tests/Running.antt =====
-- A search in a process that commits a document and takes a snapshot.
use learn_vector_db.Prelude.{true, none, some, List, [], ◌∷◌}
use learn_vector_db.Json.{pos}
use learn_vector_db.Database.Search
use learn_vector_db.Database.Answers.{SaysAfter}
use learn_vector_db.RaftStuff.{content_of}
use learn_vector_db.StateMgr.{new_state_mgr}
use learn_vector_db.Server.{System}
use learn_vector_db.Server.Events.{Event, commit_event, request_event, apply_events}
use learn_vector_db.Server.Fields.{AllStore, search_running}
use learn_vector_db.Prelude.{codes}
use learn_vector_db.Tests.Bitmaps.{list_roaring_laws}
use learn_vector_db.Tests.Store.{sorted_rocks_laws}
use learn_vector_db.Tests.Cluster.{small_raft, list_server}
use learn_vector_db.Tests.Filters.{asking, list_faiss_laws, list_hnsw_laws}
use learn_vector_db.Tests.Starts.{list_configs}
use learn_vector_db.Tests.Servers.{snapshot_request}
use learn_vector_db.Tests.Histories.{aged_libraries, start, start-Exact, young_Stores, request_asks}

abbrev system : System aged_libraries small_raft list_server list_configs
system = record {
  node = record {
    database = start;
    last_committed_idx = 0;
    node_id = pos 1;
    raft_instance = some (true, []);
  };
  mgr = new_state_mgr small_raft list_configs (pos 1) (codes "e") start.persistence;
}

abbrev events : List (Event aged_libraries small_raft list_server list_configs)
events = commit_event 11 (0 ∷ 0 ∷ 0 ∷ 0 ∷ 1 ∷ 30 ∷ []) ∷ request_event true snapshot_request ∷ []

events_store :
    AllStore aged_libraries small_raft list_server list_configs (codes "age") events system
unfolding content_of learn_vector_db.Json.c_str learn_vector_db.Prelude.bytes_eq
    learn_vector_db.Database.get_index_type_from_request learn_vector_db.Database.type_of_text
events_store = (young_Stores start.persistence, (tt, tt))

search_running_example :
    SaysAfter aged_libraries
      (asking (pos 30))
      (codes "age")
      (pos 30)
      (request_asks (pos 30))
      (apply_events aged_libraries small_raft list_server list_configs events system).node.database
      (Search.search aged_libraries
        (asking (pos 30))
        (apply_events aged_libraries small_raft list_server list_configs events
          system).node.database)
search_running_example =
    search_running aged_libraries small_raft list_server list_configs (asking (pos 30))
      (codes "age") (pos 30) (request_asks (pos 30)) events system sorted_rocks_laws
      list_roaring_laws list_faiss_laws list_hnsw_laws (start-Exact start.persistence) events_store
