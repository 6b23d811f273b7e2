-- ===== src/Tests/Handlers.antt =====
-- The theorems on the handlers of requests and on the state machine.
use learn_vector_db.Prelude.{
  ◌<◌, ◌≤◌, Bool, true, false, none, some, [], ◌∷◌, Bytes, bytes_eq, codes, keep, bytes_less, ◌≡◌,
  refl, arith,
}
use learn_vector_db.Result.{ok, throw}
use learn_vector_db.Exec.{pure}
use learn_vector_db.Json.{pos, c_str}
use learn_vector_db.StdMap.{StdMap}
use learn_vector_db.ScalarStorage.{Ascending}
use learn_vector_db.ScalarStorage.Range.{begins}
use learn_vector_db.Database.{upsert, get_index_type_from_request}
use learn_vector_db.RaftStuff.{Node, is_leader, commit, entry_buffer}
use learn_vector_db.RaftStuff.Commit.{commit-entry_buffer}
use learn_vector_db.HttpServer.{
  success_response, is_request_valid, has_member, error_response, set_json_response,
  index_type_valid,
}
use learn_vector_db.HttpServer.Documents.{upsert_handler, search_handler, checked}
use learn_vector_db.HttpServer.Rejected.{handle, search_request, handle-rejected}
use learn_vector_db.HttpServer.Followers.{upsert_handler_follower}
use learn_vector_db.HttpServer.Scalars.{count_param, strtoul, get_scalar_handler, page_response}
use learn_vector_db.HttpServer.Params.{count_param_bounds, get_scalar_handler_lem}
use learn_vector_db.Tests.Store.{Sorted, sorted_rocks_laws}
use learn_vector_db.Tests.Documents.{number, parse_text}
use learn_vector_db.Tests.Cluster.{small_libraries, list_server}

abbrev three_pairs : StdMap Bytes Bytes
three_pairs = (codes "1", codes "x") ∷ (codes "12", codes "y") ∷ (codes "2", codes "z") ∷ []

three-Ascending : Ascending three_pairs
unfolding bytes_less
three-Ascending = ((refl, (refl, tt)), ((refl, tt), (tt, tt)))

abbrev three : Sorted
three = record { pairs = three_pairs; ascending = three-Ascending }

abbrev node : Bool → Node small_libraries list_server
node leader = record {
  database = record {
    factory = record { flat_index = some []; hnsw_index = none; filter_index = some [] };
    scalars = three;
    persistence = record {
      increase_id = 10;
      last_snapshot_id = 5;
      content = [];
      unread = [];
      good = true;
      max_log_id_file = none;
    };
    files = [];
  };
  last_committed_idx = 10;
  node_id = pos 1;
  raft_instance = some (leader, []);
}

-- A request without the member `k`.
handle-rejected_example :
    (handle small_libraries list_server search_request (codes "ab") (node true)).0 ≡ node true
unfolding handle search_handler checked c_str is_request_valid has_member bytes_eq pure
    error_response set_json_response
handle-rejected_example =
    handle-rejected small_libraries list_server search_request (codes "ab") (node true) refl

upsert_handler_follower_example :
    upsert_handler small_libraries list_server (codes "ab") (node false)
    ≡ (node false, ok (success_response small_libraries list_server []))
unfolding is_leader c_str is_request_valid has_member bytes_eq index_type_valid
upsert_handler_follower_example =
    upsert_handler_follower small_libraries list_server (codes "ab") (number (pos 97)) 97
      (node false) refl refl refl refl refl

commit-entry_buffer_example :
    (let request = parse_text (codes "ab") in
      let after =
        upsert small_libraries 97 request
          (get_index_type_from_request small_libraries request)
          (node true).database in
      commit small_libraries list_server 11
        (entry_buffer small_libraries list_server (codes "ab"))
        (node true)
      ≡ (
        record (node true) { database = after.0; last_committed_idx = 11 },
        elim after.1 [ ok _ ↦ ok 11 | throw e ↦ throw e ],
      ))
unfolding c_str bytes_eq
commit-entry_buffer_example =
    commit-entry_buffer small_libraries list_server (λ n. refl) 11 97 (codes "ab") (number (pos 97))
      (node true) refl refl

count_param_bounds_example : (0 < 20) × (20 ≤ 1000)
unfolding count_param strtoul c_str
count_param_bounds_example =
    count_param_bounds 100 1000 20 (codes "20") (omega arith) (omega arith) refl

get_scalar_handler_example :
    get_scalar_handler small_libraries list_server
      (codes "1")
      []
      (codes "2")
      (codes "1")
      (node true)
    ≡ (
      node true,
      ok (
          page_response small_libraries list_server 2 1
            (record { items = (codes "12", codes "y") ∷ []; has_more = false })),
    )
unfolding count_param strtoul c_str keep begins bytes_less
get_scalar_handler_example =
    get_scalar_handler_lem small_libraries list_server sorted_rocks_laws (codes "1") [] (codes "2")
      (codes "1") 2 1 (node true) refl refl
