-- ===== src/HttpServer/Cluster.antt =====
-- The handlers of `HttpServer` for the cluster: setLeaderHandler, addFollowerHandler,
-- listNodeHandler and getNodeHandler.
use learn_vector_db.Prelude.{not, [], ◌∷◌, map, Bytes, codes, if◌then◌else◌}
use learn_vector_db.Exec.{pure, gets, need, modify, ◌>>=◌, ◌>>◌}
use learn_vector_db.Json.{pos, c_str}
use learn_vector_db.IndexFactory.{Libraries}
use learn_vector_db.Database.{at}
use learn_vector_db.RaftStuff.{
  RaftServer, NodeInfo, is_leader, add_srv, enable_election_timeout, get_all_nodes_info,
  get_current_nodes_info,
}
use learn_vector_db.HttpServer.{Handler, error_response, success_response}
use learn_vector_db.HttpServer.Documents.{invalid_json}

module _ (l : Libraries) (r : RaftServer) where
  open l use {json}

  unfoldable pub set_leader_handler : Handler l r
  set_leader_handler = do
    modify (enable_election_timeout l r (pos 10000) (pos 20000))
    pure (success_response l r [])

  unfoldable pub add_follower_known : json.Value → Handler l r
  add_follower_known request = do
    node_id_value ← need (at l request (codes "nodeId"))
    node_id ← need (json.get_int node_id_value)
    endpoint_value ← need (at l request (codes "endpoint"))
    endpoint ← need (json.get_string endpoint_value)
    add_srv l r node_id (c_str endpoint)
    pure (success_response l r [])

  unfoldable pub add_follower_handler : Bytes → Handler l r
  add_follower_handler body n =
      let request = json.parse (c_str body) in
      if not (json.is_object request)
      then pure (error_response l r invalid_json) n
      else if not (is_leader l r n)
      then pure (error_response l r (codes "Current node is not the leader")) n
      else add_follower_known request n

  unfoldable pub node_object : NodeInfo → json.Value
  node_object i = json.object (
      (codes "nodeId", json.int i.node_id)
      ∷ (codes "endpoint", json.string (c_str i.endpoint))
      ∷ (codes "state", json.string (c_str i.state))
      ∷ (codes "last_log_idx", json.uint64 i.last_log_idx)
      ∷ (codes "last_succ_resp_us", json.uint64 i.last_succ_resp_us)
      ∷ [])

  unfoldable pub list_node_handler : Handler l r
  list_node_handler = do
    nodes_info ← gets (get_all_nodes_info l r)
    pure (success_response l r ((codes "nodes", json.array (map node_object nodes_info)) ∷ []))

  unfoldable pub get_node_handler : Handler l r
  get_node_handler = do
    node_info ← gets (get_current_nodes_info l r)
    pure (success_response l r ((codes "node", node_object node_info) ∷ []))
