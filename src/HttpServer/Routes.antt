-- ===== src/HttpServer/Routes.antt =====
-- The routes that the constructor of `HttpServer` registers. The server of httplib gives a request as
-- its method, its path, its body and its parameters; what it does with a request without a route is
-- not modelled.
use learn_vector_db.Prelude.{Bool, Option, none, some, Bytes, codes, bytes_eq, if◌then◌else◌}
use learn_vector_db.IndexFactory.{Libraries}
use learn_vector_db.RaftStuff.{RaftServer, Node}
use learn_vector_db.HttpServer.{Handler}
use learn_vector_db.HttpServer.Documents.{
  search_handler, insert_handler, upsert_handler, query_handler, snapshot_handler,
}
use learn_vector_db.HttpServer.Cluster.{
  set_leader_handler, add_follower_handler, list_node_handler, get_node_handler,
}
use learn_vector_db.HttpServer.Scalars.{get_scalar_handler}

pub data HttpMethod : Type 0 where
  get post other : HttpMethod

pub record HttpRequest : Type 0 where
  pub method : HttpMethod
  pub path : Bytes
  pub body : Bytes
  -- `get_param_value`
  pub param : Bytes → Bytes

module _ (l : Libraries) (r : RaftServer) where
  -- `writable`: whether snapshots_MaxLogID could be opened.
  unfoldable pub post_route : Bool → Bytes → Bytes → Option (Handler l r)
  post_route writable path body =
      if bytes_eq path (codes "/search")
      then some (search_handler l r body)
      else if bytes_eq path (codes "/insert")
      then some (insert_handler l r body)
      else if bytes_eq path (codes "/upsert")
      then some (upsert_handler l r body)
      else if bytes_eq path (codes "/query")
      then some (query_handler l r body)
      else if bytes_eq path (codes "/admin/snapshot")
      then some (snapshot_handler l r writable)
      else if bytes_eq path (codes "/admin/setLeader")
      then some (set_leader_handler l r)
      else if bytes_eq path (codes "/admin/addFollower")
      then some (add_follower_handler l r body)
      else none

  unfoldable pub get_route : Bytes → (Bytes → Bytes) → Option (Handler l r)
  get_route path param =
      if bytes_eq path (codes "/admin/listNode")
      then some (list_node_handler l r)
      else if bytes_eq path (codes "/admin/getNode")
      then some (get_node_handler l r)
      else if bytes_eq path (codes "/admin/getScalar")
      then some (
          get_scalar_handler l r (param (codes "key_prefix")) (param (codes "key"))
            (param (codes "page_num")) (param (codes "page_size")))
      else none

  abbrev pub route_of : HttpMethod → Bool → HttpRequest → Option (Handler l r)
  route_of post writable q = post_route writable q.path q.body
  route_of get writable q = get_route q.path q.param
  route_of other writable q = none

  -- The handler of a request, if it has one.
  unfoldable pub route : Bool → HttpRequest → Option (Handler l r)
  route writable q = route_of q.method writable q

  -- The process's objects after a request.
  unfoldable pub serve_request : Bool → HttpRequest → Node l r → Node l r
  serve_request writable q n = elim (route writable q) [ none ↦ n | some handle ↦ (handle n).0 ]
