-- ===== src/HttpServer/Followers.antt =====
-- The request to write at a node that is not the leader.
use learn_vector_db.Prelude.{ℕ, true, false, some, Bytes, ◌≡◌, [], Option-cases, arith}
use learn_vector_db.Result.{ok}
use learn_vector_db.Exec.{modify, ◌>>=◌}
use learn_vector_db.Json.{c_str}
use learn_vector_db.IndexFactory.{Libraries}
use learn_vector_db.Database.{request_id}
use learn_vector_db.RaftStuff.{RaftServer, Node, is_leader, append_entries}
use learn_vector_db.HttpServer.{upsert, is_request_valid, success_response}
use learn_vector_db.HttpServer.Documents.{checked, upsert_handler}

module _ (l : Libraries) (r : RaftServer) where
  open l use {json}

  append_entries_follower :
      (entry : Bytes) (n : Node l r)
      → is_leader l r n ≡ false
      → append_entries l r entry n ≡ (n, false)
  unfolding append_entries is_leader
  append_entries_follower entry n h = ground (arith, Option-cases n.raft_instance)

  -- At a node that is not the leader, a valid request to write is answered like one that was taken,
  -- with the return code of success and no status of its own, while nothing changes.
  pub upsert_handler_follower :
      (body : Bytes) (id_value : json.Value) (id : ℕ) (n : Node l r)
      → is_leader l r n ≡ false
      → json.is_object (json.parse (c_str body)) ≡ true
      → is_request_valid l r (json.parse (c_str body)) upsert ≡ true
      → json.member (json.parse (c_str body)) request_id ≡ some id_value
      → json.get_uint64 id_value ≡ some id
      → upsert_handler l r body n ≡ (n, ok (success_response l r []))
  unfolding upsert_handler checked modify ◌>>=◌
  upsert_handler_follower body id_value id n follower object valid h k =
      rw object (rw valid (rw h (rw k (rw (append_entries_follower body n follower)))))
