-- ===== src/RaftStuff.antt =====
-- `RaftStuff` of raft_stuff.h and raft_stuff.cpp, and `log_state_machine` of log_state_machine.h and
-- log_state_machine.cpp, over the server of NuRaft, which is a parameter. The server calls `commit`
-- from a thread of its own: it is a step of the node like a request.
pub mod Commit
pub mod Committed
use learn_vector_db.Prelude.{
  ℕ, ◌+◌, ◌-◌, ◌^◌, ◌%◌, Bool, true, false, Option, none, some, List, [], ◌∷◌, ◌++◌, Bytes, codes,
  length, drop, ltb, if◌then◌else◌, ◌≡◌,
}
use learn_vector_db.Result.{ok, throw, length_error}
use learn_vector_db.Exec.{Exec, pure, lift, gets, need, modify, continue, ◌>>=◌, ◌>>◌}
use learn_vector_db.Json.{ℤ, pos, int_eq, c_str}
use learn_vector_db.Wal.{get_id}
use learn_vector_db.IndexFactory.{Libraries}
use learn_vector_db.Database.{Database, at, upsert, get_index_type_from_request, request_id}

pub record SrvConfig : Type 0 where
  pub id : ℤ
  pub endpoint : Bytes

-- The server of NuRaft. A pointer that may be null is an option.
pub record RaftServer : Type 1 where
  pub Server : Type 0
  pub is_leader : Server → Bool
  pub append_entries : List Bytes → Server → Server
  pub add_srv : SrvConfig → Server → Server
  -- `get_current_params`, the two bounds of the election timeout, and `update_params`
  pub update_election_timeout : ℤ → ℤ → Server → Server
  pub get_leader : Server → ℤ
  pub get_servers : Server → Option (List (Option SrvConfig))
  -- last_log_idx_ and last_succ_resp_us_
  pub get_peer_info : ℤ → Server → ℕ × ℕ
  -- the four bytes of the length that `buffer_serializer::put_str` writes
  pub put_length : ℕ → Bytes

pub record NodeInfo : Type 0 where
  pub node_id : ℤ
  pub endpoint : Bytes
  pub state : Bytes
  pub last_log_idx : ℕ
  pub last_succ_resp_us : ℕ

module _ (l : Libraries) (r : RaftServer) where
  open l use {json}

  -- The objects of one process: the database, the state machine and the raft server.
  pub record Node : Type 0 where
    pub database : Database l
    pub last_committed_idx : ℕ
    pub node_id : ℤ
    pub raft_instance : Option r.Server

  -- `log_state_machine::setVectorDatabase`; the identifier passes through `int64_t`.
  unfoldable pub set_vector_database : Node → Node
  set_vector_database n = record n { last_committed_idx = get_id n.database.persistence % 2 ^ 64 }

  -- The text behind the `int` in front of it.
  unfoldable pub content_of : Bytes → Option Bytes
  content_of data' = if ltb (length data') 4 then none else some (drop 4 data')

  unfoldable pub in_database : {A : Type 0} → Exec (Database l) A → Exec Node A
  in_database m n = (record n { database = (m n.database).0 }, (m n.database).1)

  -- `log_state_machine::commit`, with the document in hand.
  unfoldable pub commit_document : ℕ → json.Value → Exec Node ℕ
  commit_document log_idx request = do
    id_value ← need (at l request request_id)
    label ← need (json.get_uint64 id_value)
    modify (λ n. record n { last_committed_idx = log_idx })
    in_database (upsert l label request (get_index_type_from_request l request))
    pure log_idx

  -- `log_state_machine::commit`: what it returns is the index that it puts into the new buffer.
  unfoldable pub commit : ℕ → Bytes → Exec Node ℕ
  commit log_idx data' = elim (content_of data') [
    | none ↦ lift (throw length_error)
    | some content ↦ commit_document log_idx (json.parse (c_str content))
  ]

  -- `pre_commit` only logs.
  unfoldable pub pre_commit : Bytes → Exec Node Unit
  pre_commit data' = elim (content_of data') [
    | none ↦ lift (throw length_error)
    | some content ↦ pure tt
  ]

  unfoldable pub commit_config : ℕ → Node → Node
  commit_config log_idx n = record n { last_committed_idx = log_idx }

  -- `RaftStuff::isLeader`.
  unfoldable pub is_leader : Node → Bool
  is_leader n = elim n.raft_instance [ none ↦ false | some server ↦ r.is_leader server ]

  -- The buffer that `appendEntries` fills.
  unfoldable pub entry_buffer : Bytes → Bytes
  entry_buffer entry = r.put_length (length entry) ++ entry

  -- `RaftStuff::appendEntries`; its result is null where it does nothing.
  unfoldable pub append_entries : Bytes → Node → Node × Bool
  append_entries entry n = elim n.raft_instance [
    | none ↦ (n, false)
    | some server ↦
        if r.is_leader server
        then (
          record n { raft_instance = some (r.append_entries (entry_buffer entry ∷ []) server) },
          true,
        )
        else (n, false)
  ]

  -- `RaftStuff::addSrv` calls through the pointer without a test.
  unfoldable pub add_srv : ℤ → Bytes → Exec Node Unit
  add_srv srv_id srv_endpoint = do
    instance' ← gets (λ n. n.raft_instance)
    server ← need instance'
    modify (λ n. record n {
      raft_instance = some (r.add_srv (record { id = srv_id; endpoint = srv_endpoint }) server);
    })

  unfoldable pub enable_election_timeout : ℤ → ℤ → Node → Node
  enable_election_timeout lower_bound upper_bound n = elim n.raft_instance [
    | none ↦ n
    | some server ↦ record n {
      raft_instance = some (r.update_election_timeout lower_bound upper_bound server);
    }
  ]

  unfoldable pub info_of : r.Server → SrvConfig → NodeInfo
  info_of server srv =
      let (last_log_idx, last_succ_resp_us) = r.get_peer_info srv.id server in
      record {
        node_id = srv.id;
        endpoint = srv.endpoint;
        state = if int_eq srv.id (r.get_leader server) then codes "leader" else codes "follower";
        last_log_idx = last_log_idx;
        last_succ_resp_us = last_succ_resp_us;
      }

  -- The loop of `getAllNodesInfo`.
  unfoldable pub infos_of : r.Server → List (Option SrvConfig) → List NodeInfo
  infos_of server [] = []
  infos_of server (none ∷ rest) = infos_of server rest
  infos_of server (some srv ∷ rest) = info_of server srv ∷ infos_of server rest

  unfoldable pub get_all_nodes_info : Node → List NodeInfo
  get_all_nodes_info n = elim n.raft_instance [
    | none ↦ []
    | some server ↦ elim (r.get_servers server) [ none ↦ [] | some srvs ↦ infos_of server srvs ]
  ]

  -- A tuple as it is declared.
  abbrev pub no_info : NodeInfo
  no_info = record {
    node_id = pos 0;
    endpoint = [];
    state = [];
    last_log_idx = 0;
    last_succ_resp_us = 0;
  }

  -- The loop of `getCurrentNodesInfo`.
  unfoldable pub find_info : ℤ → r.Server → List (Option SrvConfig) → NodeInfo
  find_info node_id server [] = no_info
  find_info node_id server (none ∷ rest) = find_info node_id server rest
  find_info node_id server (some srv ∷ rest) =
      if int_eq srv.id node_id then info_of server srv else find_info node_id server rest

  unfoldable pub get_current_nodes_info : Node → NodeInfo
  get_current_nodes_info n = elim n.raft_instance [
    | none ↦ no_info
    | some server ↦ elim (r.get_servers server) [
      | none ↦ no_info
      | some srvs ↦ find_info n.node_id server srvs
    ]
  ]
