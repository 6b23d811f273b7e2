-- ===== src/StateMgr.antt =====
-- `inmem_state_mgr` of in_memory_state_mgr.h. The configurations and the server states of NuRaft are
-- a parameter. `system_exit` does nothing.
use learn_vector_db.Prelude.{Option, none, some, Bytes}
use learn_vector_db.Json.{ℤ}
use learn_vector_db.Raft.{Raft}
use learn_vector_db.Wal.{Persistence}
use learn_vector_db.LogStore
use learn_vector_db.LogStore.{LogStore}
use learn_vector_db.RaftStuff.{SrvConfig}

pub record Configs : Type 1 where
  pub Config : Type 0
  pub empty_config : Config
  pub push_back : SrvConfig → Config → Config
  pub serialize_config : Config → Bytes
  pub deserialize_config : Bytes → Config
  pub State : Type 0
  pub serialize_state : State → Bytes
  pub deserialize_state : Bytes → State

module _ (r : Raft) (c : Configs) where
  pub record StateMgr : Type 0 where
    pub my_id : ℤ
    pub my_endpoint : Bytes
    pub cur_log_store : LogStore r
    pub my_srv_config : SrvConfig
    pub saved_config : c.Config
    pub saved_state : Option c.State

  -- The constructor, with the write-ahead log of the database.
  unfoldable pub new_state_mgr : ℤ → Bytes → Persistence → StateMgr
  new_state_mgr srv_id endpoint p =
      let my_srv_config : SrvConfig = record { id = srv_id; endpoint = endpoint } in
      record {
        my_id = srv_id;
        my_endpoint = endpoint;
        cur_log_store = LogStore.init r p;
        my_srv_config = my_srv_config;
        saved_config = c.push_back my_srv_config c.empty_config;
        saved_state = none;
      }

  abbrev pub load_config : StateMgr → c.Config
  load_config m = m.saved_config

  unfoldable pub save_config : c.Config → StateMgr → StateMgr
  save_config config m = record m {
    saved_config = c.deserialize_config (c.serialize_config config);
  }

  unfoldable pub save_state : c.State → StateMgr → StateMgr
  save_state state m = record m {
    saved_state = some (c.deserialize_state (c.serialize_state state));
  }

  abbrev pub read_state : StateMgr → Option c.State
  read_state m = m.saved_state

  abbrev pub load_log_store : StateMgr → LogStore r
  load_log_store m = m.cur_log_store

  abbrev pub server_id : StateMgr → ℤ
  server_id m = m.my_id

  abbrev pub get_srv_config : StateMgr → SrvConfig
  get_srv_config m = m.my_srv_config
