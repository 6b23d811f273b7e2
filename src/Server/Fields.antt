-- ===== src/Server/Fields.antt =====
-- A field of the filter index in a running process.
use mathlib.Core.Path.{subst}
use learn_vector_db.Prelude.{Option, none, some, List, [], ◌∷◌, Bytes, sym}
use learn_vector_db.Json.{ℤ, c_str}
use learn_vector_db.Raft.{Raft}
use learn_vector_db.FilterIndex.{RoaringLaws}
use learn_vector_db.ScalarStorage.{RocksLaws}
use learn_vector_db.IndexFactory.{Libraries}
use learn_vector_db.Database.{Database}
use learn_vector_db.Database.Search
use learn_vector_db.Database.Selected.{FaissLaws, HnswLaws}
use learn_vector_db.Database.Filtered.{AsksFor}
use learn_vector_db.Database.Exact.{Exact}
use learn_vector_db.Database.History.{
  DocumentStores, stored-Later, Later, unchanged, inserted, searched, logged, snapped,
}
use learn_vector_db.Database.Answers.{SaysAfter, search_later}
use learn_vector_db.Database.Stored.{label_of}
use learn_vector_db.RaftStuff.{RaftServer, content_of, commit_config}
use learn_vector_db.RaftStuff.Committed.{commits, commit-database}
use learn_vector_db.StateMgr.{Configs}
use learn_vector_db.HttpServer.Quiet.{IsQuiet}
use learn_vector_db.HttpServer.Served.{serve_request-Keeps}
use learn_vector_db.Server.{System}
use learn_vector_db.Server.Events.{
  Event, log_event, commit_event, commit_config_event, save_config_event, save_state_event,
  raft_event, request_event, apply_log, apply_event, apply_events,
}

module _ (l : Libraries) (r : Raft) (rs : RaftServer) (c : Configs) (field : Bytes) where
  open l use {json}

  abbrev pub ContentStores : Option Bytes → Database l → Type 0
  ContentStores none db = Unit
  ContentStores (some content) db =
      let document = json.parse (c_str content) in
      DocumentStores l field (label_of l document) document db

  abbrev pub EventStores : Event l r rs c → Database l → Type 0
  EventStores (log_event op) db = Unit
  EventStores (commit_event index text) db = ContentStores (content_of l rs text) db
  EventStores (commit_config_event index) db = Unit
  EventStores (save_config_event config) db = Unit
  EventStores (save_state_event state) db = Unit
  EventStores (raft_event f) db = Unit
  EventStores (request_event writable q) db = Unit

  -- Every document is stored when it is committed.
  abbrev pub AllStore : List (Event l r rs c) → System l r rs c → Type 0
  AllStore [] sys = Unit
  AllStore (e ∷ es) sys = EventStores e sys.node.database × AllStore es (apply_event l r rs c e sys)

  module _ (start : Database l) where
    Later-IsQuiet : IsQuiet l (Later l field start)
    Later-IsQuiet = record {
      searches = λ request. record { hold = λ db h. searched request h };
      inserts = λ type vector id. record { hold = λ db h. inserted type vector id h };
    }

    commits-Later :
        (content : Option Bytes) (db : Database l)
        → ContentStores content db
        → Later l field start db
        → Later l field start (commits l rs content db)
    commits-Later none db s h = h
    commits-Later (some content) db s h =
        let document = json.parse (c_str content) in
        stored-Later l field start (label_of l document) document db s h

    event-Later :
        (e : Event l r rs c) (sys : System l r rs c)
        → EventStores e sys.node.database
        → Later l field start sys.node.database
        → Later l field start (apply_event l r rs c e sys).node.database
    unfolding apply_event apply_log commit_config
    event-Later (log_event op) sys s h = logged _ h
    event-Later (commit_event index text) sys s h =
        subst (Later l field start) (sym (commit-database l rs index text sys.node))
          (commits-Later (content_of l rs text) sys.node.database s h)
    event-Later (commit_config_event index) sys s h = h
    event-Later (save_config_event config) sys s h = h
    event-Later (save_state_event state) sys s h = h
    event-Later (raft_event f) sys s h = h
    event-Later (request_event writable q) sys s h =
        serve_request-Keeps l rs (Later l field start) Later-IsQuiet writable q sys.node
          (λ asked db k. snapped writable k) h

    pub events-Later :
        (es : List (Event l r rs c)) (sys : System l r rs c)
        → AllStore es sys
        → Later l field start sys.node.database
        → Later l field start (apply_events l r rs c es sys).node.database
    unfolding apply_events
    events-Later [] sys s h = h
    events-Later (e ∷ es) sys s h =
        events-Later es (apply_event l r rs c e sys) s.1 (event-Later e sys s.0 h)

-- Where the filter index of a process was exact for a field, a search that comes after any events, and
-- whose filter asks for a value of the field, answers only identifiers whose stored document has the
-- value there, compared by their low 32 bits, and -1 for a place without one. Every document that is
-- committed among the events and has an identifier is stored by an `upsert` that returns, that the
-- database takes and that does not drop the field, and FAISS and hnswlib keep to a selector.
pub search_running :
    (l : Libraries) (r : Raft) (rs : RaftServer) (c : Configs) (request : l.json.Value)
    (field : Bytes) (value : ℤ) (asks : AsksFor l request field value) (es : List (Event l r rs c))
    (sys : System l r rs c)
    → RocksLaws l.rocks
    → RoaringLaws l.roaring
    → FaissLaws l.faiss
    → HnswLaws l.hnsw
    → Exact l field sys.node.database
    → AllStore l r rs c field es sys
    → (let db = (apply_events l r rs c es sys).node.database in
        SaysAfter l request field value asks db (Search.search l request db))
search_running l r rs c request field value asks es sys rocks_laws laws fl hl exact stores =
    let db = (apply_events l r rs c es sys).node.database in
    search_later l request field value asks sys.node.database db rocks_laws laws fl hl exact
      (events-Later l r rs c field sys.node.database es sys stores unchanged)
