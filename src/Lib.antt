-- ===== src/Lib.antt =====
-- A model of the vector database learn_vector_db, with theorems on what its parts do.
--
-- The parts and how they interact. A request comes to a handler of `HttpServer` (http_server.cpp).
-- A search or a query goes to `VectorDatabase` (vector_database.cpp); a write goes to `RaftStuff`
-- (raft_stuff.cpp), which appends the body of the request to the log of NuRaft. That log is kept by
-- `inmem_log_store` (in_memory_log_store.cpp), which also writes each application entry to the
-- write-ahead log of `Persistence` (persistence.cpp). When an entry is committed,
-- `log_state_machine::commit` (log_state_machine.cpp) calls `VectorDatabase::upsert`, which changes
-- the vector index (faiss_index.cpp, hnswlib_index.cpp), the filter index (filter_index.cpp) and the
-- scalar storage (scalar_storage.cpp). The indexes are found through `IndexFactory`
-- (index_factory.cpp). When the server starts, `reloadDatabase` loads the snapshot and replays the
-- write-ahead log behind it; then `RaftStuff::Init` starts NuRaft on a log store and a state manager
-- (in_memory_state_mgr.h), and `main` (vdb_server.cpp) serves requests.
--
-- The files.
--   Prelude and its children: shared names, tests and lemmas; Result, Exec: errors, and methods that
--     change a state and may throw; StdMap: std::map, with what
--     holds of ascending keys in StdMap/Ordered; Decimal: std::to_string, std::stoull.
--   Json, Raft: the interfaces of rapidjson and of NuRaft's buffers and entries.
--   Wal: persistence.h and persistence.cpp. A file is its content and the lines that are still to be
--     read. Wal/ReadBack: reading what was written. Wal/Lines: a log of whole lines.
--   FilterIndex: filter_index.cpp. FilterIndex/Members: who is in the index; FilterIndex/Ordered: how
--     its maps are kept; FilterIndex/Queries: both queries; FilterIndex/Saved, FilterIndex/RoundTrip
--     and FilterIndex/Newline: the saved text.
--   ScalarStorage: scalar_storage.cpp. Its children Page, Range and Stored hold the theorems.
--   VectorIndex: faiss_index.cpp and hnswlib_index.cpp. IndexFactory: index_factory.cpp.
--   AnnoyIndex: annoy_index.cpp, which no other part uses. AnnoyIndex/Answer: what a search answers.
--   Database: vector_database.cpp, with the snapshot methods of persistence.cpp; the children Search
--     and Reload hold `search` and `reloadDatabase`, the others what is proved of them: Upsert and
--     Stored on the documents, Stays, Indexed and OldFields on the fields in the filter index, Exact and
--     Ordered on a filter index that agrees with the documents, History on sequences of methods,
--     Searched, Selected, Filtered, Answers and Matches on a search with a filter, Snapshot on what the
--     next process loads. Below Reload, Log, InOrder, Total and Seen follow the log, Rebuilt, Reads and
--     Fields the documents and their fields.
--   LogStore: in_memory_log_store.cpp. LogStore/Refine says what a store stands for: a dummy entry and
--     the list of the entries from the start index on. LogStore/Spec: the same as an abstract log with
--     the lines that were written, and the operations of NuRaft on it; LogStore/Simulation
--     and LogStore/Wrote: the store against that log; LogStore/Progress: the emulated disk after an append. The other children hold
--     one group of methods each.
--   RaftStuff: raft_stuff.cpp and log_state_machine.cpp. RaftStuff/Commit: a committed request;
--     RaftStuff/Committed: what it does to the database.
--   StateMgr: in_memory_state_mgr.h. Logger: logger.cpp. RaftLogger: raft_logger_wrapper.h.
--   Server: vdb_server.cpp, with the constructors of `VectorDatabase` and `RaftStuff`. Server/Events:
--     what happens in a running process, as a list of events, and what is kept along it;
--     Server/Opened and Server/Start: the process as it starts; Server/Steps and Server/Durable: one
--     event after the other; Server/Restart: what the process leaves for the next one; Server/Fields:
--     searches in a running process.
--   Similarity: in_mem_vector_similarity.h, which no other part uses; Similarity/TopK and
--     Similarity/Least: which pairs it finds.
--   HttpServer: the shared parts of http_server.cpp; HttpServer/Documents, HttpServer/Cluster and
--     HttpServer/Scalars: the handlers; HttpServer/Routes: the routes of the constructor; HttpServer/Quiet
--     and HttpServer/Served: what a request keeps of the database; the other children: what is proved of
--     the handlers.
--   Tests: small libraries, and the theorems at concrete inputs.
--
-- Conventions. A method of an object is a function from its state to the new state with a result; a
-- method that throws keeps what it changed before. An assertion of rapidjson that fails, or a call
-- through a null pointer, is the result `aborted`. A process is its node and its state manager; an
-- event of it is a call of NuRaft, a request, or what NuRaft's threads do to its server, which may be
-- anything. What is assumed of NuRaft's calls of the log store is `Allowed` in LogStore/Spec. Integers
-- are natural numbers, with the wrap-around of 64 and 32 bits written out, and `int64_t` is the type ℤ
-- of Json. RocksDB, CRoaring, FAISS, hnswlib, Annoy, rapidjson, spdlog, SimpleLogger and NuRaft
-- are parameters; what is assumed of them is in the records RocksLaws, RoaringLaws, FaissLaws, HnswLaws,
-- RaftLaws and FloatLaws, in FourBytes, and in Takes, by which RocksDB refuses no write; Tests has instances of
-- all eight.
--
-- Bounds and fuel. The loop of `reloadDatabase` has fuel: one round for each line of the log and one
-- for its end are enough. All other loops are structural. Where a theorem on the log store asks for
-- indices below 2 ^ 64, it is because the source's indices have 64 bits. `log_entries` is modelled for a
-- start below 2 ^ 63. A pack that comes to a log store is one that another store made; `apply_pack` is
-- modelled on any bytes.
--
-- Not modelled: locks and threads (a method is one step, and so is one round of `disk_emul_loop`),
-- what is logged, memory that is freed, a disk that refuses a write, the sockets of the HTTP
-- server and a request without a route, and what NuRaft's launcher does. httplib.h, raft_logger.h,
-- raft_logger.cpp and backtrace.h are copies of libraries.
pub mod Prelude
pub mod Result
pub mod StdMap
pub mod Decimal
pub mod Json
pub mod ScalarStorage
pub mod Wal
pub mod FilterIndex
pub mod Exec
pub mod VectorIndex
pub mod IndexFactory
pub mod AnnoyIndex
pub mod Database
pub mod Raft
pub mod RaftStuff
pub mod StateMgr
pub mod Server
pub mod RaftLogger
pub mod Logger
pub mod Similarity
pub mod HttpServer
pub mod LogStore
pub mod Tests
