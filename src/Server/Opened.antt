-- ===== src/Server/Opened.antt =====
-- What the start of the process finds in the write-ahead log.
use learn_vector_db.Prelude.{Option, none, some, Bytes, codes, ◌≡◌, refl}
use learn_vector_db.Result.{ok, Whenever, Whenever-bind, Whenever-after}
use learn_vector_db.Raft.{Raft}
use learn_vector_db.Logger.{debug, init_global_logger, set_log_level}
use learn_vector_db.Wal
use learn_vector_db.Wal.{Persistence, Disk, lines, extract, load_last_snapshot_id}
use learn_vector_db.ScalarStorage.{open_storage}
use learn_vector_db.IndexFactory.{Libraries}
use learn_vector_db.Database.{Database}
use learn_vector_db.RaftStuff.{RaftServer}
use learn_vector_db.StateMgr.{Configs}
use learn_vector_db.Server.{
  Outside, Config, Boot, boot, new_database, opened_log, stoi, value_of, read_config_file,
}
use learn_vector_db.Server.Events.{file_id}

-- What the constructor and `init` of `Persistence` find on the disk.
pub record Opened (disk : Disk) (p : Persistence) : Type 0 where
  pub all_content : p.content ≡ disk.log
  pub all_unread : p.unread ≡ lines disk.log
  pub first_id : p.increase_id ≡ 10
  pub snapshot_id : p.last_snapshot_id ≡ file_id disk.max_log_id
  pub found_file : p.max_log_id_file ≡ disk.max_log_id

init-Opened :
    (log : Bytes) (file : Option Bytes)
    → Whenever
        (Opened (record { log = log; max_log_id = file }))
        (opened_log (some (record { log = log; max_log_id = file })))
unfolding Wal.init load_last_snapshot_id
init-Opened log none = record {
  all_content = refl;
  all_unread = refl;
  first_id = refl;
  snapshot_id = refl;
  found_file = refl;
}
init-Opened log (some text) = record {
  all_content = refl;
  all_unread = refl;
  first_id = refl;
  snapshot_id = refl;
  found_file = refl;
}

module _ (l : Libraries) (r : Raft) (rs : RaftServer) (c : Configs) where
  module _ (o : Outside l r rs c) (disk : Disk) where
    new_database-Opened :
        (db_path wal_path : Bytes)
        → o.open_log wal_path ≡ some disk
        → Whenever
            (λ (db : Database l). Opened disk db.persistence)
            (new_database l r rs c o db_path wal_path)
    unfolding new_database
    new_database-Opened db_path wal_path h =
        Whenever-after _ (open_storage l.rocks (o.open_db db_path)) _ (λ scalars.
          Whenever-bind (Opened disk) _ (opened_log (o.open_log wal_path)) _
            (rw h (init-Opened disk.log disk.max_log_id)) (λ p k. k))

    pub boot-Opened :
        (config : Config)
        → read_config_file l.spdlog none o.config_file ≡ ok config
        → o.open_log (value_of (codes "wal_path") config) ≡ some disk
        → Whenever (λ (b : Boot l r rs c). Opened disk b.database.persistence) (boot l r rs c o)
    unfolding boot
    boot-Opened config read h =
        rw (read, boot)
          (Whenever-after _ (init_global_logger l.spdlog) _ (λ created.
            Whenever-after _ (set_log_level l.spdlog debug created) _ (λ logger.
              Whenever-after _ (stoi (value_of (codes "node_id") config)) _ (λ node_id.
                Whenever-after _ (stoi (value_of (codes "port") config)) _ (λ port.
                  Whenever-bind _ _
                    (new_database l r rs c o (value_of (codes "db_path") config)
                      (value_of (codes "wal_path") config))
                    _ (new_database-Opened _ _ h) (λ db k. k))))))
