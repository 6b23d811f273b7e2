-- ===== src/Server/Restart.antt =====
-- What a process that ends leaves for the next one.
use learn_vector_db.Prelude.{
  none, ℕ, ◌+◌, ◌<◌, ◌≤◌, ◌^◌, some, List, [], ◌∷◌, ◌++◌, codes, ◌≡◌, ap, ◌∙◌, arith,
}
use learn_vector_db.Result.{ok}
use learn_vector_db.Raft.{Raft, RaftLaws}
use learn_vector_db.Wal.{Disk, lines}
use learn_vector_db.Wal.Lines.{LogEntry, AllLines, AllAbove, last_id, last_id_grows, last_id-append}
use learn_vector_db.LogStore.Spec.{Log}
use learn_vector_db.IndexFactory.{Libraries}
use learn_vector_db.Database.{Database, load_snapshot}
use learn_vector_db.Database.Reload.{reload_database}
use learn_vector_db.Database.Reload.Log.{replay_log}
use learn_vector_db.Database.Reload.Seen.{reload_database-log}
use learn_vector_db.RaftStuff.{RaftServer}
use learn_vector_db.StateMgr.{Configs}
use learn_vector_db.Server.{Outside, System, Config, start, value_of, read_config_file}
use learn_vector_db.Server.Events.{
  Event, apply_events, log_steps, AllPermitted, Running, Behind, Sound, disk_of,
}
use learn_vector_db.Server.Durable.{apply_events-Running}
use learn_vector_db.Server.Opened.{Opened}
use learn_vector_db.Server.Start.{fresh, start-Running}

AllAbove-weaken : (m n : ℕ) (es : List LogEntry) → m ≤ n → AllAbove n es → AllAbove m es
AllAbove-weaken m n [] h k = tt
AllAbove-weaken m n (e ∷ es) h k = (omega (arith, h, k.0), AllAbove-weaken m n es h k.1)

module _ (l : Libraries) (r : Raft) (rs : RaftServer) (c : Configs) where
  written_last :
      (es : List LogEntry) (a : Log r) → Behind r es a → last_id es 10 ≤ last_id a.written 10
  written_last es a h = omega (
    arith,
    ap (λ x. last_id x 10) h.written_same,
    last_id-append es h.new 10,
    last_id_grows h.new (last_id es 10),
  )

  disk_of-Sound :
      (es : List LogEntry) (sys : System l r rs c) (a : Log r)
      → Running l r rs c es sys a
      → AllLines a.written
      → Sound a.written (disk_of l r rs c sys)
  unfolding disk_of
  disk_of-Sound es sys a h whole = record {
    log_same = h.log_written;
    whole = whole;
    snapshot_old = omega (arith, h.file_old, written_last es a h.behind);
  }

  -- A process that starts on a sound disk leaves a sound one whenever it ends, with the lines that it
  -- found and those of the application entries that `append` and `write_at` stored, if NuRaft calls the
  -- log store as it may and the entries have texts that stay lines. An entry that came in a pack has no
  -- line.
  pub events-Sound :
      RaftLaws r
      → (es : List LogEntry) (disk : Disk) (o : Outside l r rs c) (config : Config)
        (sys : System l r rs c) (events : List (Event l r rs c))
      → Sound es disk
      → last_id es 10 + 1 < 2 ^ 64
      → read_config_file l.spdlog none o.config_file ≡ ok config
      → o.open_log (value_of (codes "wal_path") config) ≡ some disk
      → start l r rs c o ≡ some (ok sys)
      → AllPermitted l r rs c events (fresh r es)
      → AllLines (log_steps l r rs c events (fresh r es)).written
      → Sound
          (log_steps l r rs c events (fresh r es)).written
          (disk_of l r rs c (apply_events l r rs c events sys))
  events-Sound laws es disk o config sys events sound fits read opened started permitted whole =
      disk_of-Sound es (apply_events l r rs c events sys) (log_steps l r rs c events (fresh r es))
        (apply_events-Running l r rs c laws events sys (fresh r es) permitted
          (start-Running l r rs c es disk sound fits o config sys read opened started))
        whole

  module _ (es : List LogEntry) (sys : System l r rs c) (a : Log r) (h : Running l r rs c es sys a)
      (whole : AllLines a.written) where
    -- A process that ends in this state, and the next one.
    reload_database-Running :
        (db : Database l)
        → Opened (disk_of l r rs c sys) db.persistence
        → (load_snapshot l db).1 ≡ ok tt
        → (reload_database l db ≡ some (replay_log l a.written (load_snapshot l db).0))
          × (new : List LogEntry) × (a.written ≡ es ++ new)
          × AllAbove db.persistence.last_snapshot_id new
    unfolding disk_of
    reload_database-Running db opened loaded = (
      reload_database-log l a.written db whole (opened.all_unread ∙ ap lines h.log_written) loaded,
      h.behind.new,
      h.behind.written_same,
      AllAbove-weaken db.persistence.last_snapshot_id (last_id es 10) h.behind.new
          (omega (arith, opened.snapshot_id, h.file_old)) h.behind.all_above,
    )

  -- A process starts on a sound disk, any events happen in it, snapshots and the calls of NuRaft among
  -- them, and it ends; NuRaft calls the log store as it may, and the entries have texts that stay
  -- lines. Then a database that opens what it leaves, and whose snapshot loads, replays just the lines
  -- of the log behind the snapshot, in their order and until one of them throws. The log is what the
  -- process found and behind it the lines that it wrote, and each line that it wrote is behind the
  -- snapshot, also where the snapshot was taken after it: none of them is passed over.
  pub reload_database-apply_events :
      RaftLaws r
      → (es : List LogEntry) (disk : Disk) (o : Outside l r rs c) (config : Config)
        (sys : System l r rs c) (events : List (Event l r rs c)) (db : Database l)
      → Sound es disk
      → last_id es 10 + 1 < 2 ^ 64
      → read_config_file l.spdlog none o.config_file ≡ ok config
      → o.open_log (value_of (codes "wal_path") config) ≡ some disk
      → start l r rs c o ≡ some (ok sys)
      → AllPermitted l r rs c events (fresh r es)
      → AllLines (log_steps l r rs c events (fresh r es)).written
      → Opened (disk_of l r rs c (apply_events l r rs c events sys)) db.persistence
      → (load_snapshot l db).1 ≡ ok tt
      → (let written = (log_steps l r rs c events (fresh r es)).written in
          (reload_database l db ≡ some (replay_log l written (load_snapshot l db).0))
          × (new : List LogEntry) × (written ≡ es ++ new)
          × AllAbove db.persistence.last_snapshot_id new)
  reload_database-apply_events laws es disk o config sys events db sound fits read opened started
        permitted whole found loaded =
      reload_database-Running es (apply_events l r rs c events sys)
        (log_steps l r rs c events (fresh r es))
        (apply_events-Running l r rs c laws events sys (fresh r es) permitted
          (start-Running l r rs c es disk sound fits o config sys read opened started))
        whole db found loaded
