-- ===== src/Server/Start.antt =====
-- The process as it starts on a sound disk.
use mathlib.Core.Path.{subst}
use mathlib.Core.List.{append-nil}
use learn_vector_db.Prelude.{
  ◌+◌, ◌<◌, ◌≤◌, ◌^◌, Option, none, some, List, [], Bytes, codes, ◌≡◌, refl, sym, ap, ◌∙◌, arith,
  inl, inr,
}
use learn_vector_db.Result.{Result, ok, throw, Result-cases, Whenever, Whenever-after}
use learn_vector_db.Json.{ℤ}
use learn_vector_db.Raft.{Raft}
use learn_vector_db.Wal.{Persistence, Disk, lines}
use learn_vector_db.Wal.Lines.{LogEntry, last_id}
use learn_vector_db.LogStore.Spec.{Log}
use learn_vector_db.LogStore.Start.{init_lem}
use learn_vector_db.IndexFactory.{Libraries}
use learn_vector_db.Database.{Database, load_snapshot}
use learn_vector_db.Database.Reload.{reload_database}
use learn_vector_db.Database.Reload.Log.{replay_log}
use learn_vector_db.Database.Reload.Total.{reload_database_total}
use learn_vector_db.Database.Reload.Seen.{
  Seen, SeenAfter, replay_log-Seen, load_snapshot-persistence, reload_database-log,
  reload_database-throws,
}
use learn_vector_db.RaftStuff.{RaftServer, set_vector_database}
use learn_vector_db.StateMgr.{Configs, new_state_mgr}
use learn_vector_db.Server.{
  Outside, System, Config, Boot, boot, init_raft, serve, serve_reloaded, start, stoi, value_of,
  read_config_file,
}
use learn_vector_db.Server.Events.{Running, Behind, Sound, file_id}
use learn_vector_db.Server.Opened.{Opened, boot-Opened}

module _ (r : Raft) where
  -- A log store without entries behind the lines of `es`.
  unfoldable pub fresh : List LogEntry → Log r
  fresh es = record { start = last_id es 10 + 1; entries = []; written = es }

  fresh-Behind : (es : List LogEntry) → Behind r es (fresh es)
  unfolding fresh
  fresh-Behind es = record {
    new = [];
    written_same = sym (append-nil es);
    all_above = tt;
    start_above = omega arith;
  }

module _ (l : Libraries) (r : Raft) (rs : RaftServer) (c : Configs) where
  module _ (es : List LogEntry) (disk : Disk) (sound : Sound es disk)
      (fits : last_id es 10 + 1 < 2 ^ 64) where
    init_raft-Running :
        (o : Outside l r rs c) (node_id port : ℤ) (endpoint : Bytes) (p : Persistence)
        (db : Database l)
        → Opened disk p
        → Seen es p db.persistence
        → Running l r rs c es (init_raft l r rs c o node_id endpoint port db) (fresh r es)
    unfolding init_raft set_vector_database new_state_mgr fresh
    init_raft-Running o node_id port endpoint p db opened seen =
        let id : db.persistence.increase_id ≡ last_id es 10 =
          seen.seen_id ∙ ap (last_id es) opened.first_id in
        let (rep, start, _) = init_lem r db.persistence (omega (arith, id, fits)) in
        record {
          represents = rep;
          same_start = start ∙ ap (λ n. n + 1) id;
          log_written = seen.same_content ∙ opened.all_content ∙ sound.log_same;
          still_good = seen.now_good;
          same_id = id;
          file_old =
              subst (λ x. file_id x ≤ last_id es 10) (sym (seen.same_file ∙ opened.found_file))
                sound.snapshot_old;
          behind = fresh-Behind r es;
        }

    module _ (o : Outside l r rs c) where
      -- What holds of the process, if the start gives one.
      abbrev Starts : Option (Result (System l r rs c)) → Type 0
      Starts none = Unit
      Starts (some x) = Whenever (λ sys. Running l r rs c es sys (fresh r es)) x

      serve_reloaded-Starts :
          (b : Boot l r rs c) (p : Persistence) (x : Database l × Result (Unit {0}))
          → Opened disk p
          → SeenAfter l es p x
          → Starts (serve_reloaded l r rs c o b (some x))
      unfolding serve
      serve_reloaded-Starts b p (db, throw e) opened seen = tt
      serve_reloaded-Starts b p (db, ok a) opened seen =
          Whenever-after _ (stoi (value_of (codes "http_server_port") b.config)) _ (λ port.
            init_raft-Running o b.node_id b.port (value_of (codes "endpoint") b.config) p db opened
              seen)

      reloaded-Starts :
          (b : Boot l r rs c)
          → Opened disk b.database.persistence
          → Starts (serve_reloaded l r rs c o b (reload_database l b.database))
      reloaded-Starts b opened =
          let db1 = (load_snapshot l b.database).0 in
          elim (Result-cases (load_snapshot l b.database).1) [
            | inr (e, bad) ↦ rw (reload_database-throws l e b.database bad) tt
            | inl (u, good) ↦
                rw
                  (reload_database-log l es b.database sound.whole
                    (opened.all_unread ∙ ap lines sound.log_same) good)
                  (serve_reloaded-Starts b b.database.persistence (replay_log l es db1) opened (
                    subst (λ p. SeenAfter l es p (replay_log l es db1))
                      (load_snapshot-persistence l b.database) (replay_log-Seen l es db1)))
          ]

      start-Starts :
          (config : Config)
          → read_config_file l.spdlog none o.config_file ≡ ok config
          → o.open_log (value_of (codes "wal_path") config) ≡ some disk
          → Starts (start l r rs c o)
      unfolding start
      start-Starts config read h = elim (Result-cases (boot l r rs c o)) [
        | inr (e, bad) ↦ rw (bad, start) tt
        | inl (b, good) ↦
            rw (good, start)
              (reloaded-Starts b (
                subst (Whenever (λ (b : Boot l r rs c). Opened disk b.database.persistence)) good
                  (boot-Opened l r rs c o disk config read h)))
      ]

      -- A process that starts on a log of whole lines, with a snapshot of no later identifier, has a
      -- log store without entries whose start index is the one behind every identifier of the log.
      pub start-Running :
          (config : Config) (sys : System l r rs c)
          → read_config_file l.spdlog none o.config_file ≡ ok config
          → o.open_log (value_of (codes "wal_path") config) ≡ some disk
          → start l r rs c o ≡ some (ok sys)
          → Running l r rs c es sys (fresh r es)
      start-Running config sys read h started = subst Starts started (start-Starts config read h)

  serve_reloaded_total :
      (o : Outside l r rs c) (b : Boot l r rs c) (y : Database l × Result (Unit {0}))
      → (x : Result (System l r rs c)) × (serve_reloaded l r rs c o b (some y) ≡ some x)
  serve_reloaded_total o b (db, ok a) = (serve l r rs c o b db, refl)
  serve_reloaded_total o b (db, throw e) = (throw e, refl)

  -- The start comes to an end, with a process or by a throw: the fuel of the reload does not run out.
  pub start_total :
      (o : Outside l r rs c) → (x : Result (System l r rs c)) × (start l r rs c o ≡ some x)
  unfolding start
  start_total o = elim (Result-cases (boot l r rs c o)) [
    | inr (e, bad) ↦ (throw e, rw (bad, start))
    | inl (b, good) ↦
        let (y, reloaded) = reload_database_total l b.database in
        let (x, served) = serve_reloaded_total o b y in
        (x, rw (good, start) (ap (serve_reloaded l r rs c o b) reloaded ∙ served))
  ]
