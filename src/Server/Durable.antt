-- ===== src/Server/Durable.antt =====
-- Every event keeps what a running process promises of its log.
use learn_vector_db.Prelude.{
  ◌≤◌, Bool, Bool-cases, if◌then◌else◌, List, [], ◌∷◌, ◌≡◌, refl, sym, ap, ◌∙◌, arith, inl, inr,
}
use learn_vector_db.Raft.{Raft, RaftLaws}
use learn_vector_db.Wal.{Persistence}
use learn_vector_db.Wal.Lines.{LogEntry, last_id}
use learn_vector_db.LogStore.{LogStore}
use learn_vector_db.LogStore.Refine.{Represents}
use learn_vector_db.LogStore.Spec.{Op, Log, step, Allowed}
use learn_vector_db.LogStore.Simulation.{apply_op-Simulates}
use learn_vector_db.IndexFactory.{Libraries}
use learn_vector_db.RaftStuff.{RaftServer, commit_config}
use learn_vector_db.StateMgr.{Configs, save_config, save_state}
use learn_vector_db.Decimal.{max_u64}
use learn_vector_db.HttpServer.Served.{asks_snapshot}
use learn_vector_db.HttpServer.Logged.{snapped, serve_request-persistence}
use mathlib.Core.Path.{subst}
use learn_vector_db.Server.{System}
use learn_vector_db.Server.Events.{
  Event, log_event, commit_event, commit_config_event, save_config_event, save_state_event,
  raft_event, request_event, apply_event, apply_log, apply_events, log_step, log_steps, Permitted,
  AllPermitted, Running, file_id,
}
use learn_vector_db.Server.Steps.{snapped_file, snapped_rest, step-Behind, commit-persistence}

module _ (l : Libraries) (r : Raft) (rs : RaftServer) (c : Configs) where
  module _ {es : List LogEntry} where
    -- An event that leaves the store and the write-ahead log alone.
    unchanged :
        (sys sys' : System l r rs c) (a : Log r)
        → sys'.mgr.cur_log_store ≡ sys.mgr.cur_log_store
        → sys'.node.database.persistence ≡ sys.node.database.persistence
        → Running l r rs c es sys a
        → Running l r rs c es sys' a
    unchanged sys sys' a s p h = record {
      represents =
          subst (λ x. Represents r x (r.plain_entry 0 r.blank) a.entries) (sym s) h.represents;
      same_start = ap (λ (x : LogStore r). x.start_idx) s ∙ h.same_start;
      log_written = ap (λ (x : Persistence). x.content) p ∙ h.log_written;
      still_good = ap (λ (x : Persistence). x.good) p ∙ h.still_good;
      same_id = ap (λ (x : Persistence). x.increase_id) p ∙ h.same_id;
      file_old =
          subst (λ (x : Persistence). file_id x.max_log_id_file ≤ last_id es 10) (sym p) h.file_old;
      behind = h.behind;
    }

    -- A snapshot changes what it notes of the identifiers, which is no later than the log.
    after_snapshot :
        (writable : Bool) (sys sys' : System l r rs c) (a : Log r)
        → sys'.mgr.cur_log_store ≡ sys.mgr.cur_log_store
        → sys'.node.database.persistence ≡ snapped writable sys.node.database.persistence
        → Running l r rs c es sys a
        → Running l r rs c es sys' a
    after_snapshot writable sys sys' a s p h =
        let q = sys.node.database.persistence in
        let (content, good, id) = snapped_rest writable q in
        let fits : last_id es 10 ≤ max_u64 =
          omega (arith, h.behind.start_above, h.same_start, h.represents.bounded) in
        record {
          represents =
              subst (λ x. Represents r x (r.plain_entry 0 r.blank) a.entries) (sym s) h.represents;
          same_start = ap (λ (x : LogStore r). x.start_idx) s ∙ h.same_start;
          log_written = ap (λ (x : Persistence). x.content) p ∙ content ∙ h.log_written;
          still_good = ap (λ (x : Persistence). x.good) p ∙ good ∙ h.still_good;
          same_id = ap (λ (x : Persistence). x.increase_id) p ∙ id ∙ h.same_id;
          file_old =
              subst (λ (x : Persistence). file_id x.max_log_id_file ≤ last_id es 10) (sym p)
                (snapped_file writable q (last_id es 10) h.same_id fits h.file_old);
          behind = h.behind;
        }

    module _ (laws : RaftLaws r) where
      apply_log-Running :
          (op : Op r) (sys : System l r rs c) (a : Log r)
          → Allowed r op a
          → Running l r rs c es sys a
          → Running l r rs c es (apply_event l r rs c (log_event op) sys) (step r op a)
      unfolding apply_event apply_log
      apply_log-Running op sys a k h =
          let q = sys.node.database.persistence in
          let sim =
            apply_op-Simulates r (r.plain_entry 0 r.blank) q laws op (sys.mgr.cur_log_store, q) a
              (record {
                represents = h.represents;
                same_start = h.same_start;
                wrote = record {
                  content_same = h.log_written;
                  still_good = h.still_good;
                  same_increase = refl;
                  same_snapshot = refl;
                  same_file = refl;
                };
              })
              k in
          record {
            represents = sim.represents;
            same_start = sim.same_start;
            log_written = sim.wrote.content_same;
            still_good = sim.wrote.still_good;
            same_id = sim.wrote.same_increase ∙ h.same_id;
            file_old = subst (λ x. file_id x ≤ last_id es 10) (sym sim.wrote.same_file) h.file_old;
            behind = step-Behind r op a k h.behind;
          }

      apply_event-Running :
          (e : Event l r rs c) (sys : System l r rs c) (a : Log r)
          → Permitted l r rs c e a
          → Running l r rs c es sys a
          → Running l r rs c es (apply_event l r rs c e sys) (log_step l r rs c e a)
      unfolding apply_event
      apply_event-Running (log_event op) sys a k h = apply_log-Running op sys a k h
      apply_event-Running (commit_event index text) sys a k h =
          unchanged sys _ a refl (commit-persistence l rs index text sys.node) h
      apply_event-Running (commit_config_event index) sys a k h =
          unchanged sys _ a refl (unfold commit_config in refl) h
      apply_event-Running (save_config_event config) sys a k h =
          unchanged sys _ a (unfold save_config in refl) refl h
      apply_event-Running (save_state_event state) sys a k h =
          unchanged sys _ a (unfold save_state in refl) refl h
      apply_event-Running (raft_event f) sys a k h = unchanged sys _ a refl refl h
      apply_event-Running (request_event writable q) sys a k h =
          let p = sys.node.database.persistence in
          let served = serve_request-persistence l rs writable sys.node q in
          elim (Bool-cases (asks_snapshot q.method q.path)) [
            | inl asked ↦
                after_snapshot writable sys _ a refl
                  (served ∙ ap (λ b. if b then snapped writable p else p) asked) h
            | inr quiet ↦
                unchanged sys _ a refl
                  (served ∙ ap (λ b. if b then snapped writable p else p) quiet) h
          ]

      -- Whatever happens in a process, its log store stands for the log of the specification, its
      -- write-ahead log holds the lines that the process found and behind them one line for each
      -- application entry that was stored since, all with greater identifiers, and neither the
      -- identifier of the process nor a snapshot's passes the lines that it found.
      pub apply_events-Running :
          (events : List (Event l r rs c)) (sys : System l r rs c) (a : Log r)
          → AllPermitted l r rs c events a
          → Running l r rs c es sys a
          → Running l r rs c es (apply_events l r rs c events sys) (log_steps l r rs c events a)
      unfolding apply_events log_steps
      apply_events-Running [] sys a k h = h
      apply_events-Running (e ∷ events) sys a k h =
          apply_events-Running events (apply_event l r rs c e sys) (log_step l r rs c e a) k.1
            (apply_event-Running e sys a k.0 h)
