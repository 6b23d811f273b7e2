-- ===== src/LogStore/Simulation.antt =====
-- The store does what the specification says, for every sequence of operations.
use learn_vector_db.Prelude.{
  ℕ, ◌+◌, ◌-◌, ◌%◌, ◌^◌, List, [], ◌∷◌, length, drop, leb, if◌then◌else◌, ◌≡◌, refl, sym, ap, ◌∙◌,
  arith,
}
use mathlib.Core.Path.{subst}
use learn_vector_db.Raft.{Raft, RaftLaws}
use learn_vector_db.Wal.{Persistence}
use learn_vector_db.LogStore.{
  LogStore, payload, write_at, compact, flush, set_disk_delay, disk_emul_round,
}
use learn_vector_db.LogStore.Run.{run}
use learn_vector_db.LogStore.Refine.{Represents}
use learn_vector_db.LogStore.Writes.{
  append_refines, write_at_refines, logged, append-start_idx, write_at-start_idx,
}
use learn_vector_db.LogStore.Compact.{compact-Represents}
use learn_vector_db.LogStore.Pack.{apply_pack_lem}
use learn_vector_db.LogStore.Wrote.{Wrote, logged-Wrote}
use learn_vector_db.LogStore.Spec.{
  Op, append_op, write_at_op, compact_op, pack_op, flush_op, delay_op, round_op, Stored, apply_op,
  apply_ops, Log, note, step, steps, Allowed, AllAllowed,
}

module _ (r : Raft) (d : r.Entry) (p : Persistence) where
  -- The store and the write-ahead log stand for `a`.
  pub record Simulates (x : Stored r) (a : Log r) : Type 0 where
    pub represents : Represents r x.0 d a.entries
    pub same_start : x.0.start_idx ≡ a.start
    pub wrote : Wrote p a.written x.1

  module _ (laws : RaftLaws r) where
    append-Simulates :
        (now : ℕ) (e : r.Entry) (x : Stored r) (a : Log r)
        → Simulates x a
        → Allowed r (append_op now e) a
        → Simulates (apply_op r (append_op now e) x) (step r (append_op now e) a)
    unfolding apply_op step note
    append-Simulates now e (s, q) a h allowed =
        let (rep, _, log) =
          append_refines r laws now e q h.represents (omega (arith, h.same_start, allowed)) in
        record {
          represents = rep;
          same_start = append-start_idx r now e s q ∙ h.same_start;
          wrote = rw log (
              rw h.same_start (
                logged-Wrote (r.is_app_log (r.get_val_type e)) (payload r (r.get_buf e))
                  (a.start + length a.entries) q h.wrote));
        }

    write_at-Simulates :
        (now index : ℕ) (e : r.Entry) (x : Stored r) (a : Log r)
        → Simulates x a
        → Allowed r (write_at_op now index e) a
        → Simulates (apply_op r (write_at_op now index e) x) (step r (write_at_op now index e) a)
    unfolding apply_op step note
    write_at-Simulates now index e (s, q) a h allowed =
        let place : s.start_idx + (index - a.start) ≡ index =
          omega (arith, h.same_start, allowed.0) in
        let (rep, _, log) =
          write_at_refines r laws now e q h.represents (index - a.start)
            (omega (arith, h.same_start, allowed.1)) (omega (arith, place, allowed.2)) in
        let log' : (write_at r now index e s q).1 ≡ (
            if r.is_app_log (r.get_val_type e)
            then logged (payload r (r.get_buf e)) index q
            else q) =
          rw place at log in
        record {
          represents = rw place at rep;
          same_start = write_at-start_idx r now e s q index ∙ h.same_start;
          wrote = rw log' (
              logged-Wrote (r.is_app_log (r.get_val_type e)) (payload r (r.get_buf e)) index q
                h.wrote);
        }

    compact-start_idx :
        (last : ℕ) (s : LogStore r)
        → (compact r last s).0.start_idx
          ≡ (if leb s.start_idx last then (last + 1) % 2 ^ 64 else s.start_idx)
    unfolding compact
    compact-start_idx last s = refl

    compact-Simulates :
        (last : ℕ) (x : Stored r) (a : Log r)
        → Simulates x a
        → Allowed r (compact_op last) a
        → Simulates (apply_op r (compact_op last) x) (step r (compact_op last) a)
    unfolding apply_op step
    compact-Simulates last (s, q) a h allowed =
        let small : (if leb a.start last then (last + 1) % 2 ^ 64 else a.start)
            ≡ (if leb a.start last then last + 1 else a.start) =
          ground (arith, allowed) in
        record {
          represents =
              subst (λ n. Represents r (compact r last s).0 d (drop (last + 1 - n) a.entries))
                h.same_start (compact-Represents r last h.represents allowed);
          same_start =
              compact-start_idx last s
              ∙ ap (λ n. if leb n last then (last + 1) % 2 ^ 64 else n) h.same_start
              ∙ small;
          wrote = h.wrote;
        }

    pack-Simulates :
        (index : ℕ) (es : List r.Entry) (x : Stored r) (a : Log r)
        → Simulates x a
        → Allowed r (pack_op index es) a
        → Simulates (apply_op r (pack_op index es) x) (step r (pack_op index es) a)
    unfolding apply_op step
    pack-Simulates index es (s, q) a h (above, inside, size, some_new, small, fits, fit) =
        let k = index - a.start in
        let place : a.start + k ≡ index = omega (arith, above) in
        let shape : s.logs ≡ (0, d) ∷ run a.start a.entries =
          h.represents.shape ∙ ap (λ n. (0, d) ∷ run n a.entries) h.same_start in
        let applied = rw place at (
          apply_pack_lem r laws a.start k s d es a.entries shape
            (omega (arith, h.represents.positive, h.same_start)) (omega (arith, inside, place))
            some_new small (omega (arith, fits, place)) fit) in
        rw applied (record {
          represents = record {
            shape = refl;
            positive = omega (arith, h.represents.positive, h.same_start);
            bounded = size;
          };
          same_start = refl;
          wrote = h.wrote;
        })

    same_logs :
        (s t : LogStore r) (es : List r.Entry)
        → t.logs ≡ s.logs
        → t.start_idx ≡ s.start_idx
        → Represents r s d es
        → Represents r t d es
    same_logs s t es logs start rep = record {
      shape = logs ∙ rep.shape ∙ ap (λ n. (0, d) ∷ run n es) (sym start);
      positive = omega (arith, start, rep.positive);
      bounded = omega (arith, start, rep.bounded);
    }

    -- One operation on the store is the step of the specification.
    pub apply_op-Simulates :
        (op : Op r) (x : Stored r) (a : Log r)
        → Simulates x a
        → Allowed r op a
        → Simulates (apply_op r op x) (step r op a)
    apply_op-Simulates (append_op now e) x a h allowed = append-Simulates now e x a h allowed
    apply_op-Simulates (write_at_op now index e) x a h allowed =
        write_at-Simulates now index e x a h allowed
    apply_op-Simulates (compact_op last) x a h allowed = compact-Simulates last x a h allowed
    apply_op-Simulates (pack_op index es) x a h allowed = pack-Simulates index es x a h allowed
    apply_op-Simulates flush_op (s, q) a h allowed =
        unfold apply_op step flush in
        record {
          represents = same_logs s _ a.entries refl refl h.represents;
          same_start = h.same_start;
          wrote = h.wrote;
        }
    apply_op-Simulates (delay_op ms) (s, q) a h allowed =
        unfold apply_op step set_disk_delay in
        record {
          represents = same_logs s _ a.entries refl refl h.represents;
          same_start = h.same_start;
          wrote = h.wrote;
        }
    apply_op-Simulates (round_op time) (s, q) a h allowed =
        unfold apply_op step disk_emul_round in
        record {
          represents = same_logs s _ a.entries refl refl h.represents;
          same_start = h.same_start;
          wrote = h.wrote;
        }

    -- After every sequence of the operations `append`, `write_at`, `compact`, `apply_pack`, `flush`,
    -- `set_disk_delay` and rounds of `disk_emul_loop`, made as NuRaft may make them, the store holds the
    -- entries of the specification from its start index on, and the write-ahead log has just the lines
    -- of the application entries that `append` and `write_at` stored, in the order in which they came:
    -- what comes in a pack has no line.
    pub apply_ops-Simulates :
        (ops : List (Op r)) (x : Stored r) (a : Log r)
        → Simulates x a
        → AllAllowed r ops a
        → Simulates (apply_ops r ops x) (steps r ops a)
    unfolding apply_ops steps
    apply_ops-Simulates [] x a h allowed = h
    apply_ops-Simulates (op ∷ ops) x a h allowed =
        apply_ops-Simulates ops (apply_op r op x) (step r op a)
          (apply_op-Simulates op x a h allowed.0) allowed.1
