-- ===== src/LogStore/Writes.antt =====
-- `append` and `write_at` on the list of entries that the store stands for.
use learn_vector_db.Prelude.{
  ℕ, ◌+◌, ◌^◌, ◌≤◌, ◌<◌, List, [], ◌∷◌, ◌++◌, length, length-append, length-take, Bytes, take,
  if◌then◌else◌, ◌≡◌, ap, ◌∙◌, arith, nat_key,
}
use learn_vector_db.Result.{Result, ok, throw, ◌>>=◌}
use learn_vector_db.StdMap.{insert, erase_from_lower_bound}
use learn_vector_db.Raft.{Raft, RaftLaws}
use learn_vector_db.Wal.{Persistence}
use learn_vector_db.LogStore.{
  LogStore, make_clone, next_slot, payload, start_write, append, restart_write, write_at,
  write_wal_log_with_id,
}
use learn_vector_db.LogStore.Run.{
  run, insert-run, erase_from_lower_bound-run, insert-behind, erase_from_lower_bound-behind,
}
use learn_vector_db.LogStore.Refine.{Represents, make_clone_lem, next_slot_lem, insert_next}

module _ (r : Raft) (now : ℕ) (e : r.Entry) (s : LogStore r) (p : Persistence) where
  append-logs : (append r now e s p).0.logs ≡ insert (next_slot r s) (make_clone r e) s.logs
  unfolding append start_write
  append-logs = ground arith

  pub append-start_idx : (append r now e s p).0.start_idx ≡ s.start_idx
  unfolding append start_write
  append-start_idx = ground arith

  write_at-logs :
      (index : ℕ)
      → (write_at r now index e s p).0.logs
        ≡ insert index (make_clone r e) (erase_from_lower_bound index s.logs)
  unfolding write_at restart_write
  write_at-logs index = ground arith

  pub write_at-start_idx : (index : ℕ) → (write_at r now index e s p).0.start_idx ≡ s.start_idx
  unfolding write_at restart_write
  write_at-start_idx index = ground arith

module _ (r : Raft) (laws : RaftLaws r) (now : ℕ) (e : r.Entry) {s : LogStore r} {d : r.Entry}
    {es : List r.Entry} (p : Persistence) (rep : Represents r s d es) where
  -- `append` adds its entry behind the last one, also where it throws.
  pub append-Represents :
      s.start_idx + length es + 1 < 2 ^ 64 → Represents r (append r now e s p).0 d (es ++ e ∷ [])
  append-Represents fits = record {
    shape =
        append-logs r now e s p
        ∙ rw (next_slot_lem r rep) (
            rw (make_clone_lem r laws e) (rw (append-start_idx r now e s p) (insert_next r rep e)));
    positive = rw (append-start_idx r now e s p) rep.positive;
    bounded =
        rw (append-start_idx r now e s p) (rw (length-append es (e ∷ [])) (omega (arith, fits)));
  }

  cut_lem :
      (n : ℕ)
      → erase_from_lower_bound (s.start_idx + n) s.logs ≡ (0, d) ∷ run s.start_idx (take n es)
  cut_lem n =
      ap (erase_from_lower_bound (s.start_idx + n)) rep.shape
      ∙ erase_from_lower_bound-behind _ d _ (omega (arith, rep.positive))
      ∙ ap (◌∷◌ (0, d)) (erase_from_lower_bound-run s.start_idx n es)

  put_lem :
      (n : ℕ)
      → n ≤ length es
      → insert (s.start_idx + n) e ((0, d) ∷ run s.start_idx (take n es))
        ≡ (0, d) ∷ run s.start_idx (take n es ++ e ∷ [])
  put_lem n inside =
      insert-behind _ e d _ (omega (arith, rep.positive))
      ∙ ap (◌∷◌ (0, d)) (insert-run s.start_idx _ e (take n es) (omega (arith, length-take n es)))

  -- `write_at` drops the entries from its index on and puts its own there.
  pub write_at-Represents :
      (n : ℕ)
      → n ≤ length es
      → s.start_idx + n + 1 < 2 ^ 64
      → Represents r (write_at r now (s.start_idx + n) e s p).0 d (take n es ++ e ∷ [])
  write_at-Represents n inside fits = record {
    shape =
        write_at-logs r now e s p (s.start_idx + n)
        ∙ rw (make_clone_lem r laws e) (
            rw (write_at-start_idx r now e s p (s.start_idx + n))
              (ap (insert (s.start_idx + n) e) (cut_lem n) ∙ put_lem n inside));
    positive = rw (write_at-start_idx r now e s p (s.start_idx + n)) rep.positive;
    bounded =
        rw (write_at-start_idx r now e s p (s.start_idx + n))
          (rw (length-append (take n es) (e ∷ [])) (omega (arith, fits, length-take n es)));
  }

module _ (r : Raft) (laws : RaftLaws r) (e : r.Entry) where
  payload_clone : payload r (r.get_buf (make_clone r e)) ≡ payload r (r.get_buf e)
  payload_clone = ap (λ c. payload r (r.get_buf c)) (make_clone_lem r laws e)

-- The write-ahead log after an entry with such a payload was stored at `slot`.
abbrev pub logged : Result Bytes → ℕ → Persistence → Persistence
logged (ok text) slot p = write_wal_log_with_id slot text p
logged (throw e) slot p = p

module _ (r : Raft) (laws : RaftLaws r) (now : ℕ) (e : r.Entry) (s : LogStore r) (p : Persistence)
    (index : ℕ) where
  write_at-result : (write_at r now index e s p).2 ≡ (payload r (r.get_buf e) >>= λ _. ok tt)
  unfolding write_at
  write_at-result = ground (arith, payload_clone r laws e)

  write_at-log :
      (write_at r now index e s p).1
      ≡ (if r.is_app_log (r.get_val_type e) then logged (payload r (r.get_buf e)) index p else p)
  unfolding write_at
  write_at-log = ground (arith, payload_clone r laws e)

module _ (r : Raft) (laws : RaftLaws r) (now : ℕ) (e : r.Entry) {s : LogStore r} {d : r.Entry}
    {es : List r.Entry} (p : Persistence) (rep : Represents r s d es) where
  append-result : (append r now e s p).2 ≡ (
      if r.is_app_log (r.get_val_type e)
      then (payload r (r.get_buf e) >>= λ _. ok (s.start_idx + length es))
      else ok (s.start_idx + length es))
  unfolding append
  append-result = ground (arith, payload_clone r laws e, next_slot_lem r rep)

  append-log : (append r now e s p).1 ≡ (
      if r.is_app_log (r.get_val_type e)
      then logged (payload r (r.get_buf e)) (s.start_idx + length es) p
      else p)
  unfolding append
  append-log = ground (arith, payload_clone r laws e, next_slot_lem r rep)

  -- `append` to a store of `es`: the store has the entry behind them, and an application entry of
  -- less than four bytes throws all the same; else the result is the entry's index, and the
  -- payload of an application entry is in the write-ahead log under that index.
  pub append_refines :
      s.start_idx + length es + 1 < 2 ^ 64
      → Represents r (append r now e s p).0 d (es ++ e ∷ [])
        × ((append r now e s p).2 ≡ (
            if r.is_app_log (r.get_val_type e)
            then (payload r (r.get_buf e) >>= λ _. ok (s.start_idx + length es))
            else ok (s.start_idx + length es)))
        × ((append r now e s p).1 ≡ (
            if r.is_app_log (r.get_val_type e)
            then logged (payload r (r.get_buf e)) (s.start_idx + length es) p
            else p))
  append_refines fits = (append-Represents r laws now e p rep fits, append-result, append-log)

  -- `write_at` of an index of the store or the next one: the entries from the index on are gone and
  -- its own is there, also where its payload is too short, which throws for every type of entry;
  -- else only an application entry is written to the write-ahead log.
  pub write_at_refines :
      (n : ℕ)
      → n ≤ length es
      → s.start_idx + n + 1 < 2 ^ 64
      → Represents r (write_at r now (s.start_idx + n) e s p).0 d (take n es ++ e ∷ [])
        × ((write_at r now (s.start_idx + n) e s p).2 ≡ (payload r (r.get_buf e) >>= λ _. ok tt))
        × ((write_at r now (s.start_idx + n) e s p).1 ≡ (
            if r.is_app_log (r.get_val_type e)
            then logged (payload r (r.get_buf e)) (s.start_idx + n) p
            else p))
  write_at_refines n inside fits = (
    write_at-Represents r laws now e p rep n inside fits,
    write_at-result r laws now e s p (s.start_idx + n),
    write_at-log r laws now e s p (s.start_idx + n),
  )
