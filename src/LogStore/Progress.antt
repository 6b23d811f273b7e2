-- ===== src/LogStore/Progress.antt =====
-- That an entry which was stored becomes durable in the emulated disk.
use learn_vector_db.Prelude.{
  ℕ, suc, ◌+◌, ◌*◌, ◌%◌, ◌^◌, ◌≤◌, ◌<◌, ◌==◌, Bool, true, false, some, List, [], ◌∷◌, ltb, leb, ◌≡◌,
  refl, ap, ◌∙◌, arith, nat_key, Bool-cases, inl, inr,
}
use mathlib.Core.Path.{subst}
use learn_vector_db.Result.{Result, ok, throw, Result-cases}
use learn_vector_db.StdMap.{StdMap, find, insert, find-insert}
use learn_vector_db.Raft.{Raft}
use learn_vector_db.Wal.{Persistence}
use learn_vector_db.LogStore.{
  LogStore, append, start_write, payload, make_clone, next_slot, finish_writes, disk_emul_round,
}
use learn_vector_db.LogStore.Disk.{RisesFrom}

-- No write ends after `last`.
abbrev pub AllUpTo : ℕ → StdMap ℕ ℕ → Type 0
AllUpTo last [] = Unit
AllUpTo last (w ∷ ws) = (w.0 ≤ last) × AllUpTo last ws

RisesFrom-weaken : (m n : ℕ) (ws : StdMap ℕ ℕ) → m ≤ n → RisesFrom n ws → RisesFrom m ws
RisesFrom-weaken m n [] h k = tt
RisesFrom-weaken m n (w ∷ ws) h k = (omega (arith, h, k.0), k.1)

nothing_behind : (last : ℕ) (ws : StdMap ℕ ℕ) → RisesFrom (suc last) ws → AllUpTo last ws → ws ≡ []
nothing_behind last [] h k = refl
nothing_behind last (w ∷ ws) h k = ground (arith, h.0, k.0)

-- Where the write of `idx` ends last, and the time has come, no write is left and `idx` is durable.
finish_all :
    (r : Raft) (cur_time last idx t durable : ℕ) (notify : Bool) (ws : StdMap ℕ ℕ)
    → last ≤ cur_time
    → RisesFrom t ws
    → AllUpTo last ws
    → finish_writes r cur_time (insert last idx ws) durable notify ≡ ([], idx, true)
unfolding finish_writes insert
finish_all r cur_time last idx t durable notify [] due h k = ground (arith, due)
finish_all r cur_time last idx t durable notify ((j, w) ∷ ws) due h k =
    elim (Bool-cases (j == last)) [
      | inl same ↦
          let rest : ws ≡ [] =
            nothing_behind last ws (subst (λ n. RisesFrom (suc n) ws) (ground (arith, same)) h.1)
              k.1 in
          rw same (rw rest (ground (arith, due)))
      | inr other ↦
          let early : leb j cur_time ≡ true = ground (arith, k.0, due) in
          let before : ltb last j ≡ false = ground (arith, k.0) in
          rw other
            (rw before (rw early (finish_all r cur_time last idx (suc j) w true ws due h.1 k.1)))
    ]

-- A round before the write of `idx` ends leaves it pending, and none that ends later.
finish_early :
    (r : Raft) (cur_time last idx t durable : ℕ) (notify : Bool) (ws : StdMap ℕ ℕ)
    → cur_time < last
    → RisesFrom t ws
    → AllUpTo last ws
    → (ws' : StdMap ℕ ℕ) × ((finish_writes r cur_time (insert last idx ws) durable notify).0
        ≡ insert last idx ws')
      × RisesFrom t ws'
      × AllUpTo last ws'
unfolding finish_writes insert
finish_early r cur_time last idx t durable notify [] soon h k = ([], ground (arith, soon), tt, tt)
finish_early r cur_time last idx t durable notify ((j, w) ∷ ws) soon h k =
    elim (Bool-cases (j == last)) [
      | inl same ↦ ((j, w) ∷ ws, rw same (ground (arith, soon)), h, k)
      | inr other ↦
          let before : ltb last j ≡ false = ground (arith, k.0) in
          elim (Bool-cases (leb j cur_time)) [
            | inl done ↦
                let (ws', left, rises, upto) =
                  finish_early r cur_time last idx (suc j) w true ws soon h.1 k.1 in
                (
                  ws',
                  rw other (rw before (rw done left)),
                  RisesFrom-weaken t (suc j) ws' (omega (arith, h.0)) rises,
                  upto,
                )
            | inr later ↦ ((j, w) ∷ ws, rw other (rw before (rw later refl)), h, k)
          ]
    ]

module _ (r : Raft) where
  start_write-pending :
      (now idx : ℕ) (s : LogStore r)
      → 0 < s.disk_emul_delay
      → now + s.disk_emul_delay * 1000 < 2 ^ 64
      → (start_write r now idx s).logs_being_written
        ≡ insert (now + s.disk_emul_delay * 1000) idx s.logs_being_written
  unfolding start_write
  start_write-pending now idx s slow fits =
      let here : (s.disk_emul_delay == 0) ≡ false = ground (arith, slow) in
      let time : (now + s.disk_emul_delay * 1000) % 2 ^ 64 ≡ now + s.disk_emul_delay * 1000 =
        omega (arith, fits) in
      rw here (ap (λ n. insert n idx s.logs_being_written) time)

  abbrev index_of : Result ℕ → ℕ
  index_of (ok idx) = idx
  index_of (throw e) = 0

  -- What an `append` that returns adds to the pending writes.
  append-logs_being_written :
      (now idx : ℕ) (e : r.Entry) (s : LogStore r) (p : Persistence)
      → 0 < s.disk_emul_delay
      → now + s.disk_emul_delay * 1000 < 2 ^ 64
      → (append r now e s p).2 ≡ ok idx
      → (append r now e s p).0.logs_being_written
        ≡ insert (now + s.disk_emul_delay * 1000) idx s.logs_being_written
  unfolding append
  append-logs_being_written now idx e s p slow fits returned =
      let written : next_slot r s ≡ idx
          → (start_write r now (next_slot r s) (record s {
            logs = insert (next_slot r s) (make_clone r e) s.logs;
          })).logs_being_written
            ≡ insert (now + s.disk_emul_delay * 1000) idx s.logs_being_written =
        λ same.
          start_write-pending now (next_slot r s) _ slow fits
          ∙ ap (λ n. insert (now + s.disk_emul_delay * 1000) n s.logs_being_written) same in
      elim (Bool-cases (r.is_app_log (r.get_val_type e))) [
        | inr plain ↦ rw (plain, append) (written (ap index_of (rw (plain, append) at returned)))
        | inl app ↦ elim (Result-cases (payload r (r.get_buf (make_clone r e)))) [
          | inl (text, good) ↦
              rw (app, good, append) (written (ap index_of (rw (app, good, append) at returned)))
          | inr (error, bad) ↦ ground (arith, (rw (app, bad, append) at returned))
        ]
      ]

  -- The write of `idx` is pending until `last`, and no other one ends later.
  record Pending (last idx : ℕ) (s : LogStore r) : Type 0 where
    others : StdMap ℕ ℕ
    same_writes : s.logs_being_written ≡ insert last idx others
    rises : RisesFrom 0 others
    up_to : AllUpTo last others

  -- Rounds of `disk_emul_loop` at these times.
  abbrev pub rounds : List ℕ → LogStore r → LogStore r
  rounds [] s = s
  rounds (time ∷ times) s = rounds times (disk_emul_round r time s).0

  abbrev pub AllBefore : ℕ → List ℕ → Type 0
  AllBefore last [] = Unit
  AllBefore last (time ∷ times) = (time < last) × AllBefore last times

  disk_emul_round-Pending :
      (time last idx : ℕ) (s : LogStore r)
      → time < last
      → Pending last idx s
      → Pending last idx (disk_emul_round r time s).0
  unfolding disk_emul_round
  disk_emul_round-Pending time last idx s soon h =
      let (ws', left, rises, upto) =
        finish_early r time last idx 0 s.last_durable false h.others soon h.rises h.up_to in
      record {
        others = ws';
        same_writes =
            ap (λ ws. (finish_writes r time ws s.last_durable false).0) h.same_writes ∙ left;
        rises = rises;
        up_to = upto;
      }

  rounds-Pending :
      (times : List ℕ) (last idx : ℕ) (s : LogStore r)
      → AllBefore last times
      → Pending last idx s
      → Pending last idx (rounds times s)
  rounds-Pending [] last idx s before h = h
  rounds-Pending (time ∷ times) last idx s before h =
      rounds-Pending times last idx (disk_emul_round r time s).0 before.1
        (disk_emul_round-Pending time last idx s before.0 h)

  disk_emul_round-done :
      (cur_time last idx : ℕ) (s : LogStore r)
      → last ≤ cur_time
      → Pending last idx s
      → ((disk_emul_round r cur_time s).0.last_durable ≡ idx)
        × ((disk_emul_round r cur_time s).0.logs_being_written ≡ [])
        × ((disk_emul_round r cur_time s).1 ≡ true)
  unfolding disk_emul_round
  disk_emul_round-done cur_time last idx s due h =
      let done : finish_writes r cur_time s.logs_being_written s.last_durable false
          ≡ ([], idx, true) =
        ap (λ ws. finish_writes r cur_time ws s.last_durable false) h.same_writes
        ∙ finish_all r cur_time last idx 0 s.last_durable false h.others due h.rises h.up_to in
      (ap (λ x. x.1) done, ap (λ x. x.0) done, ap (λ x. x.2) done)

  -- With an emulated delay of the disk, an `append` that returned an index leaves its write pending
  -- through all rounds of `disk_emul_loop` before the time of the append and the delay, the one that
  -- the append wakes among them; the first round at or after that time makes the entry durable, leaves
  -- no write pending and notifies the server, if no pending write ends later than this one.
  pub append-durable :
      (now idx cur_time : ℕ) (early : List ℕ) (e : r.Entry) (s : LogStore r) (p : Persistence)
      → 0 < s.disk_emul_delay
      → now + s.disk_emul_delay * 1000 < 2 ^ 64
      → RisesFrom 0 s.logs_being_written
      → AllUpTo (now + s.disk_emul_delay * 1000) s.logs_being_written
      → (append r now e s p).2 ≡ ok idx
      → AllBefore (now + s.disk_emul_delay * 1000) early
      → now + s.disk_emul_delay * 1000 ≤ cur_time
      → (let waiting : LogStore r = rounds early (append r now e s p).0 in
          (find (now + s.disk_emul_delay * 1000) waiting.logs_being_written ≡ some idx)
          × ((disk_emul_round r cur_time waiting).0.last_durable ≡ idx)
          × ((disk_emul_round r cur_time waiting).0.logs_being_written ≡ [])
          × ((disk_emul_round r cur_time waiting).1 ≡ true))
  append-durable now idx cur_time early e s p slow fits rises upto returned before due =
      let last = now + s.disk_emul_delay * 1000 in
      let h = rounds-Pending early last idx (append r now e s p).0 before (record {
        others = s.logs_being_written;
        same_writes = append-logs_being_written now idx e s p slow fits returned;
        rises = rises;
        up_to = upto;
      }) in
      let (durable, finished, notified) =
        disk_emul_round-done cur_time last idx (rounds early (append r now e s p).0) due h in
      (
        ap (find last) h.same_writes ∙ find-insert last last idx h.others ∙ ground arith,
        durable,
        finished,
        notified,
      )
