-- ===== src/LogStore/Disk.antt =====
-- One round of `disk_emul_loop` on the writes in the order of their times.
use learn_vector_db.Prelude.{
  ℕ, suc, ◌≤◌, ◌<◌, Bool, true, false, [], ◌∷◌, ltb, leb, ◌≡◌, refl, arith, nat_key,
}
use learn_vector_db.StdMap.{StdMap}
use learn_vector_db.Raft.{Raft}
use learn_vector_db.LogStore.{LogStore}
use learn_vector_db.Prelude.{keep, null, not, ◌||◌}
use learn_vector_db.LogStore.{finish_writes, disk_emul_round}

-- The times rise strictly, from `t` on.
abbrev pub RisesFrom : ℕ → StdMap ℕ ℕ → Type 0
RisesFrom t [] = Unit
RisesFrom t (w ∷ ws) = (t ≤ w.0) × RisesFrom (suc w.0) ws

abbrev pub due : ℕ → ℕ × ℕ → Bool
due cur_time w = leb w.0 cur_time

abbrev pub pending : ℕ → ℕ × ℕ → Bool
pending cur_time w = ltb cur_time w.0

-- The index of the last write of the list, or `durable` where there is none.
abbrev pub last_index : ℕ → StdMap ℕ ℕ → ℕ
last_index durable [] = durable
last_index durable (w ∷ ws) = last_index w.1 ws

all_pending :
    (cur_time t : ℕ) (ws : StdMap ℕ ℕ)
    → RisesFrom t ws
    → cur_time < t
    → (keep (due cur_time) ws ≡ []) × (keep (pending cur_time) ws ≡ ws)
unfolding keep
all_pending cur_time t [] h k = (refl, refl)
all_pending cur_time t (w ∷ ws) h k = ground (arith, all_pending cur_time (suc w.0) ws h.1)

finish_writes_lem :
    (cur_time t : ℕ) (ws : StdMap ℕ ℕ) (durable : ℕ) (notify : Bool) (r : Raft)
    → RisesFrom t ws
    → finish_writes r cur_time ws durable notify ≡ (
      keep (pending cur_time) ws,
      last_index durable (keep (due cur_time) ws),
      notify || not (null (keep (due cur_time) ws)),
    )
unfolding finish_writes keep
finish_writes_lem cur_time t [] durable notify r h = ground arith
finish_writes_lem cur_time t ((u, i) ∷ ws) durable notify r h =
    ground (
      arith,
      finish_writes_lem cur_time (suc u) ws i true r h.1,
      all_pending cur_time (suc u) ws h.1,
    )

-- A round at `cur_time`, with the writes in the order of their times: the writes that are due are
-- gone and all others stay, the durable index is that of the latest due write, and the server is
-- notified exactly when there was one.
pub disk_emul_round_lem :
    (r : Raft) (cur_time : ℕ) (s : LogStore r)
    → RisesFrom 0 s.logs_being_written
    → ((disk_emul_round r cur_time s).0.logs_being_written
        ≡ keep (pending cur_time) s.logs_being_written)
      × ((disk_emul_round r cur_time s).0.last_durable
          ≡ last_index s.last_durable (keep (due cur_time) s.logs_being_written))
      × ((disk_emul_round r cur_time s).1 ≡ not (null (keep (due cur_time) s.logs_being_written)))
      × ((disk_emul_round r cur_time s).0.logs ≡ s.logs)
unfolding disk_emul_round
disk_emul_round_lem r cur_time s h =
    ground (arith, finish_writes_lem cur_time 0 s.logs_being_written s.last_durable false r h)
