-- ===== src/LogStore/Start.antt =====
-- The store that the constructor gives.
use learn_vector_db.Prelude.{◌+◌, ◌<◌, ◌^◌, [], ◌≡◌, refl, arith}
use learn_vector_db.StdMap.{insert}
use learn_vector_db.Raft.{Raft}
use learn_vector_db.Wal.{Persistence, get_id}
use learn_vector_db.LogStore.{init, next_slot, start_index}
use learn_vector_db.LogStore.Run.{run}
use learn_vector_db.LogStore.Refine.{Represents, next_slot_lem}

module _ (r : Raft) (p : Persistence) (fits : get_id p + 1 < 2 ^ 64) where
  init-Represents : Represents r (init r p) (r.plain_entry 0 r.blank) []
  unfolding init insert run
  init-Represents = record { shape = refl; positive = omega arith; bounded = omega arith }

  -- A new store has no entries, its first index is the one behind the last identifier of the
  -- write-ahead log, and so is the index of the entry that comes next.
  pub init_lem :
      Represents r (init r p) (r.plain_entry 0 r.blank) []
      × (start_index r (init r p) ≡ get_id p + 1)
      × (next_slot r (init r p) ≡ get_id p + 1)
  unfolding init
  init_lem =
      let start : start_index r (init r p) ≡ get_id p + 1 = omega arith in
      (init-Represents, start, omega (arith, next_slot_lem r init-Represents, start))
