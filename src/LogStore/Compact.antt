-- ===== src/LogStore/Compact.antt =====
-- `compact` drops a prefix of the entries.
use learn_vector_db.Prelude.{
  drop-nil, ℕ, zero, suc, ◌+◌, ◌-◌, ◌%◌, ◌^◌, ◌<◌, List, [], ◌∷◌, length-drop, drop, leb,
  if◌then◌else◌, ◌≡◌, ap, ◌∙◌, arith, nat_key,
}
use learn_vector_db.Raft.{Raft}
use learn_vector_db.LogStore.{LogStore, erase_range, compact}
use learn_vector_db.LogStore.Run.{run, erase-run, erase-run_nil, run-nil, erase-behind}
use learn_vector_db.LogStore.Refine.{Represents}

module _ (r : Raft) where
  erase_range-run :
      (n i : ℕ) (d : r.Entry) (es : List r.Entry)
      → 0 < i
      → erase_range r n i ((0, d) ∷ run i es) ≡ (0, d) ∷ run (i + n) (drop n es)
  unfolding erase_range
  erase_range-run zero i d es h = let same : i + 0 ≡ i = omega arith in rw same
  erase_range-run (suc n) i d [] h = rw (erase-behind i d (run i []) h) (
      rw (erase-run_nil {A = r.Entry} i i (i + 1)) (
        erase_range-run n (i + 1) d [] (omega arith)
        ∙ rw (drop-nil {A = r.Entry} n) (ap (◌∷◌ (0, d)) (run-nil (i + 1 + n) (i + suc n)))))
  erase_range-run (suc n) i d (e ∷ es) h =
      let here : i + 1 ≡ suc i = omega arith in
      let there : suc i + n ≡ i + suc n = omega arith in
      rw here (
        rw (erase-behind i d _ h)
          (rw (erase-run i e es) (erase_range-run n (suc i) d es (omega arith) ∙ rw there)))

  -- `compact` drops the entries up to its index, and moves the start behind it even where there
  -- are none.
  pub compact-Represents :
      (last_log_index : ℕ) {s : LogStore r} {d : r.Entry} {es : List r.Entry}
      → Represents r s d es
      → last_log_index + 1 < 2 ^ 64
      → Represents r (compact r last_log_index s).0 d (drop (last_log_index + 1 - s.start_idx) es)
  unfolding compact
  compact-Represents last {s} {d} {es} rep fits =
      let n = last + 1 - s.start_idx in
      let start : (if leb s.start_idx last then (last + 1) % 2 ^ 64 else s.start_idx)
          ≡ s.start_idx + n =
        ground arith in
      record {
        shape = rw start (
            ap (erase_range r n s.start_idx) rep.shape
            ∙ erase_range-run n s.start_idx d es rep.positive);
        positive = rw start (omega (arith, rep.positive));
        bounded = rw start (omega (arith, rep.bounded, length-drop n es));
      }
