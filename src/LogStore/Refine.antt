-- ===== src/LogStore/Refine.antt =====
-- The log store as what it stands for: a dummy entry and a list of entries with consecutive
-- indices from the start index on.
use learn_vector_db.Prelude.{
  ℕ, suc, ◌+◌, ◌^◌, ◌<◌, none, some, List, [], ◌∷◌, ◌++◌, length, get_elem?, ◌≡◌, refl, ap, ◌∙◌,
  arith, nat_key,
}
use learn_vector_db.StdMap.{find, insert}
use learn_vector_db.Raft.{Raft, RaftLaws}
use learn_vector_db.LogStore.{LogStore, make_clone, next_slot}
use learn_vector_db.LogStore.Run.{
  run, length-run, find-run, find-run_below, insert-run, find-behind, find-front, insert-behind,
}

module _ (r : Raft) where
  pub record Represents (s : LogStore r) (d : r.Entry) (es : List r.Entry) : Type 0 where
    pub shape : s.logs ≡ (0, d) ∷ run s.start_idx es
    pub positive : 0 < s.start_idx
    pub bounded : s.start_idx + length es < 2 ^ 64

module _ (r : Raft) (laws : RaftLaws r) where
  pub make_clone_lem : (e : r.Entry) → make_clone r e ≡ e
  unfolding make_clone
  make_clone_lem e =
      ap
        (λ b.
          r.log_entry (r.get_term e) b (r.get_val_type e) (r.get_timestamp e) (r.has_crc32 e)
            (r.get_crc32 e))
        (laws.clone_lem (r.get_buf e))
      ∙ laws.rebuild e

module _ (r : Raft) {s : LogStore r} {d : r.Entry} {es : List r.Entry}
    (rep : Represents r s d es) where
  size_lem : length s.logs ≡ suc (length es)
  size_lem = rw rep.shape (ap suc (length-run s.start_idx es))

  pub next_slot_lem : next_slot r s ≡ s.start_idx + length es
  unfolding next_slot
  next_slot_lem = omega (arith, size_lem, rep.bounded, rep.positive)

  pub insert_next :
      (e : r.Entry)
      → insert (s.start_idx + length es) e s.logs ≡ (0, d) ∷ run s.start_idx (es ++ e ∷ [])
  insert_next e = rw rep.shape (
      insert-behind _ e d _ (omega (arith, rep.positive))
      ∙ ap (◌∷◌ (0, d)) (insert-run s.start_idx _ e es refl))

module _ (r : Raft) {s : LogStore r} {d : r.Entry} {es : List r.Entry}
    (rep : Represents r s d es) where
  pub find_entry : (k : ℕ) → find (s.start_idx + k) s.logs ≡ get_elem? es k
  find_entry k =
      ap (find (s.start_idx + k)) rep.shape
      ∙ find-behind _ s.start_idx d es (omega (arith, rep.positive))
      ∙ find-run s.start_idx k es

  pub find_dummy : find 0 s.logs ≡ some d
  find_dummy = ap (find 0) rep.shape ∙ find-front s.start_idx d es

  pub find_compacted : (k : ℕ) → 0 < k → k < s.start_idx → find k s.logs ≡ none
  find_compacted k pos below =
      ap (find k) rep.shape
      ∙ find-behind k s.start_idx d es pos
      ∙ find-run_below k s.start_idx es below
