-- ===== src/LogStore/Batch.antt =====
-- `log_entries_ext`: the batch stops behind the entry that brings it to the size hint.
use learn_vector_db.Prelude.{
  ℕ, zero, suc, ◌+◌, ◌-◌, ◌≤◌, ◌<◌, Bool, true, false, List, [], ◌∷◌, length, take, drop, leb, ◌==◌,
  ◌≡◌, refl, arith, nat_key, Bool-cases, inl, inr,
}
use learn_vector_db.Result.{ok}
use learn_vector_db.Raft.{Raft, RaftLaws}
use learn_vector_db.LogStore.{LogStore}
use learn_vector_db.Prelude.{not, ◌&&◌}
use learn_vector_db.Json.{pos}
use learn_vector_db.LogStore.{collect_ext, log_entries_ext}
use learn_vector_db.LogStore.Refine.{Represents, make_clone_lem, find_entry}
use learn_vector_db.LogStore.Reads.{drop_step}

-- The bytes of the buffers of the entries.
abbrev pub batch_bytes : (r : Raft) → List r.Entry → ℕ
batch_bytes r [] = 0
batch_bytes r (e ∷ es) = length (r.contents (r.get_buf e)) + batch_bytes r es

-- `m` of the entries are the batch for the hint, where `accum` bytes were there before: no shorter
-- part that is not empty reaches the hint, and this one does, or it is all of them.
pub record IsBatch (r : Raft) (hint accum : ℕ) (es : List r.Entry) (m : ℕ) : Type 0 where
  pub within : m ≤ length es
  pub some_entry : 0 < length es → 0 < m
  pub enough : m < length es → (0 < hint) × (hint ≤ accum + batch_bytes r (take m es))
  pub no_more : (j : ℕ) → 0 < j → j < m → 0 < hint → accum + batch_bytes r (take j es) < hint

abbrev reached : ℕ → ℕ → Bool
reached hint total = not (hint == 0) && leb hint total

module _ (r : Raft) (hint accum : ℕ) (e : r.Entry) (es : List r.Entry) where
  abbrev total : ℕ
  total = accum + length (r.contents (r.get_buf e))

  IsBatch-stop : reached hint total ≡ true → IsBatch r hint accum (e ∷ es) 1
  IsBatch-stop h = record {
    within = omega arith;
    some_entry = λ _. omega arith;
    enough = λ _. ground arith;
    no_more = λ j a b. absurd (omega arith);
  }

  batch_no_more :
      (m : ℕ)
      → reached hint total ≡ false
      → IsBatch r hint total es m
      → (j : ℕ) → 0 < j
      → j < suc m
      → 0 < hint
      → accum + batch_bytes r (take j (e ∷ es)) < hint
  batch_no_more m h b zero a c pos_hint = absurd (omega arith)
  batch_no_more m h b (suc zero) a c pos_hint = ground arith
  batch_no_more m h b (suc (suc j)) a c pos_hint =
      omega (arith, b.no_more (suc j) (omega arith) (omega arith) pos_hint)

  IsBatch-go :
      (m : ℕ)
      → reached hint total ≡ false
      → IsBatch r hint total es m
      → IsBatch r hint accum (e ∷ es) (suc m)
  IsBatch-go m h b = record {
    within = omega (arith, b.within);
    some_entry = λ _. omega arith;
    enough = λ (k : suc m < length (e ∷ es)).
        ((b.enough (omega (arith, k))).0, omega (arith, (b.enough (omega (arith, k))).1));
    no_more = batch_no_more m h b;
  }

module _ (r : Raft) (laws : RaftLaws r) {s : LogStore r} {d : r.Entry} {es : List r.Entry}
    (rep : Represents r s d es) where
  collect_ext_lem :
      (n k accum hint : ℕ)
      → k + n ≤ length es
      → (m : ℕ) × (collect_ext r n (s.start_idx + k) accum hint s.logs ≡ ok (take m (drop k es)))
        × IsBatch r hint accum (take n (drop k es)) m
  unfolding collect_ext
  collect_ext_lem zero k accum hint h = (
    0,
    refl,
    record {
      within = omega arith;
      some_entry = λ x. absurd (omega arith);
      enough = λ x. absurd (omega arith);
      no_more = λ j a b c. absurd (omega arith);
    },
  )
  collect_ext_lem (suc n) k accum hint h =
      let (e, got, split) = drop_step k es (omega arith) in
      let next : s.start_idx + k + 1 ≡ s.start_idx + suc k = omega arith in
      let total = accum + length (r.contents (r.get_buf e)) in
      elim (Bool-cases (reached hint total)) [
        | inl stop ↦ (
          1,
          rw (find_entry r rep k) (rw got (rw stop (rw split (rw (make_clone_lem r laws e))))),
          rw split (IsBatch-stop r hint accum e (take n (drop (suc k) es)) stop),
        )
        | inr go ↦
            let (m, rest, batch) = collect_ext_lem n (suc k) total hint (omega arith) in
            (
              suc m,
              rw (find_entry r rep k)
                  (rw got (rw go (rw next (rw rest (rw split (rw (make_clone_lem r laws e))))))),
              rw split (IsBatch-go r hint accum e (take n (drop (suc k) es)) m go batch),
            )
      ]

  -- The batch from index `start + k` on, of at most `n` entries: it is the part of the entries
  -- that the hint asks for.
  pub log_entries_ext_lem :
      (k n hint : ℕ)
      → k + n ≤ length es
      → (m : ℕ) × (log_entries_ext r (s.start_idx + k) (s.start_idx + k + n) (pos hint) s
          ≡ ok (take m (drop k es)))
        × IsBatch r hint 0 (take n (drop k es)) m
  unfolding log_entries_ext
  log_entries_ext_lem k n hint h =
      let rounds : s.start_idx + k + n - (s.start_idx + k) ≡ n = omega arith in
      rw rounds (collect_ext_lem n k 0 hint h)
