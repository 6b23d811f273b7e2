-- ===== src/LogStore/Reads.antt =====
-- What `entry_at`, `term_at`, `last_entry`, `log_entries` and `log_entries_ext` read.
use learn_vector_db.Prelude.{
  ℕ, zero, suc, ◌+◌, ◌-◌, ◌≤◌, ◌<◌, false, none, some, List, [], ◌∷◌, length, take, drop, get_elem?,
  ltb, ◌≡◌, refl, ap, ◌∙◌, arith, nat_key, Option-cases, inl, inr,
}
use learn_vector_db.Result.{ok}
use learn_vector_db.StdMap.{find}
use learn_vector_db.Raft.{Raft, RaftLaws}
use learn_vector_db.LogStore.{LogStore, entry_or_dummy, entry_at, term_at}
use learn_vector_db.LogStore.{collect, log_entries}
use learn_vector_db.LogStore.Refine.{
  Represents, make_clone_lem, find_entry, find_dummy, find_compacted,
}

pub drop_step {ℓ} :
    {A : Type ℓ} (k : ℕ) (es : List A)
    → k < length es
    → (e : A) × (get_elem? es k ≡ some e) × (drop k es ≡ e ∷ drop (suc k) es)
drop_step k [] h = absurd (omega arith)
drop_step zero (e ∷ es) h = (e, refl, refl)
drop_step (suc k) (e ∷ es) h = drop_step k es (omega arith)

module _ (r : Raft) (index : ℕ) (s : LogStore r) (e : r.Entry) where
  found : find index s.logs ≡ some e → entry_or_dummy r index s ≡ ok e
  unfolding entry_or_dummy
  found h = rw (h, entry_or_dummy)

  missing : find index s.logs ≡ none → find 0 s.logs ≡ some e → entry_or_dummy r index s ≡ ok e
  unfolding entry_or_dummy
  missing h k = rw (h, k, entry_or_dummy)

module _ (r : Raft) (laws : RaftLaws r) {s : LogStore r} {d : r.Entry} {es : List r.Entry}
    (rep : Represents r s d es) where
  -- `entry_at` of an index from the start on gives the entry there, or the dummy where the index is
  -- behind the last entry.
  pub entry_at_lem :
      (k : ℕ)
      → entry_at r (s.start_idx + k) s ≡ ok (elim (get_elem? es k) [ some e ↦ e | none ↦ d ])
  unfolding entry_at
  entry_at_lem k = elim (Option-cases (get_elem? es k)) [
    | inl out ↦
        rw (missing r (s.start_idx + k) s d (find_entry r rep k ∙ out) (find_dummy r rep))
          (rw out (ap ok (make_clone_lem r laws d)))
    | inr (e, got) ↦
        rw (found r (s.start_idx + k) s e (find_entry r rep k ∙ got))
          (rw got (ap ok (make_clone_lem r laws e)))
  ]

  pub term_at_lem :
      (k : ℕ)
      → term_at r (s.start_idx + k) s
        ≡ ok (r.get_term (elim (get_elem? es k) [ some e ↦ e | none ↦ d ]))
  unfolding term_at
  term_at_lem k = elim (Option-cases (get_elem? es k)) [
    | inl out ↦
        rw (missing r (s.start_idx + k) s d (find_entry r rep k ∙ out) (find_dummy r rep)) (rw out)
    | inr (e, got) ↦ rw (found r (s.start_idx + k) s e (find_entry r rep k ∙ got)) (rw got)
  ]

  -- `term_at` of an index before the start, which was compacted away, gives the dummy's term.
  pub term_at_compacted : (index : ℕ) → index < s.start_idx → term_at r index s ≡ ok (r.get_term d)
  unfolding term_at
  term_at_compacted zero below = rw (found r 0 s d (find_dummy r rep))
  term_at_compacted (suc i) below =
      rw (
        missing r (suc i) s d (find_compacted r rep (suc i) (omega arith) below) (find_dummy r rep))

  collect_lem :
      (n k : ℕ) → k + n ≤ length es → collect r n (s.start_idx + k) s.logs ≡ ok (take n (drop k es))
  unfolding collect
  collect_lem zero k h = refl
  collect_lem (suc n) k h =
      let (e, got, split) = drop_step k es (omega arith) in
      let next : s.start_idx + k + 1 ≡ s.start_idx + suc k = omega arith in
      rw (find_entry r rep k) (
        rw got (
          rw next
            (rw (collect_lem n (suc k) (omega arith)) (rw split (rw (make_clone_lem r laws e))))))

  -- `log_entries` of a range of the store gives the entries of the range, in order.
  pub log_entries_lem :
      (k n : ℕ)
      → k + n ≤ length es
      → log_entries r (s.start_idx + k) (s.start_idx + k + n) s ≡ ok (take n (drop k es))
  unfolding log_entries
  log_entries_lem k n h =
      let test : ltb (s.start_idx + k + n) (s.start_idx + k) ≡ false = ground arith in
      let rounds : s.start_idx + k + n - (s.start_idx + k) ≡ n = omega arith in
      rw test (rw rounds (collect_lem n k h))
