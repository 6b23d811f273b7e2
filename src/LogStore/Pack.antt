-- ===== src/LogStore/Pack.antt =====
-- `pack` and `apply_pack`: a store gets the entries of a pack that begins among its own or right
-- behind them, and a store without entries those of any pack.
use learn_vector_db.Prelude.{
  take-append, drop-append, ℕ, zero, suc, ◌+◌, ◌-◌, ◌%◌, ◌^◌, ◌≤◌, ◌<◌, true, none, some, List, [],
  ◌∷◌, ◌++◌, length, length-append, length-take, length-drop, Bytes, take, drop, leb, ◌≡◌, refl,
  sym, ap, ◌∙◌, arith, nat_key,
}
use learn_vector_db.Result.{ok}
use learn_vector_db.StdMap.{upper_bound, insert}
use learn_vector_db.Raft.{Raft, RaftLaws}
use learn_vector_db.LogStore.{LogStore}
use learn_vector_db.LogStore.Run.{
  run, insert-behind, run-nil, overwrite, overwrite-nil, overwrite-cons, overwrite-run,
  length-overwrite, overwrite-all,
}
use learn_vector_db.Json.{pos}
use learn_vector_db.Prelude.{map}
use learn_vector_db.LogStore.{
  pack, apply_pack, serialize_range, put_all, read_int, read_bytes, read_buf, unpack, unpacked,
}
use learn_vector_db.LogStore.Refine.{Represents, find_entry}
use learn_vector_db.LogStore.Reads.{drop_step}

-- What of an entry comes over in a pack.
pub record IsAlike (r : Raft) (e e' : r.Entry) : Type 0 where
  pub same_term : r.get_term e' ≡ r.get_term e
  pub same_buf : r.get_buf e' ≡ r.get_buf e
  pub same_val_type : r.get_val_type e' ≡ r.get_val_type e

abbrev pub AllAlike : (r : Raft) → List r.Entry → List r.Entry → Type 0
AllAlike r [] [] = Unit
AllAlike r (e ∷ es) (e' ∷ es') = IsAlike r e e' × AllAlike r es es'
AllAlike r [] (e' ∷ es') = ⊥
AllAlike r (e ∷ es) [] = ⊥

-- The entries as the other side has them.
abbrev pub sent : (r : Raft) → List r.Entry → List r.Entry
sent r es = map (λ e. r.deserialize (r.serialize e)) es

-- The bytes of a pack of these entries.
unfoldable pub packed : (r : Raft) → List r.Entry → Bytes
packed r es = r.put_int (pos (length es)) ++ put_all r (map r.serialize es)

pub sent-AllAlike : (r : Raft) → RaftLaws r → (es : List r.Entry) → AllAlike r es (sent r es)
sent-AllAlike r laws [] = tt
sent-AllAlike r laws (e ∷ es) = (
  record {
    same_term = laws.same_term e;
    same_buf = laws.same_buf e;
    same_val_type = laws.same_val_type e;
  },
  sent-AllAlike r laws es,
)

-- The serialized entries are short enough for their lengths to be written as `int32`.
abbrev pub Fits : (r : Raft) → List r.Entry → Type 0
Fits r [] = Unit
Fits r (e ∷ es) = (length (r.serialize e) < 2 ^ 31) × Fits r es

module _ (r : Raft) {s : LogStore r} {d : r.Entry} {es : List r.Entry}
    (rep : Represents r s d es) where
  serialize_range_lem :
      (n k : ℕ)
      → k + n ≤ length es
      → serialize_range r n (s.start_idx + k) s.logs ≡ ok (map r.serialize (take n (drop k es)))
  unfolding serialize_range
  serialize_range_lem zero k h = refl
  serialize_range_lem (suc n) k h =
      let (e, got, split) = drop_step k es (omega arith) in
      let next : s.start_idx + k + 1 ≡ s.start_idx + suc k = omega arith in
      rw (find_entry r rep k)
        (rw got (rw next (rw (serialize_range_lem n (suc k) (omega arith)) (rw split))))

  pub pack_lem :
      (k n : ℕ)
      → k + n ≤ length es
      → pack r (s.start_idx + k) n s ≡ ok (packed r (take n (drop k es)))
  unfolding pack packed
  pack_lem k n h =
      let rounds : (s.start_idx + k + n) % 2 ^ 64 - (s.start_idx + k) ≡ n =
        omega (arith, rep.bounded) in
      let size : length (take n (drop k es)) ≡ n =
        omega (arith, length-take n (drop k es), length-drop k es) in
      rw rounds (rw (serialize_range_lem n k h) (rw size))

module _ (r : Raft) (laws : RaftLaws r) where
  read_int_lem :
      (n : ℕ) (rest : Bytes)
      → n < 2 ^ 31
      → read_int r (r.put_int (pos n) ++ rest) ≡ ok (pos n, rest)
  unfolding read_int
  read_int_lem n rest h = rw (laws.get_int-put_int n rest h, read_int)

  read_bytes_lem : (b rest : Bytes) → read_bytes r (pos (length b)) (b ++ rest) ≡ ok (b, rest)
  unfolding read_bytes
  read_bytes_lem b rest =
      let test : leb (length b) (length (b ++ rest)) ≡ true =
        ground (arith, length-append b rest) in
      rw test (rw (take-append b rest) (rw (drop-append b rest)))

  read_buf_lem :
      (b rest : Bytes)
      → length b < 2 ^ 31
      → read_buf r (r.put_int (pos (length b)) ++ (b ++ rest)) ≡ ok (b, rest)
  unfolding read_buf
  read_buf_lem b rest h = rw (read_int_lem (length b) (b ++ rest) h) (read_bytes_lem b rest)

  length-sent : (es : List r.Entry) → length (sent r es) ≡ length es
  length-sent [] = refl
  length-sent (e ∷ es) = ap suc (length-sent es)

  -- The entries of a pack come into the store from the `k`th place on.
  unpack_lem :
      (i k : ℕ) (d : r.Entry) (new es : List r.Entry)
      → 0 < i
      → k ≤ length es
      → i + k + length new < 2 ^ 64
      → Fits r new
      → unpack r (length new) (i + k) (put_all r (map r.serialize new)) ((0, d) ∷ run i es)
        ≡ ((0, d) ∷ run i (overwrite k (sent r new) es), ok tt)
  unfolding unpack put_all
  unpack_lem i k d [] es pos_i h fits fit =
      ap (λ m. ((0, d) ∷ run i m, ok tt)) (sym (overwrite-nil k es))
  unpack_lem i k d (e ∷ new) es pos_i h fits fit =
      let e' = r.deserialize (r.serialize e) in
      let next : (i + k + 1) % 2 ^ 64 ≡ i + suc k = omega arith in
      let entered : insert (i + k) e' ((0, d) ∷ run i es)
          ≡ (0, d) ∷ run i (overwrite k (e' ∷ []) es) =
        insert-behind (i + k) e' d (run i es) (omega arith)
        ∙ ap (◌∷◌ (0, d)) (overwrite-run i k e' es h) in
      rw (read_buf_lem (r.serialize e) (put_all r (map r.serialize new)) fit.0, unpack)
        (rw entered (
          rw next (
            unpack_lem i (suc k) d new (overwrite k (e' ∷ []) es) pos_i
              (omega (arith, length-overwrite k e' es h)) (omega arith) fit.1
            ∙ ap (λ m. ((0, d) ∷ run i m, ok tt)) (overwrite-cons k e' (sent r new) es h))))

  first_index :
      (i : ℕ) (d : r.Entry) (es : List r.Entry)
      → 0 < i
      → 0 < length es
      → (elim (upper_bound 0 ((0, d) ∷ run i es)) [ some e ↦ e.0 | none ↦ 1 ]) ≡ i
  unfolding upper_bound run
  first_index i d [] h k = absurd (omega arith)
  first_index i d (e ∷ es) h k = ground arith

  -- A pack that begins among the entries of the store, or right behind them.
  pub apply_pack_lem :
      (i k : ℕ) (t : LogStore r) (d : r.Entry) (new es : List r.Entry)
      → t.logs ≡ (0, d) ∷ run i es
      → 0 < i
      → k ≤ length es
      → 0 < length new
      → length new < 2 ^ 31
      → i + k + length new < 2 ^ 64
      → Fits r new
      → apply_pack r (i + k) (packed r new) t
        ≡ (record t { logs = (0, d) ∷ run i (overwrite k (sent r new) es); start_idx = i }, ok tt)
  unfolding apply_pack packed unpacked
  apply_pack_lem i k t d new es logs pos_i inside some_new small fits fit =
      let all : 0 < length (overwrite k (sent r new) es) = omega (
        arith,
        length-append (take k es) (sent r new ++ drop (length (sent r new)) (drop k es)),
        length-append (sent r new) (drop (length (sent r new)) (drop k es)),
        length-sent new,
      ) in
      let bytes = put_all r (map r.serialize new) in
      let logs' = (0, d) ∷ run i (overwrite k (sent r new) es) in
      rw (read_int_lem (length new) bytes small, apply_pack)
        (ap (λ x. unpacked r x t)
            (ap (unpack r (length new) (i + k) bytes) logs
              ∙ unpack_lem i k d new es pos_i inside fits fit)
          ∙ ap (λ n. (record t { logs = logs'; start_idx = n }, ok tt))
              (first_index i d (overwrite k (sent r new) es) pos_i all))

module _ (r : Raft) (laws : RaftLaws r) {s t : LogStore r} {d d' : r.Entry}
    {es : List r.Entry} where
  -- A range of a store that is packed and applied to a store without entries is what that store holds
  -- then, at the indices it had: each entry with its term, its type and its buffer.
  pub apply_pack-pack :
      (k n : ℕ)
      → Represents r s d es
      → Represents r t d' []
      → k + n ≤ length es
      → 0 < n
      → n < 2 ^ 31
      → Fits r (take n (drop k es))
      → (bytes : Bytes) × (got : List r.Entry) × (pack r (s.start_idx + k) n s ≡ ok bytes)
        × ((apply_pack r (s.start_idx + k) bytes t).1 ≡ ok tt)
        × Represents r (apply_pack r (s.start_idx + k) bytes t).0 d' got
        × ((apply_pack r (s.start_idx + k) bytes t).0.start_idx ≡ s.start_idx + k)
        × AllAlike r (take n (drop k es)) got
  apply_pack-pack k n rep empty inside some_n small fit =
      let new = take n (drop k es) in
      let i = s.start_idx + k in
      let size : length new ≡ n = omega (arith, length-take n (drop k es), length-drop k es) in
      let here : i + 0 ≡ i = omega arith in
      let all : overwrite 0 (sent r new) [] ≡ sent r new = overwrite-all (sent r new) in
      let applied : apply_pack r i (packed r new) t
          ≡ (record t { logs = (0, d') ∷ run i (sent r new); start_idx = i }, ok tt) =
        rw here at (
          rw all at (
            apply_pack_lem r laws i 0 t d' new []
              (empty.shape ∙ ap (◌∷◌ (0, d')) (run-nil t.start_idx i)) (omega (arith, rep.positive))
              (omega arith) (omega arith) (omega arith) (omega (arith, rep.bounded)) fit)) in
      (
        packed r new,
        sent r new,
        pack_lem r rep k n inside,
        ap (λ x. x.1) applied,
        rw applied (record {
          shape = refl;
          positive = omega (arith, rep.positive);
          bounded = omega (arith, rep.bounded, length-sent r laws new);
        }),
        ap (λ x. x.0.start_idx) applied,
        sent-AllAlike r laws new,
      )
