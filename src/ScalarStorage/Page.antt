-- ===== src/ScalarStorage/Page.antt =====
-- A page of a scan is the part of the range that its number and size say.
use mathlib.Core.List.{append-nil, append_assoc}
use learn_vector_db.Prelude.{
  ℕ, zero, suc, ◌+◌, ◌-◌, ◌*◌, ◌%◌, ◌^◌, ◌<◌, Bool, true, false, not, ◌||◌, List, [], ◌∷◌, ◌++◌,
  Bytes, length, length-append, take, drop, take_while, null, ◌==◌, ◌≡◌, arith, lt→ltb, take-nil,
  drop-nil, Bool-cases, inl, inr, ◌∙◌,
}
use learn_vector_db.ScalarStorage.{
  RocksDb, ScalarKvPage, scan_loop, last_look, key_in_range, first_pairs, scan_page,
}

-- The pairs from the start of the scan to the first key out of the range.
abbrev pub in_front : (Bytes → Bool) → List (Bytes × Bytes) → List (Bytes × Bytes)
in_front in_range = take_while (λ e. in_range e.0)

module _ (in_range : Bytes → Bool) (page_size : ℕ) where
  finish : List (Bytes × Bytes) → ℕ → List (Bytes × Bytes) → ScalarKvPage
  finish pairs skip items =
      last_look in_range page_size (scan_loop in_range page_size pairs skip items)

  finish-nil :
      (skip : ℕ) (items : List (Bytes × Bytes))
      → finish [] skip items ≡ record { items = items; has_more = false }
  unfolding finish last_look scan_loop
  finish-nil skip items = ground arith

  module _ (e : Bytes × Bytes) (rest : List (Bytes × Bytes)) where
    finish_out :
        (skip : ℕ) (items : List (Bytes × Bytes))
        → in_range e.0 ≡ false
        → finish (e ∷ rest) skip items ≡ record { items = items; has_more = false }
    unfolding finish last_look scan_loop
    finish_out skip items h = ground arith

    finish_skip :
        (skip : ℕ) (items : List (Bytes × Bytes))
        → in_range e.0 ≡ true
        → finish (e ∷ rest) (suc skip) items ≡ finish rest skip items
    unfolding finish scan_loop
    finish_skip skip items h =
        let less : suc skip - 1 ≡ skip = omega arith in
        rw h (rw (lt→ltb 0 (suc skip) (omega arith)) (rw less))

    finish_add :
        (items : List (Bytes × Bytes))
        → in_range e.0 ≡ true
        → length items < page_size
        → finish (e ∷ rest) 0 items ≡ finish rest 0 (items ++ e ∷ [])
    unfolding finish scan_loop
    finish_add items h k = rw h (rw (lt→ltb (length items) page_size k))

    finish_more :
        (items : List (Bytes × Bytes))
        → in_range e.0 ≡ true
        → length items ≡ page_size
        → finish (e ∷ rest) 0 items ≡ record { items = items; has_more = true }
    unfolding finish last_look scan_loop
    finish_more items h k = ground arith

  -- `room` more pairs fit on the page.
  finish_fill :
      (pairs items : List (Bytes × Bytes)) (room : ℕ)
      → length items + room ≡ page_size
      → finish pairs 0 items ≡ record {
        items = items ++ take room (in_front in_range pairs);
        has_more = not (null (drop room (in_front in_range pairs)));
      }
  unfolding take_while
  finish_fill [] items zero h = rw (finish-nil 0 items) (rw (append-nil items))
  finish_fill [] items (suc room) h = rw (finish-nil 0 items) (rw (append-nil items))
  finish_fill (e ∷ pairs) items zero h = elim (Bool-cases (in_range e.0)) [
    | inl here ↦ rw (finish_more e pairs items here (omega arith)) (rw here (rw (append-nil items)))
    | inr out ↦ rw (finish_out e pairs 0 items out) (rw out (rw (append-nil items)))
  ]
  finish_fill (e ∷ pairs) items (suc room) h = elim (Bool-cases (in_range e.0)) [
    | inl here ↦ rw (finish_add e pairs items here (omega arith)) (
        finish_fill pairs (items ++ e ∷ []) room (omega (arith, length-append items (e ∷ [])))
        ∙ rw here (rw append_assoc))
    | inr out ↦ rw (finish_out e pairs 0 items out) (rw out (rw (append-nil items)))
  ]

  finish_lem :
      (pairs : List (Bytes × Bytes)) (skip : ℕ)
      → finish pairs skip [] ≡ record {
        items = take page_size (drop skip (in_front in_range pairs));
        has_more = not (null (drop (skip + page_size) (in_front in_range pairs)));
      }
  unfolding take_while
  finish_lem pairs zero =
      let same : 0 + page_size ≡ page_size = omega arith in
      rw same (finish_fill pairs [] page_size (omega arith))
  finish_lem [] (suc skip) = rw (finish-nil (suc skip) []) (
      rw (take-nil {A = Bytes × Bytes} page_size)
        (rw (drop-nil {A = Bytes × Bytes} (suc skip + page_size))))
  finish_lem (e ∷ pairs) (suc skip) = elim (Bool-cases (in_range e.0)) [
    | inl here ↦
        let more : suc skip + page_size ≡ suc (skip + page_size) = omega arith in
        rw (finish_skip e pairs skip [] here) (finish_lem pairs skip ∙ rw here (rw more))
    | inr out ↦ rw (finish_out e pairs (suc skip) [] out) (
        rw out (
          rw (take-nil {A = Bytes × Bytes} page_size)
            (rw (drop-nil {A = Bytes × Bytes} (suc skip + page_size)))))
  ]

take_add {ℓ} :
    {A : Type ℓ} (m n : ℕ) (xs : List A) → take m xs ++ take n (drop m xs) ≡ take (m + n) xs
take_add zero n xs = let same : 0 + n ≡ n = omega arith in rw same
take_add {A} (suc m) n [] = rw (take-nil {A = A} n) (rw (take-nil {A = A} (suc m + n)))
take_add (suc m) n (x ∷ xs) =
    let next : suc m + n ≡ suc (m + n) = omega arith in rw next (rw (← take_add m n xs))

module _ (k : RocksDb) (key_prefix key_upper : Bytes) (db : k.Db) where
  -- The pairs in the range, from where the iterator starts.
  abbrev pub range : List (Bytes × Bytes)
  range = in_front (key_in_range key_prefix key_upper) (first_pairs k key_prefix db)

  -- Page `n + 1` holds the pairs of the range behind those of the `n` pages before it, as many as a
  -- page holds, and says whether there are more.
  pub scan_page_lem :
      (n page_size : ℕ)
      → 0 < page_size
      → n * page_size < 2 ^ 64
      → scan_page k key_prefix key_upper (n + 1) page_size db ≡ record {
        items = take page_size (drop (n * page_size) range);
        has_more = not (null (drop (n * page_size + page_size) range));
      }
  unfolding scan_page
  scan_page_lem n page_size h fits =
      let test : (page_size == 0 || n + 1 == 0) ≡ false = ground arith in
      let before : n + 1 - 1 ≡ n = omega arith in
      let skip : n * page_size % 2 ^ 64 ≡ n * page_size = omega arith in
      rw test (
        rw before (
          rw skip (
            unfold finish in
            finish_lem (key_in_range key_prefix key_upper) page_size (first_pairs k key_prefix db)
              (n * page_size))))

  -- The items of the pages 1 to `n`, one page behind the other.
  unfoldable pub first_pages : ℕ → ℕ → List (Bytes × Bytes)
  first_pages zero page_size = []
  first_pages (suc n) page_size =
      first_pages n page_size ++ (scan_page k key_prefix key_upper (n + 1) page_size db).items

  -- The first `n` pages together are the first pairs of the range: none is missing, none is there
  -- twice.
  pub first_pages_lem :
      (n page_size : ℕ)
      → 0 < page_size
      → n * page_size < 2 ^ 64
      → first_pages n page_size ≡ take (n * page_size) range
  unfolding first_pages
  first_pages_lem zero page_size h fits =
      let none_yet : 0 * page_size ≡ 0 = omega arith in rw none_yet
  first_pages_lem (suc n) page_size h fits =
      let less : n * page_size < 2 ^ 64 = grind arith in
      let next : suc n * page_size ≡ n * page_size + page_size = omega arith in
      rw (first_pages_lem n page_size h less)
        (rw (scan_page_lem n page_size h less) (take_add (n * page_size) page_size range ∙ rw next))
