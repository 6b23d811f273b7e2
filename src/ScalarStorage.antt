-- ===== src/ScalarStorage.antt =====
-- `ScalarStorage` of scalar_storage.h and scalar_storage.cpp, over a RocksDB database, which is a
-- parameter. What is logged is not modelled.
pub mod Range
pub mod Page
pub mod Stored
use learn_vector_db.Prelude.{
  ℕ, ◌+◌, ◌-◌, ◌*◌, ◌%◌, ◌^◌, Bool, true, false, not, ◌&&◌, ◌||◌, Option, none, some, List, [], ◌∷◌,
  ◌++◌, Bytes, length, take, null, bytes_eq, bytes_less, ltb, ◌==◌, if◌then◌else◌, ◌≡◌,
}
use learn_vector_db.Result.{Result, ok, throw, runtime_error}
use learn_vector_db.Decimal.{to_string}
use learn_vector_db.Json.{Json, c_str}

pub record RocksDb : Type 1 where
  pub Db : Type 0
  -- `none` where the status is not ok; a `put` that fails leaves the database as it was
  pub get : Bytes → Db → Option Bytes
  pub put : Bytes → Bytes → Db → Option Db
  -- the pairs that an iterator meets from its first position on
  pub seek_to_first : Db → List (Bytes × Bytes)
  pub seek : Bytes → Db → List (Bytes × Bytes)

-- All keys of the pairs are above `a`.
abbrev pub Above : Bytes → List (Bytes × Bytes) → Type 0
Above a [] = Unit
Above a (e ∷ es) = (bytes_less a e.0 ≡ true) × Above a es

abbrev pub Ascending : List (Bytes × Bytes) → Type 0
Ascending [] = Unit
Ascending (e ∷ es) = Above e.0 es × Ascending es

-- The pairs from the first key on that is not below `p`.
unfoldable pub drop_below : Bytes → List (Bytes × Bytes) → List (Bytes × Bytes)
drop_below p [] = []
drop_below p (e ∷ es) = if bytes_less e.0 p then drop_below p es else e ∷ es

-- What RocksDB documents of reads, writes and iterators with the default comparator.
pub record RocksLaws (k : RocksDb) : Type 0 where
  pub get-put :
      (key value : Bytes) (db db' : k.Db) (j : Bytes)
      → k.put key value db ≡ some db'
      → k.get j db' ≡ (if bytes_eq key j then some value else k.get j db)
  pub ascending : (db : k.Db) → Ascending (k.seek_to_first db)
  pub seek_lem : (p : Bytes) (db : k.Db) → k.seek p db ≡ drop_below p (k.seek_to_first db)

pub record ScalarKvPage : Type 0 where
  pub items : List (Bytes × Bytes)
  pub has_more : Bool

abbrev pub empty_page : ScalarKvPage
empty_page = record { items = []; has_more = false }

module _ (k : RocksDb) where
  -- The constructor, for what `DB::Open` gave.
  unfoldable pub open_storage : Option k.Db → Result k.Db
  open_storage (some db) = ok db
  open_storage none = throw runtime_error

  unfoldable pub put : Bytes → Bytes → k.Db → k.Db
  put key value db = elim (k.put key value db) [ some db' ↦ db' | none ↦ db ]

  unfoldable pub get : Bytes → k.Db → Bytes
  get key db = elim (k.get key db) [ some value ↦ value | none ↦ [] ]

  unfoldable pub insert_scalar : (j : Json) → ℕ → j.Value → k.Db → k.Db
  insert_scalar j id data' db = elim (k.put (to_string id) (c_str (j.write data')) db) [
    | some db' ↦ db'
    | none ↦ db
  ]

  unfoldable pub get_scalar : (j : Json) → ℕ → k.Db → j.Value
  get_scalar j id db = elim (k.get (to_string id) db) [
    | none ↦ j.null
    | some value ↦ j.parse (c_str value)
  ]

-- The lambda `key_in_range` of `scan_page`.
unfoldable pub key_in_range : Bytes → Bytes → Bytes → Bool
key_in_range key_prefix key_upper k =
    if not (null key_prefix)
      && (ltb (length k) (length key_prefix)
          || not (bytes_eq (take (length key_prefix) k) key_prefix))
    then false
    else if not (null key_upper) && bytes_less key_upper k
    then false
    else true

-- What the loop of `scan_page` leaves: the page, and the pairs from the iterator's position on.
pub record Scan : Type 0 where
  pub page : ScalarKvPage
  pub left : List (Bytes × Bytes)

-- The `while` loop of `scan_page`.
unfoldable pub scan_loop :
    (Bytes → Bool) → ℕ → List (Bytes × Bytes) → ℕ → List (Bytes × Bytes) → Scan
scan_loop in_range page_size [] skip items = record {
  page = record { items = items; has_more = false };
  left = [];
}
scan_loop in_range page_size ((k, v) ∷ rest) skip items =
    let skipped = scan_loop in_range page_size rest (skip - 1) items in
    let added = scan_loop in_range page_size rest skip (items ++ (k, v) ∷ []) in
    if not (in_range k)
    then record { page = record { items = items; has_more = false }; left = (k, v) ∷ rest }
    else if ltb 0 skip
    then skipped
    else if ltb (length items) page_size
    then added
    else record { page = record { items = items; has_more = true }; left = (k, v) ∷ rest }

-- The test behind the loop.
unfoldable pub last_look : (Bytes → Bool) → ℕ → Scan → ScalarKvPage
last_look in_range page_size s =
    if length s.page.items == page_size && not s.page.has_more
    then elim s.left [ [] ↦ s.page | e ∷ rest ↦ record s.page { has_more = in_range e.0 } ]
    else s.page

module _ (k : RocksDb) where
  -- Where the iterator starts.
  unfoldable pub first_pairs : Bytes → k.Db → List (Bytes × Bytes)
  first_pairs key_prefix db =
      if not (null key_prefix) then k.seek key_prefix db else k.seek_to_first db

  unfoldable pub scan_page : Bytes → Bytes → ℕ → ℕ → k.Db → ScalarKvPage
  scan_page key_prefix key_upper page_num page_size db =
      if page_size == 0 || page_num == 0
      then empty_page
      else last_look (key_in_range key_prefix key_upper) page_size (
          scan_loop (key_in_range key_prefix key_upper) page_size (first_pairs key_prefix db)
            (((page_num - 1) * page_size) % 2 ^ 64) [])
