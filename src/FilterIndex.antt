-- ===== src/FilterIndex.antt =====
-- `FilterIndex` of filter_index.h and filter_index.cpp, over the bitmaps of CRoaring, which are a
-- parameter. A bitmap belongs to one field and value, so the pointers are its values; a null pointer,
-- which a failed deserialization stores, is one of them. What is logged is not modelled.
pub mod Members
pub mod Saved
pub mod Ordered
pub mod RoundTrip
pub mod Newline
pub mod Queries
use learn_vector_db.Prelude.{
  ℕ, ◌+◌, ◌-◌, ◌%◌, ◌^◌, Bool, true, false, not, ◌&&◌, ◌||◌, Option, none, some, List, [], ◌∷◌,
  ◌++◌, Bytes, ◌==◌, ltb, if◌then◌else◌, bytes_key, ◌≡◌,
}
use learn_vector_db.Result.{Result, ok, throw, invalid_argument, out_of_range, ◌>>=◌}
use learn_vector_db.Decimal.{to_string, is_digit, scan, skip_space}
use learn_vector_db.Json.{ℤ, pos, negsuc, int_eq, int_key}
use learn_vector_db.StdMap.{StdMap, find, insert}
use learn_vector_db.Wal.{bar, newline, lines, Input, next_field}
use learn_vector_db.ScalarStorage
use learn_vector_db.ScalarStorage.{RocksDb}

pub record Roaring : Type 1 where
  pub Bitmap : Type 0
  pub create : Bitmap
  pub add : ℕ → Bitmap → Bitmap
  pub remove : ℕ → Bitmap → Bitmap
  -- `or_inplace x y`: what `x` becomes
  pub or_inplace : Bitmap → Bitmap → Bitmap
  pub contains : ℕ → Bitmap → Bool
  pub serialize : Bitmap → Bytes
  pub deserialize : Bytes → Bitmap

pub record RoaringLaws (b : Roaring) : Type 0 where
  pub contains-create : (x : ℕ) → b.contains x b.create ≡ false
  pub contains-add :
      (x y : ℕ) (m : b.Bitmap) → b.contains y (b.add x m) ≡ (x == y || b.contains y m)
  pub contains-remove :
      (x y : ℕ) (m : b.Bitmap) → b.contains y (b.remove x m) ≡ (not (x == y) && b.contains y m)
  pub contains-or :
      (x : ℕ) (m n : b.Bitmap)
      → b.contains x (b.or_inplace m n) ≡ (b.contains x m || b.contains x n)

-- A `uint64_t` where a `uint32_t` is wanted.
abbrev pub narrow : ℕ → ℕ
narrow id = id % 2 ^ 32

pub data Operation : Type 0 where
  equal not_equal : Operation

-- `ostream << long`.
unfoldable pub print_long : ℤ → Bytes
print_long (pos n) = to_string n
print_long (negsuc n) = b'-' ∷ to_string (n + 1)

abbrev pub long_of : Bool → ℕ → Result ℤ
long_of false v = if ltb v (2 ^ 63) then ok (pos v) else throw out_of_range
long_of true v =
    if v == 0
    then ok (pos 0)
    else if ltb (2 ^ 63) v
    then throw out_of_range
    else ok (negsuc (v - 1))

unfoldable pub long_digits : Bool → Bytes → Result ℤ
long_digits negative [] = throw invalid_argument
long_digits negative (c ∷ s) =
    if is_digit c then long_of negative (scan 0 (c ∷ s)) else throw invalid_argument

unfoldable pub long_after_space : Bytes → Result ℤ
long_after_space [] = throw invalid_argument
long_after_space (c ∷ s) =
    if c == b'-'
    then long_digits true s
    else if c == b'+'
    then long_digits false s
    else long_digits false (c ∷ s)

-- `std::stol`.
unfoldable pub stol : Bytes → Result ℤ
unfolding long_digits long_after_space
stol s = long_after_space (skip_space s)

module _ (b : Roaring) where
  -- The values of one field, and the fields.
  abbrev pub ValueMap : Type 0
  ValueMap = StdMap ℤ b.Bitmap

  abbrev pub Index : Type 0
  Index = StdMap Bytes ValueMap

  -- `intFieldFilter[fieldname]`: a field that is not there is added with no values.
  abbrev pub values_of : Bytes → Index → ValueMap
  values_of fieldname m = elim (find fieldname m) [ some values ↦ values | none ↦ [] ]

  unfoldable pub add_int_field_filter : Bytes → ℤ → ℕ → Index → Index
  add_int_field_filter fieldname value id m =
      insert fieldname (insert value (b.add (narrow id) b.create) (values_of fieldname m)) m

  -- The identifier leaves the bitmap of the old value, if there is one.
  unfoldable pub leave_old : Option ℤ → ℕ → ValueMap → ValueMap
  leave_old none id values = values
  leave_old (some old) id values = elim (find old values) [
    | none ↦ values
    | some bitmap ↦ insert old (b.remove (narrow id) bitmap) values
  ]

  unfoldable pub enter_new : ℤ → ℕ → ValueMap → ValueMap
  enter_new new_value id values = elim (find new_value values) [
    | none ↦ insert new_value (b.add (narrow id) b.create) values
    | some bitmap ↦ insert new_value (b.add (narrow id) bitmap) values
  ]

  unfoldable pub update_int_field_filter : Bytes → Option ℤ → ℤ → ℕ → Index → Index
  update_int_field_filter fieldname old_value new_value id m = elim (find fieldname m) [
    | none ↦ add_int_field_filter fieldname new_value id m
    | some values ↦ insert fieldname (enter_new new_value id (leave_old old_value id values)) m
  ]

  -- The loop over `value_map`: all bitmaps but that of `value` join the result.
  unfoldable pub join_others : ℤ → ValueMap → b.Bitmap → b.Bitmap
  join_others value [] result = result
  join_others value ((v, bitmap) ∷ rest) result =
      join_others value rest (if int_eq v value then result else b.or_inplace result bitmap)

  unfoldable pub query_values : Operation → ℤ → ValueMap → b.Bitmap → b.Bitmap
  query_values equal value values result = elim (find value values) [
    | none ↦ result
    | some bitmap ↦ b.or_inplace result bitmap
  ]
  query_values not_equal value values result = join_others value values result

  unfoldable pub get_int_field_filter_bitmap : Bytes → Operation → ℤ → Index → b.Bitmap → b.Bitmap
  get_int_field_filter_bitmap fieldname op value m result = elim (find fieldname m) [
    | none ↦ result
    | some values ↦ query_values op value values result
  ]

  unfoldable pub serialize_values : Bytes → ValueMap → Bytes
  serialize_values field_name [] = []
  serialize_values field_name ((value, bitmap) ∷ rest) =
      field_name
      ++ (bar
          ∷ (print_long value
              ++ (bar ∷ (b.serialize bitmap ++ (newline ∷ serialize_values field_name rest)))))

  unfoldable pub serialize_int_field_filter : Index → Bytes
  serialize_int_field_filter [] = []
  serialize_int_field_filter ((field_name, values) ∷ rest) =
      serialize_values field_name values ++ serialize_int_field_filter rest

  -- One line of the serialized index.
  unfoldable pub load_line : Bytes → Index → Result Index
  load_line line m =
      let (field_name, s1) = next_field bar [] (record { rest = line; good = true }) in
      let (value_str, s2) = next_field bar [] s1 in
      stol value_str >>= λ value.
      ok (insert field_name (insert value (b.deserialize s2.rest) (values_of field_name m)) m)

  unfoldable pub load_lines : List Bytes → Index → Result Index
  load_lines [] m = ok m
  load_lines (line ∷ rest) m = load_line line m >>= λ m'. load_lines rest m'

  -- What the loop has put into the index where it ends or throws.
  unfoldable pub lines_loaded : List Bytes → Index → Index
  lines_loaded [] m = m
  lines_loaded (line ∷ rest) m = elim (load_line line m) [
    | throw e ↦ m
    | ok m' ↦ lines_loaded rest m'
  ]

  unfoldable pub deserialize_int_field_filter : Bytes → Index → Result Index
  deserialize_int_field_filter serialized_data m = load_lines (lines serialized_data) m

  module _ (k : RocksDb) where
    unfoldable pub save_index : Bytes → Index → k.Db → k.Db
    save_index key m db = ScalarStorage.put k key (serialize_int_field_filter m) db

    unfoldable pub load_index : Bytes → Index → k.Db → Result Index
    load_index key m db = deserialize_int_field_filter (ScalarStorage.get k key db) m

    -- The index where `load_index` throws.
    unfoldable pub index_loaded : Bytes → Index → k.Db → Index
    index_loaded key m db = lines_loaded (lines (ScalarStorage.get k key db)) m
