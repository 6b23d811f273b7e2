-- ===== src/Tests/Indexes.antt =====
-- The theorems on the scalar storage, the filter index and the texts of the write-ahead log.
use learn_vector_db.Prelude.{
  ℕ, true, false, not, ◌&&◌, ◌||◌, none, some, List, [], ◌∷◌, ◌++◌, Bytes, codes, take, keep,
  bytes_eq, bytes_less, ◌≡◌, refl, arith,
}
use learn_vector_db.Result.{ok, throw, invalid_argument}
use learn_vector_db.Json.{ℤ, pos, int_eq, c_str}
use learn_vector_db.Decimal.{to_string, stoull}
use learn_vector_db.Decimal.RoundTrip.{stoull-to_string, absent}
use learn_vector_db.StdMap.{StdMap}
use learn_vector_db.Wal.{Persistence, lines, wal_line, see_id, read_lines}
use learn_vector_db.Wal.ReadBack.{IsLine, read_lines-wal_line, before_bar}
use learn_vector_db.ScalarStorage.{Ascending}
use learn_vector_db.ScalarStorage.Page.{range, first_pages, first_pages_lem}
use learn_vector_db.ScalarStorage.Range.{begins, range-keep}
use learn_vector_db.FilterIndex.{
  update_int_field_filter, serialize_int_field_filter, deserialize_int_field_filter,
}
use learn_vector_db.FilterIndex.Members.{is_member, is_member-update}
use learn_vector_db.FilterIndex.Newline.{newline_breaks}
use learn_vector_db.Tests.Bitmaps.{list_roaring, list_roaring_laws}
use learn_vector_db.Tests.Store.{Sorted, sorted_rocks, sorted_rocks_laws}
use learn_vector_db.Tests.Documents.{small_json, parse_text}

abbrev three_pairs : StdMap Bytes Bytes
three_pairs = (codes "a1", codes "x") ∷ (codes "a2", codes "y") ∷ (codes "b", codes "z") ∷ []

three-Ascending : Ascending three_pairs
unfolding bytes_less
three-Ascending = ((refl, (refl, tt)), ((refl, tt), (tt, tt)))

abbrev three : Sorted
three = record { pairs = three_pairs; ascending = three-Ascending }

first_pages_example :
    first_pages sorted_rocks (codes "a") [] three 2 1
    ≡ take 2 (range sorted_rocks (codes "a") [] three)
first_pages_example =
    first_pages_lem sorted_rocks (codes "a") [] three 2 1 (omega arith) (omega arith)

range-keep_example :
    range sorted_rocks (codes "a") (codes "a1") three
    ≡ keep
        (λ e. begins (codes "a") e.0 && not (not false && bytes_less (codes "a1") e.0))
        three.pairs
range-keep_example = range-keep sorted_rocks sorted_rocks_laws (codes "a") (codes "a1") three

abbrev age_index : StdMap Bytes (StdMap ℤ (List ℕ))
age_index = (codes "age", (pos 30, 7 ∷ []) ∷ []) ∷ []

is_member-update_example :
    is_member list_roaring
      (codes "age")
      (pos 30)
      7
      (update_int_field_filter list_roaring (codes "age") (some (pos 30)) (pos 31) 7 age_index)
    ≡ (false || (not true && is_member list_roaring (codes "age") (pos 30) 7 age_index))
unfolding bytes_eq int_eq
is_member-update_example =
    is_member-update list_roaring list_roaring_laws (codes "age") (codes "age") (some (pos 30))
      (pos 31) (pos 30) 7 7 age_index

-- The bitmap of the identifiers 1, 10 and 2 in a serialization that has their bytes, behind another
-- field and another value.
newline_breaks_example :
    deserialize_int_field_filter list_roaring
      (serialize_int_field_filter list_roaring (
        (codes "a", (pos 1, 4 ∷ []) ∷ [])
        ∷ (codes "age", (pos 29, 5 ∷ []) ∷ (pos 30, 1 ∷ 10 ∷ 2 ∷ []) ∷ (pos 31, 6 ∷ []) ∷ [])
        ∷ []))
      []
    ≡ throw invalid_argument
unfolding absent
newline_breaks_example =
    newline_breaks list_roaring ((codes "a", (pos 1, 4 ∷ []) ∷ []) ∷ []) (codes "age")
      ((pos 29, 5 ∷ []) ∷ []) (pos 30) (1 ∷ 10 ∷ 2 ∷ []) ((pos 31, 6 ∷ []) ∷ []) [] [] (1 ∷ [])
      (2 ∷ [])
      (refl, refl, (record { fits = omega arith; one_line = refl; reads_back = refl }, tt), tt)
      (record { fits = omega arith; one_line = refl; reads_back = refl }, tt) refl refl refl refl
      refl refl (omega arith)

stoull-to_string_example : stoull (to_string 1234) ≡ ok 1234
stoull-to_string_example = stoull-to_string 1234 (omega arith)

abbrev wal : Persistence
wal = record {
  increase_id = 10;
  last_snapshot_id = 3;
  content = [];
  unread = [];
  good = true;
  max_log_id_file = none;
}

IsLine-example : IsLine 12 (codes "1.0") (codes "upsert") (codes "ab|c")
unfolding absent
IsLine-example = record {
  fits = omega arith;
  version_bar = refl;
  version_newline = refl;
  op_bar = refl;
  op_newline = refl;
  text_newline = refl;
}

-- What stands behind the `|` of the text is lost.
read_lines-wal_line_example :
    read_lines small_json
      (lines (wal_line 12 (codes "1.0") (codes "upsert") (codes "ab|c") ++ []))
      wal
      []
      small_json.null
    ≡ ok (record {
      state = record (see_id 12 wal) { unread = lines [] };
      operation = codes "upsert";
      document = parse_text (c_str (codes "ab"));
    })
unfolding before_bar
read_lines-wal_line_example =
    read_lines-wal_line 12 (codes "1.0") (codes "upsert") (codes "ab|c") IsLine-example small_json
      [] wal [] small_json.null
