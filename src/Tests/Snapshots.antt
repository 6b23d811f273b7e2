-- ===== src/Tests/Snapshots.antt =====
-- A filter index that is saved and loaded, alone and in the snapshot of a database.
use learn_vector_db.Prelude.{ℕ, true, none, some, List, [], ◌∷◌, codes, ◌≡◌, refl, arith}
use learn_vector_db.Result.{ok}
use learn_vector_db.Json.{pos, negsuc}
use learn_vector_db.FilterIndex.{Index, serialize_int_field_filter, deserialize_int_field_filter}
use learn_vector_db.FilterIndex.Ordered.{WellFormed}
use learn_vector_db.FilterIndex.RoundTrip.{Savable, deserialize-serialize}
use learn_vector_db.Decimal.RoundTrip.{absent}
use learn_vector_db.Database.{Database, take_snapshot, load_snapshot}
use learn_vector_db.Database.Exact.{Exact, upsert-Exact}
use learn_vector_db.Database.Snapshot.{Restored, load_snapshot-Exact}
use learn_vector_db.IndexFactory.{flat}
use learn_vector_db.Tests.Bitmaps.{list_roaring, list_roaring_laws}
use learn_vector_db.Tests.Store.{sorted_rocks_laws}
use learn_vector_db.Tests.Histories.{
  aged_libraries, of_age, start, start-Exact, young, young_Stores,
}

abbrev two_fields : Index list_roaring
two_fields =
    (codes "age", (pos 30, 7 ∷ []) ∷ [])
    ∷ (codes "size", (negsuc 1, 1 ∷ 2 ∷ []) ∷ (pos 4, 7 ∷ []) ∷ [])
    ∷ []

two_fields-WellFormed : WellFormed list_roaring two_fields
unfolding learn_vector_db.Prelude.bytes_less learn_vector_db.Json.int_less
two_fields-WellFormed = record {
  ordered = ((refl, tt), (tt, tt));
  valued = (
    record { ordered = (tt, tt); some_value = refl },
    (record { ordered = ((refl, tt), (tt, tt)); some_value = refl }, tt),
  );
}

two_fields-Savable : Savable list_roaring two_fields
unfolding absent
two_fields-Savable = (
  refl,
  refl,
  (record { fits = omega arith; one_line = refl; reads_back = refl }, tt),
  (
    refl,
    refl,
    (
      record { fits = omega arith; one_line = refl; reads_back = refl },
      (record { fits = omega arith; one_line = refl; reads_back = refl }, tt),
    ),
    tt,
  ),
)

deserialize-serialize_example :
    deserialize_int_field_filter list_roaring
      (serialize_int_field_filter list_roaring two_fields)
      []
    ≡ ok two_fields
deserialize-serialize_example =
    deserialize-serialize list_roaring two_fields two_fields-WellFormed two_fields-Savable

abbrev next : Database aged_libraries
next = record start { scalars = (take_snapshot aged_libraries true young).scalars }

abbrev young_fields : Index list_roaring
young_fields = (codes "age", (pos 30, 1 ∷ []) ∷ []) ∷ []

young-Restored : Restored aged_libraries true young_fields young next
unfolding absent learn_vector_db.Database.upsert learn_vector_db.Exec.◌>>=◌
    learn_vector_db.Database.forget learn_vector_db.ScalarStorage.get_scalar
    learn_vector_db.StdMap.find learn_vector_db.Database.read_vectors
    learn_vector_db.Prelude.bytes_eq learn_vector_db.Database.floats
    learn_vector_db.Database.insert_new learn_vector_db.Database.on_flat
    learn_vector_db.Database.update_filters learn_vector_db.Database.update_filter
    learn_vector_db.Json.c_str learn_vector_db.Database.old_value learn_vector_db.Database.on_filter
    learn_vector_db.Exec.modify learn_vector_db.FilterIndex.update_int_field_filter
    learn_vector_db.Decimal.to_string learn_vector_db.FilterIndex.add_int_field_filter
    learn_vector_db.ScalarStorage.insert_scalar learn_vector_db.StdMap.insert
    learn_vector_db.VectorIndex.flat_insert learn_vector_db.VectorIndex.to_long
    learn_vector_db.Database.get_index_type_from_request learn_vector_db.Database.type_of_text
young-Restored = record {
  saved = refl;
  well_formed = record {
    ordered = (tt, tt);
    valued = (record { ordered = (tt, tt); some_value = refl }, tt);
  };
  savable =
      (refl, refl, (record { fits = omega arith; one_line = refl; reads_back = refl }, tt), tt);
  kept = _;
  put_taken = refl;
  same_documents = refl;
  empty = refl;
}

load_snapshot-Exact_example :
    ((load_snapshot aged_libraries next).1 ≡ ok tt)
    × Exact aged_libraries (codes "age") (load_snapshot aged_libraries next).0
load_snapshot-Exact_example =
    load_snapshot-Exact aged_libraries sorted_rocks_laws true young_fields young next young-Restored
      (codes "age")
      (upsert-Exact aged_libraries sorted_rocks_laws list_roaring_laws (codes "age") 1 (of_age 30)
        flat start (start-Exact start.persistence) (young_Stores start.persistence))
