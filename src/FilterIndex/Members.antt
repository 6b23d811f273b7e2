-- ===== src/FilterIndex/Members.antt =====
-- Which identifiers the index holds for a field and a value.
use learn_vector_db.Prelude.{
  ℕ, Bool, false, not, ◌&&◌, ◌||◌, Option, none, some, [], Bytes, ◌==◌, if◌then◌else◌, bytes_eq,
  bytes_eq_iff, bytes_key, ◌≡◌, arith, inl, inr, Option-cases,
}
use learn_vector_db.Json.{ℤ, int_eq, int_eq_iff, int_key}
use learn_vector_db.StdMap.{find, insert, find-insert}
use learn_vector_db.FilterIndex.{
  Roaring, RoaringLaws, Index, ValueMap, narrow, equal, add_int_field_filter, leave_old, enter_new,
  update_int_field_filter, query_values, get_int_field_filter_bitmap,
}

module _ (b : Roaring) where
  unfoldable pub in_values : ℤ → ℕ → ValueMap b → Bool
  in_values value id values = elim (find value values) [
    | none ↦ false
    | some bitmap ↦ b.contains (narrow id) bitmap
  ]

  -- The bitmap of the value of the field holds the identifier.
  unfoldable pub is_member : Bytes → ℤ → ℕ → Index b → Bool
  is_member fieldname value id m = elim (find fieldname m) [
    | none ↦ false
    | some values ↦ in_values value id values
  ]

abbrev pub same_value : Option ℤ → ℤ → Bool
same_value none v = false
same_value (some w) v = int_eq w v

module _ (b : Roaring) (laws : RoaringLaws b) where
  in_values-enter_new :
      (new v : ℤ) (id x : ℕ) (values : ValueMap b)
      → in_values b v x (enter_new b new id values)
        ≡ ((int_eq new v && narrow id == narrow x) || in_values b v x values)
  unfolding in_values enter_new
  in_values-enter_new new v id x values = elim (Option-cases (find new values)) [
    | inl missing ↦ ground (
      arith,
      find-insert new v (b.add (narrow id) b.create) values,
      laws.contains-add (narrow id) (narrow x) b.create,
      laws.contains-create (narrow x),
      int_eq_iff new v,
    )
    | inr (bitmap, found) ↦ ground (
      arith,
      find-insert new v (b.add (narrow id) bitmap) values,
      laws.contains-add (narrow id) (narrow x) bitmap,
      int_eq_iff new v,
    )
  ]

  in_values-leave_old :
      (old : Option ℤ) (v : ℤ) (id x : ℕ) (values : ValueMap b)
      → in_values b v x (leave_old b old id values)
        ≡ (not (same_value old v && narrow id == narrow x) && in_values b v x values)
  unfolding in_values leave_old
  in_values-leave_old none v id x values = ground arith
  in_values-leave_old (some old) v id x values = elim (Option-cases (find old values)) [
    | inl missing ↦ ground (arith, int_eq_iff old v)
    | inr (bitmap, found) ↦ ground (
      arith,
      find-insert old v (b.remove (narrow id) bitmap) values,
      laws.contains-remove (narrow id) (narrow x) bitmap,
      int_eq_iff old v,
    )
  ]

  in_values-add :
      (new v : ℤ) (id x : ℕ)
      → in_values b v x (insert new (b.add (narrow id) b.create) [])
        ≡ (int_eq new v && narrow id == narrow x)
  unfolding in_values insert find
  in_values-add new v id x =
      ground
        (arith, laws.contains-add (narrow id) (narrow x) b.create, laws.contains-create (narrow x))

  -- What an update changes: of the field, the identifier is now under the new value, and no longer
  -- under the old one, if that differs. Identifiers are compared by their low 32 bits.
  pub is_member-update :
      (fieldname field : Bytes) (old : Option ℤ) (new v : ℤ) (id x : ℕ) (m : Index b)
      → is_member b field v x (update_int_field_filter b fieldname old new id m) ≡ (
          if bytes_eq fieldname field
          then (int_eq new v && narrow id == narrow x)
            || (not (same_value old v && narrow id == narrow x) && is_member b field v x m)
          else is_member b field v x m)
  unfolding is_member update_int_field_filter add_int_field_filter
  is_member-update fieldname field old new v id x m = elim (Option-cases (find fieldname m)) [
    | inl missing ↦ ground (
      arith,
      find-insert fieldname field (insert new (b.add (narrow id) b.create) []) m,
      in_values-add new v id x,
      bytes_eq_iff fieldname field,
    )
    | inr (values, found) ↦ ground (
      arith,
      find-insert fieldname field (enter_new b new id (leave_old b old id values)) m,
      in_values-enter_new new v id x (leave_old b old id values),
      in_values-leave_old old v id x values,
      bytes_eq_iff fieldname field,
    )
  ]

  -- A query for a value adds to the bitmap that it is given the identifiers that the index holds for
  -- the field and the value, and takes none away.
  pub equal_lem :
      (field : Bytes) (v : ℤ) (x : ℕ) (m : Index b) (result : b.Bitmap)
      → b.contains (narrow x) (get_int_field_filter_bitmap b field equal v m result)
        ≡ (b.contains (narrow x) result || is_member b field v x m)
  unfolding get_int_field_filter_bitmap query_values is_member in_values
  equal_lem field v x m result = elim (Option-cases (find field m)) [
    | inl missing ↦ ground arith
    | inr (values, found) ↦ elim (Option-cases (find v values)) [
      | inl no_value ↦ ground arith
      | inr (bitmap, here) ↦ ground (arith, laws.contains-or (narrow x) result bitmap)
    ]
  ]
