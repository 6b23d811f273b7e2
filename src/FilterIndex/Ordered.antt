-- ===== src/FilterIndex/Ordered.antt =====
-- What every operation keeps of the index: the fields and the values of each ascend, and no field is
-- without a value.
use learn_vector_db.Prelude.{
  ℕ, false, Option, none, some, [], ◌∷◌, Bytes, bytes_key, null, ◌≡◌, refl, sym, arith,
  Option-cases, inl, inr,
}
use mathlib.Core.Path.{subst}
use learn_vector_db.Json.{ℤ, int_key}
use learn_vector_db.StdMap.{StdMap, find, insert}
use learn_vector_db.StdMap.Ordered.{IsOrdered, insert-IsOrdered, bytes_order, int_order}
use learn_vector_db.FilterIndex.{
  Roaring, Index, ValueMap, narrow, values_of, leave_old, enter_new, add_int_field_filter,
  update_int_field_filter,
}

module _ (b : Roaring) where
  -- The values of a field.
  pub record WellValued (values : ValueMap b) : Type 0 where
    pub ordered : IsOrdered values
    pub some_value : null values ≡ false

  abbrev pub AllValued : Index b → Type 0
  AllValued [] = Unit
  AllValued ((name, values) ∷ m) = WellValued values × AllValued m

  pub record WellFormed (m : Index b) : Type 0 where
    pub ordered : IsOrdered m
    pub valued : AllValued m

  null-insert :
      {V : Type 0} (v : ℤ) (w : V) (values : StdMap ℤ V) → null (insert v w values) ≡ false
  unfolding insert
  null-insert v w [] = refl
  null-insert v w ((u, x) ∷ values) = ground arith

  insert-WellValued :
      (v : ℤ) (bitmap : b.Bitmap) (values : ValueMap b)
      → IsOrdered values
      → WellValued (insert v bitmap values)
  insert-WellValued v bitmap values h = record {
    ordered = insert-IsOrdered int_order v bitmap values h;
    some_value = null-insert v bitmap values;
  }

  insert-AllValued :
      (name : Bytes) (values : ValueMap b) (m : Index b)
      → WellValued values
      → AllValued m
      → AllValued (insert name values m)
  unfolding insert
  insert-AllValued name values [] w h = (w, tt)
  insert-AllValued name values ((other, us) ∷ m) w h =
      ground (arith, w, h, insert-AllValued name values m w h.1)

  insert-WellFormed :
      (name : Bytes) (values : ValueMap b) (m : Index b)
      → WellValued values
      → WellFormed m
      → WellFormed (insert name values m)
  insert-WellFormed name values m w h = record {
    ordered = insert-IsOrdered bytes_order name values m h.ordered;
    valued = insert-AllValued name values m w h.valued;
  }

  pub find-WellValued :
      (name : Bytes) (values : ValueMap b) (m : Index b)
      → AllValued m
      → find name m ≡ some values
      → WellValued values
  unfolding find
  find-WellValued name values [] h found = ground (arith, found)
  find-WellValued name values ((other, us) ∷ m) h found =
      ground (arith, h, found, find-WellValued name values m h.1)

  values_of-IsOrdered : (name : Bytes) (m : Index b) → AllValued m → IsOrdered (values_of b name m)
  values_of-IsOrdered name m h = elim (Option-cases (find name m)) [
    | inl missing ↦
        let none_yet : values_of b name m ≡ [] = rw (missing, values_of) refl in
        subst IsOrdered (sym none_yet) tt
    | inr (values, found) ↦
        let same : values_of b name m ≡ values = rw (found, values_of) refl in
        subst IsOrdered (sym same) (find-WellValued name values m h found).ordered
  ]

  leave_old-IsOrdered :
      (old : Option ℤ) (id : ℕ) (values : ValueMap b)
      → IsOrdered values
      → IsOrdered (leave_old b old id values)
  unfolding leave_old
  leave_old-IsOrdered none id values h = h
  leave_old-IsOrdered (some old) id values h = elim (Option-cases (find old values)) [
    | inl missing ↦ subst IsOrdered (sym (rw (missing, leave_old) refl)) h
    | inr (bitmap, found) ↦
        subst IsOrdered (sym (rw (found, leave_old) refl))
          (insert-IsOrdered int_order old (b.remove (narrow id) bitmap) values h)
  ]

  enter_new-WellValued :
      (new : ℤ) (id : ℕ) (values : ValueMap b)
      → IsOrdered values
      → WellValued (enter_new b new id values)
  unfolding enter_new
  enter_new-WellValued new id values h = elim (Option-cases (find new values)) [
    | inl missing ↦
        subst WellValued (sym (rw (missing, enter_new) refl))
          (insert-WellValued new (b.add (narrow id) b.create) values h)
    | inr (bitmap, found) ↦
        subst WellValued (sym (rw (found, enter_new) refl))
          (insert-WellValued new (b.add (narrow id) bitmap) values h)
  ]

  -- An update keeps the fields and the values in order, and gives its field a value.
  pub update-WellFormed :
      (name : Bytes) (old : Option ℤ) (new : ℤ) (id : ℕ) (m : Index b)
      → WellFormed m
      → WellFormed (update_int_field_filter b name old new id m)
  unfolding update_int_field_filter add_int_field_filter
  update-WellFormed name old new id m h = elim (Option-cases (find name m)) [
    | inl missing ↦ subst WellFormed (sym (rw (missing, update_int_field_filter) refl)) (
        insert-WellFormed name (insert new (b.add (narrow id) b.create) (values_of b name m)) m
          (insert-WellValued new _ (values_of b name m) (values_of-IsOrdered name m h.valued)) h)
    | inr (values, found) ↦ subst WellFormed (sym (rw (found, update_int_field_filter) refl)) (
        insert-WellFormed name (enter_new b new id (leave_old b old id values)) m
          (enter_new-WellValued new id (leave_old b old id values) (
            leave_old-IsOrdered old id values
              (find-WellValued name values m h.valued found).ordered))
          h)
  ]
