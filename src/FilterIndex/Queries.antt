-- ===== src/FilterIndex/Queries.antt =====
-- What the two queries of the index answer, where each bitmap of a field says of an identifier
-- whether its value is the bitmap's one.
use learn_vector_db.Prelude.{
  ℕ, Bool, true, false, not, ◌&&◌, ◌||◌, Option, none, some, [], ◌∷◌, Bytes, bytes_key,
  if◌then◌else◌, ◌≡◌, refl, sym, ◌∙◌, arith, Option-cases, inl, inr,
}
use learn_vector_db.Json.{ℤ, int_eq, int_eq_iff, int_key}
use learn_vector_db.StdMap.{find}
use learn_vector_db.StdMap.Ordered.{IsOrdered, AllFound, IsOrdered-AllFound, int_order}
use learn_vector_db.FilterIndex.{
  Roaring, RoaringLaws, Index, ValueMap, Operation, equal, not_equal, narrow, join_others,
  query_values, get_int_field_filter_bitmap,
}
use learn_vector_db.FilterIndex.Members.{in_values, is_member, same_value, equal_lem}
use learn_vector_db.FilterIndex.Ordered.{WellFormed, find-WellValued}

-- Whether a query for the value is to find an identifier whose value is the first one.
abbrev pub matches : Option ℤ → Operation → ℤ → Bool
matches stored equal v = same_value stored v
matches none not_equal v = false
matches (some u) not_equal v = not (int_eq u v)

module _ (b : Roaring) where
  -- One of the other values is the stored one.
  abbrev other_value : Option ℤ → ℤ → ValueMap b → Bool
  other_value stored v [] = false
  other_value stored v ((w, bitmap) ∷ values) =
      (not (int_eq w v) && same_value stored w) || other_value stored v values

  abbrev has_value : Option b.Bitmap → Bool
  has_value none = false
  has_value (some bitmap) = true

  no_other_value : (v : ℤ) (values : ValueMap b) → other_value none v values ≡ false
  no_other_value v [] = refl
  no_other_value v ((w, bitmap) ∷ values) = ground (arith, no_other_value v values)

  one_other_value :
      (u v : ℤ) (values : ValueMap b)
      → other_value (some u) v values ≡ (not (int_eq u v) && has_value (find u values))
  unfolding find
  one_other_value u v [] = ground arith
  one_other_value u v ((w, bitmap) ∷ values) =
      ground (arith, int_eq_iff u w, int_eq_iff w u, one_other_value u v values)

  other_value-matches :
      (x : ℕ) (stored : Option ℤ) (v : ℤ) (values : ValueMap b)
      → ((w : ℤ) → in_values b w x values ≡ same_value stored w)
      → other_value stored v values ≡ matches stored not_equal v
  unfolding in_values
  other_value-matches x none v values says = no_other_value v values
  other_value-matches x (some u) v values says =
      one_other_value u v values ∙ elim (Option-cases (find u values)) [
        | inl missing ↦ ground (arith, missing, says u, int_eq_iff u u)
        | inr (bitmap, found) ↦ ground (arith, found)
      ]

module _ (b : Roaring) (laws : RoaringLaws b) (x : ℕ) (stored : Option ℤ) where
  abbrev AllSay : ValueMap b → Type 0
  AllSay [] = Unit
  AllSay ((w, bitmap) ∷ values) =
      (b.contains (narrow x) bitmap ≡ same_value stored w) × AllSay values

  join_others_lem :
      (v : ℤ) (values : ValueMap b) (result : b.Bitmap)
      → AllSay values
      → b.contains (narrow x) (join_others b v values result)
        ≡ (b.contains (narrow x) result || other_value b stored v values)
  unfolding join_others
  join_others_lem v [] result says = ground arith
  join_others_lem v ((w, bitmap) ∷ values) result says =
      join_others_lem v values (if int_eq w v then result else b.or_inplace result bitmap) says.1
      ∙ ground (arith, laws.contains-or (narrow x) result bitmap, says.0)

  AllFound-AllSay :
      (values part : ValueMap b)
      → ((w : ℤ) → in_values b w x values ≡ same_value stored w)
      → AllFound values part
      → AllSay part
  unfolding in_values
  AllFound-AllSay values [] says found = tt
  AllFound-AllSay values ((w, bitmap) ∷ part) says found =
      (ground (arith, says w, found.0), AllFound-AllSay values part says found.1)

  -- In a field whose bitmaps say of the identifier whether its value is theirs.
  not_equal_lem :
      (v : ℤ) (values : ValueMap b)
      → IsOrdered values
      → ((w : ℤ) → in_values b w x values ≡ same_value stored w)
      → b.contains (narrow x) (join_others b v values b.create) ≡ matches stored not_equal v
  not_equal_lem v values ordered says =
      join_others_lem v values b.create
        (AllFound-AllSay values values says (IsOrdered-AllFound int_order values ordered))
      ∙ ground
          (arith, laws.contains-create (narrow x), other_value-matches b x stored v values says)

  no_field :
      (field : Bytes) (v : ℤ) (m : Index b)
      → find field m ≡ none
      → ((w : ℤ) → is_member b field w x m ≡ same_value stored w)
      → matches stored not_equal v ≡ false
  unfolding is_member
  no_field field v m missing says = elim (Option-cases stored) [
    | inl none_stored ↦ rw none_stored refl
    | inr (u, found) ↦ ground (arith, missing, found, says u, int_eq_iff u u)
  ]

  -- If the index says of an identifier, for every value of a field, whether that is the stored one,
  -- then a query for a value finds it just where the stored value is that one, and a query for the
  -- other values just where there is a stored value and it is another one.
  pub queries_lem :
      (field : Bytes) (op : Operation) (v : ℤ) (m : Index b)
      → WellFormed b m
      → ((w : ℤ) → is_member b field w x m ≡ same_value stored w)
      → b.contains (narrow x) (get_int_field_filter_bitmap b field op v m b.create)
        ≡ matches stored op v
  unfolding get_int_field_filter_bitmap query_values is_member
  queries_lem field equal v m formed says =
      equal_lem b laws field v x m b.create
      ∙ ground (arith, laws.contains-create (narrow x), says v)
  queries_lem field not_equal v m formed says = elim (Option-cases (find field m)) [
    | inl missing ↦
        rw (missing, get_int_field_filter_bitmap)
          (laws.contains-create (narrow x) ∙ sym (no_field field v m missing says))
    | inr (values, found) ↦
        rw (found, get_int_field_filter_bitmap)
          (not_equal_lem v values (find-WellValued b field values m formed.valued found).ordered
            (λ w. sym (rw (found, is_member) refl) ∙ says w))
  ]
