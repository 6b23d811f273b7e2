-- ===== src/Tests/Bitmaps.antt =====
-- A bitmap as a list of its members, and its laws.
use learn_vector_db.Prelude.{
  ℕ, Bool, false, not, ◌&&◌, ◌||◌, List, [], ◌∷◌, ◌++◌, ◌==◌, keep, ◌≡◌, refl, arith,
}
use learn_vector_db.FilterIndex.{Roaring, RoaringLaws}

abbrev pub holds : ℕ → List ℕ → Bool
holds x [] = false
holds x (y ∷ m) = y == x || holds x m

abbrev pub list_roaring : Roaring
list_roaring = record {
  Bitmap = List ℕ;
  create = [];
  add = λ x m. x ∷ m;
  remove = λ x m. keep (λ y. not (y == x)) m;
  or_inplace = λ m n. m ++ n;
  contains = holds;
  serialize = λ m. m;
  deserialize = λ m. m;
}

holds-keep :
    (x y : ℕ) (m : List ℕ) → holds y (keep (λ z. not (z == x)) m) ≡ (not (x == y) && holds y m)
unfolding keep
holds-keep x y [] = ground arith
holds-keep x y (z ∷ m) = ground (arith, holds-keep x y m)

holds-append : (x : ℕ) (m n : List ℕ) → holds x (m ++ n) ≡ (holds x m || holds x n)
holds-append x [] n = refl
holds-append x (z ∷ m) n = ground (arith, holds-append x m n)

pub list_roaring_laws : RoaringLaws list_roaring
list_roaring_laws = record {
  contains-create = λ x. refl;
  contains-add = λ x y m. refl;
  contains-remove = holds-keep;
  contains-or = holds-append;
}
