-- ===== src/Tests/Annoys.antt =====
-- The theorem on the search of the Annoy wrapper, at an index of three vectors.
use learn_vector_db.Prelude.{ℕ, true, some, List, [], ◌∷◌, map}
use learn_vector_db.Json.{ℤ, pos}
use learn_vector_db.VectorIndex.{l2}
use learn_vector_db.AnnoyIndex.{Annoy, AnnoyIndex}
use learn_vector_db.Tests.Bitmaps.{list_roaring}

abbrev list_annoy : Annoy ℕ
list_annoy = record {
  Index = List (ℤ × List ℕ);
  create = λ dim metric. [];
  build = λ trees index. (index, true);
  add_item = λ id data' index. ((id, data') ∷ index, true);
  get_nns_by_vector = λ query k search_k index. map (λ e. (e.0, 0)) index;
  save = λ index. some [];
  load = λ file index. ([], true);
  infinity = 1000;
}

-- The second vector was deleted, and the third is not in the bitmap.
abbrev small_annoy : AnnoyIndex list_roaring list_annoy
small_annoy = record {
  dim = 1;
  metric = l2;
  n_trees = 10;
  need_rebuild = true;
  deleted_ids = pos 2 ∷ [];
  index = (pos 1, 5 ∷ []) ∷ (pos 2, 6 ∷ []) ∷ (pos 3, 7 ∷ []) ∷ [];
}
