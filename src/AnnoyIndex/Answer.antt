-- ===== src/AnnoyIndex/Answer.antt =====
-- What `AnnoyIndex::search_vectors` answers.
use learn_vector_db.Prelude.{ℕ, Bool, true, ◌&&◌, ◌||◌, List, [], ◌∷◌, length, ◌≡◌}
use learn_vector_db.Json.{ℤ, negsuc, int_eq}
use learn_vector_db.FilterIndex.{Roaring}
use learn_vector_db.VectorIndex.{Found}
use learn_vector_db.AnnoyIndex.{Annoy, AnnoyIndex}

-- Every identifier is -1 or passes the test.
unfoldable pub all_wanted : (ℤ → Bool) → List ℤ → Bool
all_wanted wanted [] = true
all_wanted wanted (id ∷ ids) = (int_eq id (negsuc 0) || wanted id) && all_wanted wanted ids

module _ {Float : Type 0} (b : Roaring) (a : Annoy Float) where
  -- `k` identifiers and as many distances, and no identifier that was deleted or filtered out.
  pub record IsAnswer (wanted : ℤ → Bool) (k : ℕ) (found : Found Float) : Type 0 where
    pub ids_length : length found.0 ≡ k
    pub distances_length : length found.1 ≡ k
    pub allowed : all_wanted wanted found.0 ≡ true
