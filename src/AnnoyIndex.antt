-- ===== src/AnnoyIndex.antt =====
-- `AnnoyIndex` of annoy_index.h and annoy_index.cpp, over an index of Annoy, which is a parameter.
-- The index of the metric in use is the one that is kept. Sizes are cast to `int`; a `k` of 2 ^ 29 or
-- more, for which `k * 4` overflows, is taken as it is.
pub mod Answer
use learn_vector_db.Prelude.{
  ℕ, zero, suc, ◌+◌, ◌-◌, ◌*◌, ◌%◌, ◌^◌, Bool, true, false, not, ◌&&◌, ◌||◌, Option, none, some,
  List, [], ◌∷◌, ◌++◌, Bytes, bytes_key, keep, length, ◌==◌, if◌then◌else◌, ◌≡◌,
}
use learn_vector_db.Result.{Result, ok, throw, runtime_error, invalid_argument}
use learn_vector_db.Exec.{Exec, pure, lift, gets, modify, continue, ◌>>=◌, ◌>>◌}
use learn_vector_db.StdMap.{find, insert}
use learn_vector_db.Json.{ℤ, pos, negsuc, int_eq}
use learn_vector_db.FilterIndex.{Roaring}
use learn_vector_db.VectorIndex.{MetricType, Files, Found, to_long, to_uint32}

-- An index of Annoy; the Boolean results are those of its methods.
pub record Annoy (Float : Type 0) : Type 1 where
  pub Index : Type 0
  pub create : ℕ → MetricType → Index
  pub build : ℕ → Index → Index × Bool
  pub add_item : ℤ → List Float → Index → Index × Bool
  -- the query, the number of results and `search_k`; the identifiers with their distances
  pub get_nns_by_vector : List Float → ℕ → ℤ → Index → List (ℤ × Float)
  -- the file that is written
  pub save : Index → Option Bytes
  pub load : Bytes → Index → Index × Bool
  pub infinity : Float

module _ {Float : Type 0} (b : Roaring) (a : Annoy Float) where
  pub record AnnoyIndex : Type 0 where
    pub dim : ℕ
    pub metric : MetricType
    pub n_trees : ℕ
    pub need_rebuild : Bool
    pub deleted_ids : List ℤ
    pub index : a.Index

  -- The constructor.
  unfoldable pub new_annoy : ℕ → MetricType → ℕ → Result AnnoyIndex
  new_annoy dim metric n_trees =
      if dim == 0
      then throw invalid_argument
      else ok (record {
        dim = dim;
        metric = metric;
        n_trees = n_trees;
        need_rebuild = false;
        deleted_ids = [];
        index = a.create dim metric;
      })

  unfoldable pub is_deleted : ℤ → List ℤ → Bool
  is_deleted id [] = false
  is_deleted id (d ∷ ds) = int_eq d id || is_deleted id ds

  unfoldable pub rebuild_if_needed : Exec AnnoyIndex Unit
  rebuild_if_needed i =
      let (index, built) = a.build i.n_trees i.index in
      if not i.need_rebuild
      then (i, ok tt)
      else if built
      then (record i { index = index; need_rebuild = false }, ok tt)
      else (record i { index = index }, throw runtime_error)

  unfoldable pub annoy_insert : List Float → ℕ → Exec AnnoyIndex Unit
  annoy_insert data' label i =
      let id = to_long label in
      let (index, added) = a.add_item id data' i.index in
      if not (length data' % 2 ^ 32 == i.dim)
      then (i, throw invalid_argument)
      else if added
      then (
        record i {
          index = index;
          deleted_ids = keep (λ d. not (int_eq d id)) i.deleted_ids;
          need_rebuild = true;
        },
        ok tt,
      )
      else (record i { index = index }, throw runtime_error)

  unfoldable pub annoy_remove : List ℤ → AnnoyIndex → AnnoyIndex
  annoy_remove ids i = record i { deleted_ids = ids ++ i.deleted_ids }

  -- The tests of the loop of `search_vectors`.
  unfoldable pub is_wanted : Option b.Bitmap → List ℤ → ℤ → Bool
  is_wanted bitmap deleted id =
      not (is_deleted id deleted)
      && elim bitmap [ none ↦ true | some m ↦ b.contains (to_uint32 id) m ]

  -- The loop, with the places that are left.
  unfoldable pub pick : (ℤ → Bool) → ℕ → List (ℤ × Float) → Found Float
  pick wanted zero found = ([], [])
  pick wanted (suc left) [] = ([], [])
  pick wanted (suc left) ((id, distance) ∷ rest) =
      let (ids, distances) = pick wanted left rest in
      let skipped = pick wanted (suc left) rest in
      if wanted id then (id ∷ ids, distance ∷ distances) else skipped

  -- The last loop, with the number of its rounds.
  unfoldable pub pad : ℕ → Found Float → Found Float
  pad zero found = found
  pad (suc n) (ids, distances) = pad n (ids ++ negsuc 0 ∷ [], distances ++ a.infinity ∷ [])

  unfoldable pub search_built : List Float → ℕ → Option b.Bitmap → ℤ → AnnoyIndex → Found Float
  search_built query k bitmap search_k i =
      let picked : Found Float =
        pick (is_wanted bitmap i.deleted_ids) k
          (a.get_nns_by_vector query (k * 4) search_k i.index) in
      pad (k - length picked.0) picked

  unfoldable pub annoy_search : List Float → ℤ → Option b.Bitmap → ℤ → Exec AnnoyIndex (Found Float)
  annoy_search query (negsuc n) bitmap search_k i = (i, ok ([], []))
  annoy_search query (pos zero) bitmap search_k i = (i, ok ([], []))
  annoy_search query (pos (suc n)) bitmap search_k i =
      if not (length query % 2 ^ 32 == i.dim)
      then (i, throw invalid_argument)
      else (rebuild_if_needed >>= λ _. gets (search_built query (suc n) bitmap search_k)) i

  unfoldable pub annoy_save : Bytes → Files → Exec AnnoyIndex Files
  annoy_save file_path files = do
    rebuild_if_needed
    file ← gets (λ (i : AnnoyIndex). a.save i.index)
    lift (elim file [ none ↦ throw runtime_error | some text ↦ ok (insert file_path text files) ])

  -- A file that is not there leaves the index as it is.
  unfoldable pub annoy_load : Bytes → Files → Exec AnnoyIndex Unit
  annoy_load file_path files i = elim (find file_path files) [
    | none ↦ (i, ok tt)
    | some file ↦
        let (index, loaded) = a.load file (a.create i.dim i.metric) in
        if loaded
        then (record i { index = index; deleted_ids = []; need_rebuild = false }, ok tt)
        else (record i { index = index }, throw runtime_error)
  ]
