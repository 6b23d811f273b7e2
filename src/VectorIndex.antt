-- ===== src/VectorIndex.antt =====
-- `FaissIndex` of faiss_index.h and faiss_index.cpp, and `HNSWLibIndex` of hnswlib_index.h and
-- hnswlib_index.cpp, over the indexes of FAISS and hnswlib, which are parameters. What is logged is not
-- modelled, nor is memory that is freed.
use learn_vector_db.Prelude.{
  ℕ, ◌-◌, ◌/◌, ◌%◌, ◌^◌, Bool, true, false, not, ◌&&◌, Option, none, some, List, [], ◌∷◌, Bytes,
  bytes_key, length, ◌==◌, ltb, if◌then◌else◌,
}
use learn_vector_db.Result.{Result, ok, throw, runtime_error, length_error}
use learn_vector_db.StdMap.{StdMap, find, insert}
use learn_vector_db.Json.{ℤ, pos, negsuc}
use learn_vector_db.FilterIndex.{Roaring}

pub data MetricType : Type 0 where
  l2 ip : MetricType

-- The files that the indexes are saved to.
abbrev pub Files : Type 0
Files = StdMap Bytes Bytes

-- `static_cast<long>` of a `uint64_t`.
unfoldable pub to_long : ℕ → ℤ
to_long n = if ltb n (2 ^ 63) then pos n else negsuc (2 ^ 64 - 1 - n)

-- `static_cast<uint32_t>` of a signed integer.
unfoldable pub to_uint32 : ℤ → ℕ
to_uint32 (pos n) = n % 2 ^ 32
to_uint32 (negsuc n) = 2 ^ 32 - 1 - n % 2 ^ 32

pub record Faiss (Float : Type 0) : Type 1 where
  pub Index : Type 0
  -- `new IndexIDMap(new IndexFlat(dim, metric))`
  pub flat_index : ℕ → MetricType → Index
  pub is_id_map : Index → Bool
  pub dim : Index → ℕ
  pub add_with_ids : List Float → ℤ → Index → Index
  pub remove_ids : List ℤ → Index → Index
  -- the number of queries, the queries, k, and the selector of the search parameters
  pub search : ℕ → List Float → ℤ → Option (ℤ → Bool) → Index → Result (List ℤ × List Float)
  pub write_index : Index → Bytes
  pub read_index : Bytes → Index

pub record Hnsw (Float : Type 0) : Type 1 where
  pub Index : Type 0
  pub Space : Type 0
  pub l2_space : ℕ → Space
  pub inner_product_space : ℕ → Space
  -- the space, the number of elements, M and ef_construction
  pub hierarchical : Space → ℕ → ℕ → ℕ → Index
  -- `none`: it throws, as where the index has its number of elements already
  pub add_point : List Float → ℕ → Index → Option Index
  pub set_ef : ℕ → Index → Index
  -- the queue of results, from its top on
  pub search_knn : List Float → ℤ → Option (ℕ → Bool) → Index → List (Float × ℕ)
  pub save_index : Index → Bytes
  pub load_index : Bytes → Space → ℕ → Index → Index

abbrev pub Found : Type 0 → Type 0
Found Float = List ℤ × List Float

module _ {Float : Type 0} (b : Roaring) (f : Faiss Float) where
  unfoldable pub flat_insert : List Float → ℕ → f.Index → f.Index
  flat_insert data' label index = f.add_with_ids data' (to_long label) index

  unfoldable pub flat_remove : List ℤ → f.Index → Result f.Index
  flat_remove ids index =
      if f.is_id_map index then ok (f.remove_ids ids index) else throw runtime_error

  -- `RoaringBitmapIDSelector::is_member`.
  unfoldable pub flat_selector : b.Bitmap → ℤ → Bool
  flat_selector bitmap id = b.contains (to_uint32 id) bitmap

  abbrev pub is_negative : ℤ → Bool
  is_negative (pos n) = false
  is_negative (negsuc n) = true

  -- The result vectors have `num_queries * k` places, which no vector has where k is negative.
  unfoldable pub flat_search : List Float → ℤ → Option b.Bitmap → f.Index → Result (Found Float)
  flat_search query k bitmap index =
      let num_queries = length query / f.dim index in
      if is_negative k && not (num_queries == 0)
      then throw length_error
      else f.search num_queries query k
          (elim bitmap [ none ↦ none | some m ↦ some (flat_selector m) ]) index

  unfoldable pub flat_save : Bytes → f.Index → Files → Files
  flat_save file_path index files = insert file_path (f.write_index index) files

  -- A file that is not there leaves the index as it is.
  unfoldable pub flat_load : Bytes → Files → f.Index → f.Index
  flat_load file_path files index = elim (find file_path files) [
    | none ↦ index
    | some file ↦ f.read_index file
  ]

module _ {Float : Type 0} (b : Roaring) (h : Hnsw Float) where
  pub record HnswIndex : Type 0 where
    pub index : h.Index
    pub space : h.Space
    pub max_elements : ℕ

  unfoldable pub new_hnsw : ℕ → ℕ → MetricType → ℕ → ℕ → HnswIndex
  new_hnsw dim num_data metric m ef_construction =
      let space : h.Space = elim metric [ l2 ↦ h.l2_space dim | ip ↦ h.inner_product_space dim ] in
      record {
        index = h.hierarchical space num_data m ef_construction;
        space = space;
        max_elements = num_data;
      }

  unfoldable pub hnsw_insert : List Float → ℕ → HnswIndex → Result HnswIndex
  hnsw_insert data' label i = elim (h.add_point data' label i.index) [
    | none ↦ throw runtime_error
    | some index ↦ ok (record i { index = index })
  ]

  -- `RoaringBitmapIDFilter`.
  unfoldable pub hnsw_filter : b.Bitmap → ℕ → Bool
  hnsw_filter bitmap label = b.contains (label % 2 ^ 32) bitmap

  -- The loop that empties the queue.
  unfoldable pub drain : List (Float × ℕ) → Found Float
  drain [] = ([], [])
  drain ((distance, label) ∷ rest) =
      let (indices, distances) = drain rest in (to_long label ∷ indices, distance ∷ distances)

  unfoldable pub hnsw_search :
      List Float → ℤ → Option b.Bitmap → ℕ → HnswIndex → HnswIndex × Found Float
  hnsw_search query k bitmap ef_search i =
      let index = h.set_ef ef_search i.index in
      (
        record i { index = index },
        drain (
            h.search_knn query k (elim bitmap [ none ↦ none | some m ↦ some (hnsw_filter m) ])
              index),
      )

  unfoldable pub hnsw_save : Bytes → HnswIndex → Files → Files
  hnsw_save file_path i files = insert file_path (h.save_index i.index) files

  unfoldable pub hnsw_load : Bytes → Files → HnswIndex → HnswIndex
  hnsw_load file_path files i = elim (find file_path files) [
    | none ↦ i
    | some file ↦ record i { index = h.load_index file i.space i.max_elements i.index }
  ]
