-- ===== src/Database/Searched.antt =====
-- What a search changes: a parameter of the HNSW index, and nothing else.
use learn_vector_db.Prelude.{Option, none, some, List, arith}
use learn_vector_db.Result.{Result, ok, throw, aborted}
use learn_vector_db.Exec.{◌>>=◌}
use learn_vector_db.Exec.Keeps.{Keeps, Keeps-lift, Keeps-need, Keeps-bind}
use learn_vector_db.Json.{ℤ}
use learn_vector_db.VectorIndex.{HnswIndex, Found, hnsw_search}
use learn_vector_db.IndexFactory.{Libraries, IndexType, flat, hnsw, filter, unknown}
use learn_vector_db.Database.{Database}
use learn_vector_db.Database.Search
use learn_vector_db.Database.Search.{filter_bitmap, search_index}

module _ (l : Libraries) (P : Database l → Type 0)
    (quiet : (db : Database l) (index : Option (HnswIndex l.roaring l.hnsw))
      → P db
      → P (record db { factory = record db.factory { hnsw_index = index } })) where
  open l use {json, roaring}

  search_index-Keeps :
      (type : IndexType) (query : List json.Float) (k : ℤ) (bitmap : Option roaring.Bitmap)
      → Keeps P (search_index l type query k bitmap)
  unfolding search_index
  search_index-Keeps flat query k bitmap = record { hold = λ db h. ground (arith, h) }
  search_index-Keeps hnsw query k bitmap = record {
    hold = λ db h.
        let found : Option (HnswIndex roaring l.hnsw) → Database l × Result (Found json.Float) =
          λ i. elim i [
            | none ↦ (db, throw aborted)
            | some index ↦
                let (index', found) = hnsw_search roaring l.hnsw query k bitmap 50 index in
                (record db { factory = record db.factory { hnsw_index = some index' } }, ok found)
          ] in
        elim db.factory.hnsw_index as (λ i. P (found i).0) [
          | none ↦ h
          | some index ↦ quiet db (some (hnsw_search roaring l.hnsw query k bitmap 50 index).0) h
        ];
  }
  search_index-Keeps filter query k bitmap = record { hold = λ db h. h }
  search_index-Keeps unknown query k bitmap = record { hold = λ db h. h }

  filter_bitmap-Keeps : (request : json.Value) → Keeps P (filter_bitmap l request)
  unfolding filter_bitmap ◌>>=◌
  filter_bitmap-Keeps request = record { hold = λ db h. ground (arith, h) }

  pub search-Keeps : (request : json.Value) → Keeps P (Search.search l request)
  unfolding Search.search
  search-Keeps request = Keeps-bind _ _ (Keeps-lift _) (λ vector.
      Keeps-bind _ _ (Keeps-need _) (λ k_value. Keeps-bind _ _ (Keeps-need _) (λ k.
        Keeps-bind _ _ (filter_bitmap-Keeps request)
          (λ bitmap. search_index-Keeps _ vector k bitmap))))
