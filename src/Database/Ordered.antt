-- ===== src/Database/Ordered.antt =====
-- The filter index of a database stays as `std::map` keeps its maps.
use learn_vector_db.Prelude.{ℕ, Option, none, some, List, [], ◌∷◌, Bytes, arith}
use learn_vector_db.Result.{Result, ok, throw, aborted}
use learn_vector_db.Exec.Keeps.{
  Keeps, Keeps-pure, Keeps-lift, Keeps-gets, Keeps-need, Keeps-if, Keeps-bind,
}
use learn_vector_db.Json.{ℤ, c_str}
use learn_vector_db.FilterIndex.{Index as FilterMap, update_int_field_filter}
use learn_vector_db.FilterIndex.Ordered.{WellFormed, update-WellFormed}
use learn_vector_db.VectorIndex.{HnswIndex}
use learn_vector_db.IndexFactory.{Libraries, IndexType, flat, hnsw, filter, unknown}
use learn_vector_db.Database.{
  Database, on_flat, on_hnsw, on_filter, remove_old, insert_new, update_filter, update_filters,
  forget, upsert, take_snapshot,
}
use learn_vector_db.Database.Searched.{search-Keeps}
use learn_vector_db.Database.History.{
  Later, unchanged, upserted, inserted, searched, logged, snapped,
}

module _ (l : Libraries) where
  open l use {json, faiss, roaring}

  abbrev pub IndexOrdered : Option (FilterMap roaring) → Type 0
  IndexOrdered none = Unit
  IndexOrdered (some m) = WellFormed roaring m

  abbrev pub Ordered : Database l → Type 0
  Ordered db = IndexOrdered db.factory.filter_index

  on_flat-Ordered : (g : faiss.Index → Result faiss.Index) → Keeps Ordered (on_flat l g)
  unfolding on_flat
  on_flat-Ordered g = record { hold = λ db h. ground (arith, h) }

  on_hnsw-Ordered :
      (g : HnswIndex roaring l.hnsw → Result (HnswIndex roaring l.hnsw))
      → Keeps Ordered (on_hnsw l g)
  unfolding on_hnsw
  on_hnsw-Ordered g = record { hold = λ db h. ground (arith, h) }

  on_filter-Ordered :
      (field : Bytes) (old : Option ℤ) (new : ℤ) (id : ℕ)
      → Keeps Ordered (on_filter l (update_int_field_filter roaring field old new id))
  unfolding on_filter
  on_filter-Ordered field old new id = record {
    hold = λ db h.
        let update = update_int_field_filter roaring field old new id in
        let after : Option (FilterMap roaring) → Database l × Result (Unit {0}) = λ i. elim i [
          | none ↦ (db, throw aborted)
          | some index ↦ (
            record db { factory = record db.factory { filter_index = some (update index) } },
            ok tt,
          )
        ] in
        (elim db.factory.filter_index as (λ i. IndexOrdered i → Ordered (after i).0) [
          | none ↦ λ k. h
          | some index ↦ λ k. update-WellFormed roaring field old new id index k
        ])
          h;
  }

  remove_old-Ordered : (type : IndexType) (id : ℕ) → Keeps Ordered (remove_old l type id)
  unfolding remove_old
  remove_old-Ordered flat id = on_flat-Ordered _
  remove_old-Ordered hnsw id = Keeps-pure tt
  remove_old-Ordered filter id = Keeps-pure tt
  remove_old-Ordered unknown id = Keeps-pure tt

  insert_new-Ordered :
      (type : IndexType) (vector : List json.Float) (id : ℕ)
      → Keeps Ordered (insert_new l type vector id)
  unfolding insert_new
  insert_new-Ordered flat vector id = on_flat-Ordered _
  insert_new-Ordered hnsw vector id = on_hnsw-Ordered _
  insert_new-Ordered filter vector id = Keeps-pure tt
  insert_new-Ordered unknown vector id = Keeps-pure tt

  update_filters-Ordered :
      (existing : json.Value) (id : ℕ) (members : List (Bytes × json.Value))
      → Keeps Ordered (update_filters l existing id members)
  unfolding update_filters update_filter
  update_filters-Ordered existing id [] = Keeps-pure tt
  update_filters-Ordered existing id ((name, value) ∷ rest) =
      Keeps-bind _ _
        (Keeps-if _ _ _
          (Keeps-bind _ _ (Keeps-need _) (λ new.
            Keeps-bind _ _ (Keeps-lift _) (λ old. on_filter-Ordered (c_str name) old new id)))
          (Keeps-pure tt))
        (λ _. update_filters-Ordered existing id rest)

  upsert-Ordered :
      (id : ℕ) (document : json.Value) (type : IndexType)
      → Keeps Ordered (upsert l id document type)
  unfolding upsert forget learn_vector_db.Exec.modify
  upsert-Ordered id document type = Keeps-bind _ _ (Keeps-gets _) (λ existing.
      Keeps-bind _ _
        (Keeps-if _ _ _ (Keeps-bind _ _ (Keeps-lift _) (λ _. remove_old-Ordered type id))
          (Keeps-pure tt))
        (λ _. Keeps-bind _ _ (Keeps-lift _) (λ vector.
          Keeps-bind _ _ (insert_new-Ordered type vector id) (λ _.
            Keeps-bind _ _ (update_filters-Ordered existing id (json.members document))
              (λ _. record { hold = λ db h. h })))))

  -- The same along a sequence of the methods.
  pub Later-Ordered :
      {field : Bytes} {db db' : Database l} → Ordered db → Later l field db db' → Ordered db'
  unfolding take_snapshot
  Later-Ordered h unchanged = h
  Later-Ordered h (upserted {now} id document type before stores) =
      (upsert-Ordered id document type).hold now (Later-Ordered h before)
  Later-Ordered h (inserted {now} type vector id before) =
      (insert_new-Ordered type vector id).hold now (Later-Ordered h before)
  Later-Ordered h (searched {now} request before) =
      (search-Keeps l Ordered (λ db index k. k) request).hold now (Later-Ordered h before)
  Later-Ordered h (logged log before) = Later-Ordered h before
  Later-Ordered h (snapped writable before) = Later-Ordered h before
