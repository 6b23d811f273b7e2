-- ===== src/Database/Upsert.antt =====
-- What `upsert` changes and what it leaves alone.
use learn_vector_db.Prelude.{ℕ, List, [], ◌∷◌, Bytes, ◌≡◌, ap, arith}
use learn_vector_db.Result.{Result}
use learn_vector_db.Exec.Keeps.{
  Keeps, Keeps-pure, Keeps-lift, Keeps-gets, Keeps-need, Keeps-if, Keeps-bind, Ends, Ends-bind,
  Ends-modify,
}
use learn_vector_db.Json.{c_str}
use learn_vector_db.Wal.{Persistence}
use learn_vector_db.FilterIndex.{Index as FilterMap}
use learn_vector_db.ScalarStorage.{insert_scalar}
use learn_vector_db.VectorIndex.{HnswIndex}
use learn_vector_db.IndexFactory.{Libraries, IndexType, flat, hnsw, filter, unknown}
use learn_vector_db.Database.{
  Database, on_flat, on_hnsw, on_filter, remove_old, insert_new, update_filter, update_filters,
  forget, upsert,
}

module _ (l : Libraries) where
  open l use {json, faiss, roaring, rocks}

  -- Everything but the indexes.
  pub record Same (scalars : rocks.Db) (persistence : Persistence) (db : Database l) : Type 0 where
    pub same_scalars : db.scalars ≡ scalars
    pub same_persistence : db.persistence ≡ persistence

  module _ {s : rocks.Db} {p : Persistence} where
    on_flat-Keeps : (g : faiss.Index → Result faiss.Index) → Keeps (Same s p) (on_flat l g)
    unfolding on_flat
    on_flat-Keeps g = record {
      hold = λ db h. record { same_scalars = ground arith; same_persistence = ground arith };
    }

    on_hnsw-Keeps :
        (g : HnswIndex roaring l.hnsw → Result (HnswIndex roaring l.hnsw))
        → Keeps (Same s p) (on_hnsw l g)
    unfolding on_hnsw
    on_hnsw-Keeps g = record {
      hold = λ db h. record { same_scalars = ground arith; same_persistence = ground arith };
    }

    on_filter-Keeps : (g : FilterMap roaring → FilterMap roaring) → Keeps (Same s p) (on_filter l g)
    unfolding on_filter
    on_filter-Keeps g = record {
      hold = λ db h. record { same_scalars = ground arith; same_persistence = ground arith };
    }

  ruleset same_rules = (
    Keeps-pure, Keeps-lift, Keeps-gets, Keeps-need, Keeps-if, Keeps-bind, on_flat-Keeps,
    on_hnsw-Keeps, on_filter-Keeps,
  )

  module _ {s : rocks.Db} {p : Persistence} where
    remove_old-Keeps : (type : IndexType) (id : ℕ) → Keeps (Same s p) (remove_old l type id)
    unfolding remove_old
    remove_old-Keeps flat id = search same_rules
    remove_old-Keeps hnsw id = search same_rules
    remove_old-Keeps filter id = search same_rules
    remove_old-Keeps unknown id = search same_rules

    pub insert_new-Keeps :
        (type : IndexType) (v : List json.Float) (id : ℕ)
        → Keeps (Same s p) (insert_new l type v id)
    unfolding insert_new
    insert_new-Keeps flat v id = search same_rules
    insert_new-Keeps hnsw v id = search same_rules
    insert_new-Keeps filter v id = search same_rules
    insert_new-Keeps unknown v id = search same_rules

    update_filter-Keeps :
        (existing : json.Value) (id : ℕ) (field : Bytes) (value : json.Value)
        → Keeps (Same s p) (update_filter l existing id field value)
    unfolding update_filter
    update_filter-Keeps existing id field value = search same_rules

    update_filters-Keeps :
        (existing : json.Value) (id : ℕ) (members : List (Bytes × json.Value))
        → Keeps (Same s p) (update_filters l existing id members)
    unfolding update_filters
    update_filters-Keeps existing id [] = search same_rules
    update_filters-Keeps existing id ((name, value) ∷ rest) =
        Keeps-bind _ _ (update_filter-Keeps existing id (c_str name) value)
          (λ _. update_filters-Keeps existing id rest)

    forget-Keeps :
        (existing : json.Value) (type : IndexType) (id : ℕ)
        → Keeps (Same s p) (forget l existing type id)
    unfolding forget
    forget-Keeps existing type id = search (same_rules, remove_old-Keeps)

module _ (l : Libraries) (id : ℕ) (document : l.json.Value) (type : IndexType) where
  open l use {json, faiss, roaring, rocks}

  -- The document is stored, or everything but the indexes is as before.
  pub upsert-Ends :
      (s : rocks.Db) (p : Persistence)
      → Ends
          (Same l s p)
          (Same l (insert_scalar rocks json id document s) p)
          (upsert l id document type)
  unfolding upsert
  upsert-Ends s p = Ends-bind _ _ (Keeps-gets _) λ existing.
      Ends-bind _ _ (forget-Keeps l existing type id) λ _. Ends-bind _ _ (Keeps-lift _) λ vector.
        Ends-bind _ _ (insert_new-Keeps l type vector id) λ _.
          Ends-bind _ _ (update_filters-Keeps l existing id (json.members document)) λ _.
            Ends-modify _ λ db h. record {
              same_scalars = ap (insert_scalar rocks json id document) h.same_scalars;
              same_persistence = h.same_persistence;
            }
