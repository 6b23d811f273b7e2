-- ===== src/Database/Answers.antt =====
-- What a search with a filter answers, in terms of the stored documents.
use learn_vector_db.Prelude.{
  ◌<◌, ◌^◌, true, Option, none, some, List, [], ◌∷◌, Bytes, ◌≡◌, sym, ap, ◌∙◌, arith, ◌⊎◌, inl, inr,
}
use learn_vector_db.Result.{Result, ok, throw}
use learn_vector_db.Json.{ℤ, pos, negsuc, int_eq_iff}
use learn_vector_db.FilterIndex.{RoaringLaws}
use learn_vector_db.FilterIndex.Members.{same_value}
use learn_vector_db.ScalarStorage.{RocksLaws}
use learn_vector_db.VectorIndex.{Found, to_uint32}
use learn_vector_db.IndexFactory.{Libraries}
use learn_vector_db.Database.{Database, query}
use learn_vector_db.Database.Search
use learn_vector_db.Database.Selected.{All, FaissLaws, HnswLaws}
use learn_vector_db.Database.Filtered.{AsksFor, Held, HeldAfter, search_filtered}
use learn_vector_db.Database.Exact.{Exact, int_field}
use learn_vector_db.Database.History.{Later, Later-Exact}

same_value-some :
    (stored : Option ℤ) (value : ℤ) → same_value stored value ≡ true → stored ≡ some value
same_value-some none value h = ground (arith, h)
same_value-some (some v) value h = ap some ((int_eq_iff v value).0 h)

to_uint32_small : (id : ℤ) → to_uint32 id < 2 ^ 32
unfolding to_uint32
to_uint32_small (pos n) = omega arith
to_uint32_small (negsuc n) = omega arith

module _ (l : Libraries) where
  open l use {json, faiss, roaring, rocks}

  module _ (request : json.Value) (field : Bytes) (value : ℤ) (asks : AsksFor l request field value)
      (db : Database l) where
    -- The document that is stored under the identifier has the value in the field, or the identifier
    -- is -1.
    abbrev pub Says : ℤ → Type 0
    Says id = (id ≡ negsuc 0) ⊎ (int_field l (query l (to_uint32 id) db) field ≡ some value)

    abbrev pub SaysAfter : Database l × Result (Found json.Float) → Type 0
    SaysAfter (db', throw e) = Unit
    SaysAfter (db', ok (ids, distances)) = All Says ids

    module _ (exact : Exact l field db) where
      Held-Says : (id : ℤ) → Held l request field value asks db id → Says id
      Held-Says id (inl none_there) = inl none_there
      Held-Says id (inr held) = inr (
          same_value-some _ value
            (sym (exact.says value (to_uint32 id) (to_uint32_small id)) ∙ held))

      All-Says : (ids : List ℤ) → All (Held l request field value asks db) ids → All Says ids
      All-Says [] h = tt
      All-Says (id ∷ ids) h = (Held-Says id h.0, All-Says ids h.1)

      HeldAfter-SaysAfter :
          (x : Database l × Result (Found json.Float))
          → HeldAfter l request field value asks db x
          → SaysAfter x
      HeldAfter-SaysAfter (db', throw e) h = tt
      HeldAfter-SaysAfter (db', ok (ids, distances)) h = All-Says ids h

  -- Where the filter index was exact for a field, and any sequence of methods came after, a search
  -- whose filter asks for a value of that field answers only identifiers whose stored document has the
  -- value there, compared by their low 32 bits; a place of the answer without an identifier is -1.
  -- Every `upsert` of the sequence returned, was taken by the database and did not drop the field, and
  -- FAISS and hnswlib keep to a selector.
  pub search_later :
      (request : json.Value) (field : Bytes) (value : ℤ) (asks : AsksFor l request field value)
      (start db : Database l)
      → RocksLaws rocks
      → RoaringLaws roaring
      → FaissLaws faiss
      → HnswLaws l.hnsw
      → Exact l field start
      → Later l field start db
      → SaysAfter request field value asks db (Search.search l request db)
  search_later request field value asks start db rocks_laws laws fl hl exact later =
      HeldAfter-SaysAfter request field value asks db
        (Later-Exact l rocks_laws laws field exact later) (Search.search l request db)
        (search_filtered l request field value asks db laws fl hl)
