-- ===== src/Database/Selected.antt =====
-- What a search with a bitmap finds, for a vector index that keeps to its selector.
use learn_vector_db.Prelude.{
  ℕ, ◌%◌, ◌^◌, ◌<◌, Bool, true, false, not, ◌&&◌, ◌/◌, ◌==◌, some, List, [], ◌∷◌, if◌then◌else◌,
  length, ◌≡◌, refl, ap, ◌∙◌, arith, Option-cases, ◌⊎◌, inl, inr,
}
use learn_vector_db.Result.{Result, ok, throw, length_error}
use learn_vector_db.Json.{ℤ, negsuc}
use learn_vector_db.VectorIndex.{
  Faiss, Hnsw, Found, to_long, to_uint32, is_negative, flat_selector, flat_search, hnsw_filter,
  hnsw_search, drain,
}
use learn_vector_db.IndexFactory.{Libraries, IndexType, flat, hnsw, filter, unknown}
use learn_vector_db.Database.{Database}
use learn_vector_db.Database.Search.{search_index}

abbrev pub All {ℓ} : {A : Type ℓ} → (A → Type 0) → List A → Type 0
All P [] = Unit
All P (x ∷ xs) = P x × All P xs

-- A search with a selector gives identifiers that it selects, and -1 for the places without one.
pub record FaissLaws {Float : Type 0} (f : Faiss Float) : Type 0 where
  pub search_selected :
      (n : ℕ) (query : List Float) (k : ℤ) (selector : ℤ → Bool) (index : f.Index) (ids : List ℤ)
      (distances : List Float)
      → f.search n query k (some selector) index ≡ ok (ids, distances)
      → All (λ id. (id ≡ negsuc 0) ⊎ (selector id ≡ true)) ids

-- A search with a filter gives labels that it takes; a label has 64 bits.
pub record HnswLaws {Float : Type 0} (h : Hnsw Float) : Type 0 where
  pub search_taken :
      (query : List Float) (k : ℤ) (take_label : ℕ → Bool) (index : h.Index)
      → All
          (λ (e : Float × ℕ). (take_label e.1 ≡ true) × (e.1 < 2 ^ 64))
          (h.search_knn query k (some take_label) index)

to_uint32-to_long : (n : ℕ) → n < 2 ^ 64 → to_uint32 (to_long n) ≡ n % 2 ^ 32
unfolding to_uint32 to_long
to_uint32-to_long n h = ground (arith, h)

module _ (l : Libraries) (bitmap : l.roaring.Bitmap) where
  open l use {json, faiss, roaring}

  -- The identifiers that the bitmap holds, and -1.
  abbrev pub Selected : ℤ → Type 0
  Selected id = (id ≡ negsuc 0) ⊎ (roaring.contains (to_uint32 id) bitmap ≡ true)

  abbrev pub SelectedAfter : Database l × Result (Found json.Float) → Type 0
  SelectedAfter (db, throw e) = Unit
  SelectedAfter (db, ok (ids, distances)) = All Selected ids

  drain-Selected :
      (es : List (json.Float × ℕ))
      → All
          (λ (e : json.Float × ℕ). (hnsw_filter roaring l.hnsw bitmap e.1 ≡ true) × (e.1 < 2 ^ 64))
          es
      → All Selected (drain roaring l.hnsw es).0
  unfolding drain hnsw_filter
  drain-Selected [] h = tt
  drain-Selected ((d, label) ∷ es) h = (
    inr (ap (λ n. roaring.contains n bitmap) (to_uint32-to_long label h.0.1) ∙ h.0.0),
    drain-Selected es h.1,
  )

  result-SelectedAfter :
      (db : Database l) (x : Result (Found json.Float))
      → ((ids : List ℤ) (distances : List json.Float) → x ≡ ok (ids, distances) → All Selected ids)
      → SelectedAfter (db, x)
  result-SelectedAfter db (throw e) h = tt
  result-SelectedAfter db (ok (ids, distances)) h = h ids distances refl

  SelectedAfter-if :
      (db : Database l) (b : Bool) (x : Result (Found json.Float))
      → SelectedAfter (db, x)
      → SelectedAfter (db, if b then throw length_error else x)
  SelectedAfter-if db true x h = tt
  SelectedAfter-if db false x h = h

  flat_search-Selected :
      FaissLaws faiss
      → (query : List json.Float) (k : ℤ) (index : faiss.Index) (db : Database l)
      → SelectedAfter (db, flat_search roaring faiss query k (some bitmap) index)
  unfolding flat_search flat_selector
  flat_search-Selected laws query k index db =
      let n = length query / faiss.dim index in
      SelectedAfter-if db (is_negative roaring faiss k && not (n == 0))
        (faiss.search n query k (some (flat_selector roaring faiss bitmap)) index)
        (result-SelectedAfter db
          (faiss.search n query k (some (flat_selector roaring faiss bitmap)) index)
          (λ ids distances found.
            laws.search_selected n query k (flat_selector roaring faiss bitmap) index ids distances
              found))

  -- The index types that a search knows.
  pub search_index-Selected :
      FaissLaws faiss
      → HnswLaws l.hnsw
      → (type : IndexType) (query : List json.Float) (k : ℤ) (db : Database l)
      → SelectedAfter (search_index l type query k (some bitmap) db)
  unfolding search_index hnsw_search
  search_index-Selected fl hl flat query k db = elim (Option-cases db.factory.flat_index) [
    | inl missing ↦ rw missing tt
    | inr (index, found) ↦ rw found (flat_search-Selected fl query k index db)
  ]
  search_index-Selected fl hl hnsw query k db = elim (Option-cases db.factory.hnsw_index) [
    | inl missing ↦ rw missing tt
    | inr (i, found) ↦ rw found (
        drain-Selected _
          (hl.search_taken query k (hnsw_filter roaring l.hnsw bitmap) (l.hnsw.set_ef 50 i.index)))
  ]
  search_index-Selected fl hl filter query k db = tt
  search_index-Selected fl hl unknown query k db = tt
