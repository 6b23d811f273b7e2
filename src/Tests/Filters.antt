-- ===== src/Tests/Filters.antt =====
-- The theorem on a search with a filter, at the database with one document.
use learn_vector_db.Prelude.{
  ℕ, Bool, true, &&-eq-true, ltb, ltb→lt, ◌^◌, some, List, [], ◌∷◌, keep, map, bytes_eq, codes, ◌≡◌,
  refl, Bool-cases, inl, inr, ◌⊎◌,
}
use mathlib.Core.Path.{subst}
use learn_vector_db.Result.{Result, ok, throw}
use learn_vector_db.Json.{ℤ, pos, negsuc, c_str}
use learn_vector_db.IndexFactory.{flat}
use learn_vector_db.Database.{upsert}
use learn_vector_db.Database.Search
use learn_vector_db.Database.Selected.{All, FaissLaws, HnswLaws}
use learn_vector_db.Database.Filtered.{AsksFor, HeldAfter, search_filtered}
use learn_vector_db.Tests.Bitmaps.{list_roaring_laws}
use learn_vector_db.Tests.Documents.{
  Value, number, text, sequence, structure, values_of, members_of,
}
use learn_vector_db.Tests.Cluster.{small_libraries, list_faiss, list_hnsw, selects, takes}
use learn_vector_db.Tests.Fields.{aged, database}

All-keep :
    {A : Type 0} (P : A → Type 0) (f : A → Bool) (xs : List A)
    → ((x : A) → f x ≡ true → P x)
    → All P (keep f xs)
unfolding keep
All-keep P f [] h = tt
All-keep P f (x ∷ xs) h = elim (Bool-cases (f x)) [
  | inl kept ↦ rw kept (h x kept, All-keep P f xs h)
  | inr dropped ↦ rw dropped (All-keep P f xs h)
]

abbrev AllFound : (ℤ → Type 0) → Result (List ℤ × List ℕ) → Type 0
AllFound P (ok (ids, distances)) = All P ids
AllFound P (throw e) = Unit

pub list_faiss_laws : FaissLaws list_faiss
list_faiss_laws = record {
  search_selected = λ n query k selector index ids distances h.
      subst (AllFound (λ id. (id ≡ negsuc 0) ⊎ (selector id ≡ true))) h (
        All-keep (λ id. (id ≡ negsuc 0) ⊎ (selector id ≡ true)) (selects (some selector))
          (map (λ e. e.0) index) (λ id k. inr k));
}

pub list_hnsw_laws : HnswLaws list_hnsw
list_hnsw_laws = record {
  search_taken = λ query k take_label index.
      All-keep _ (takes (some take_label)) (map (λ e. (0, e.1)) index) (λ e h.
        let (taken, small) = &&-eq-true (take_label e.1) (ltb e.1 (2 ^ 64)) h in
        (taken, ltb→lt e.1 (2 ^ 64) small));
}

-- A search in the FLAT index for one vector with the value in the field `age`.
abbrev pub asking : ℤ → Value
asking value = structure (
    members_of (
      (codes "vectors", sequence (values_of (number (pos 7) ∷ [])))
      ∷ (codes "k", number (pos 1))
      ∷ (codes "indexType", text (codes "FLAT"))
      ∷ (
        codes "filter",
        structure (
            members_of (
              (codes "fieldName", text (codes "age"))
              ∷ (codes "op", text (codes "="))
              ∷ (codes "value", number value)
              ∷ [])),
      )
      ∷ []))

abbrev request : Value
request = asking (pos 30)

request_asks : AsksFor small_libraries request (codes "age") (pos 30)
unfolding bytes_eq c_str Search.operation_of
request_asks = record {
  filter_value = _;
  name_value = _;
  op_value = _;
  value_value = _;
  name = _;
  op = _;
  has_filter = refl;
  is_object = refl;
  has_name = refl;
  name_text = refl;
  same_name = refl;
  has_op = refl;
  op_text = refl;
  is_equal = refl;
  has_value = refl;
  value_number = refl;
}

search_filtered_example :
    HeldAfter small_libraries request
      (codes "age")
      (pos 30)
      request_asks
      (upsert small_libraries 1 aged flat database).0
      (Search.search small_libraries request (upsert small_libraries 1 aged flat database).0)
search_filtered_example =
    search_filtered small_libraries request (codes "age") (pos 30) request_asks
      (upsert small_libraries 1 aged flat database).0 list_roaring_laws list_faiss_laws
      list_hnsw_laws
