-- ===== src/Database/Filtered.antt =====
-- What a search with a filter finds.
use mathlib.Core.Path.{subst}
use learn_vector_db.Prelude.{
  true, Option, none, some, List, [], ◌∷◌, Bytes, codes, ◌≡◌, refl, sym, arith, Option-cases, ◌⊎◌,
  inl, inr,
}
use learn_vector_db.Result.{Result, ok, throw, aborted}
use learn_vector_db.Exec.{Exec, lift, need, gets, pure, continue, ◌>>=◌}
use learn_vector_db.Json.{ℤ, pos, negsuc, c_str}
use learn_vector_db.FilterIndex.{
  Index as FilterMap, RoaringLaws, equal, narrow, get_int_field_filter_bitmap,
}
use learn_vector_db.FilterIndex.Members.{equal_lem}
use learn_vector_db.VectorIndex.{Found, to_uint32}
use learn_vector_db.IndexFactory.{Libraries, IndexType}
use learn_vector_db.Database.{Database, at, read_vectors, request_k, get_index_type_from_request}
use learn_vector_db.Database.Search
use learn_vector_db.Database.Search.{operation_of, filter_bitmap, search_index}
use learn_vector_db.Database.Stays.{held}
use learn_vector_db.Database.Selected.{
  All, FaissLaws, HnswLaws, Selected, SelectedAfter, search_index-Selected,
}

module _ (l : Libraries) where
  open l use {json, faiss, roaring}

  -- A request whose filter asks for a value of a field.
  pub record AsksFor (request : json.Value) (field : Bytes) (value : ℤ) : Type 0 where
    pub filter_value : json.Value
    pub name_value : json.Value
    pub op_value : json.Value
    pub value_value : json.Value
    pub name : Bytes
    pub op : Bytes
    pub has_filter : at l request (codes "filter") ≡ some filter_value
    pub is_object : json.is_object filter_value ≡ true
    pub has_name : at l filter_value (codes "fieldName") ≡ some name_value
    pub name_text : json.get_string name_value ≡ some name
    pub same_name : c_str name ≡ field
    pub has_op : at l filter_value (codes "op") ≡ some op_value
    pub op_text : json.get_string op_value ≡ some op
    pub is_equal : operation_of l (c_str op) ≡ equal
    pub has_value : at l filter_value (codes "value") ≡ some value_value
    pub value_number : json.get_int64 value_value ≡ some value

  module _ (request : json.Value) (field : Bytes) (value : ℤ)
      (asks : AsksFor request field value) where
    filter_bitmap_lem :
        (db : Database l)
        → filter_bitmap l request db ≡ (
          db,
          elim db.factory.filter_index [
            | none ↦ throw aborted
            | some m ↦
                ok (some (get_int_field_filter_bitmap roaring field equal value m roaring.create))
          ],
        )
    unfolding filter_bitmap ◌>>=◌ need gets pure
    filter_bitmap_lem db =
        rw (asks.has_filter, filter_bitmap)
          (rw asks.is_object (
            rw
              (
                asks.has_name, asks.name_text, asks.has_op, asks.op_text, asks.has_value,
                asks.value_number,
              )
              (rw asks.same_name (
                rw asks.is_equal (elim (Option-cases db.factory.filter_index) [
                  | inl missing ↦ rw missing refl
                  | inr (m, found) ↦ rw found refl
                ])))))

    module _ (db : Database l) where
      -- The filter index has the identifier for the field and the value, or it is -1.
      abbrev pub Held : ℤ → Type 0
      Held id = (id ≡ negsuc 0) ⊎ (held l field value (to_uint32 id) db ≡ true)

      abbrev pub HeldAfter : Database l × Result (Found json.Float) → Type 0
      HeldAfter (db', throw e) = Unit
      HeldAfter (db', ok (ids, distances)) = All Held ids

      HeldAfter-lift :
          {A : Type 0} (r : Result A) (f : A → Exec (Database l) (Found json.Float))
          → ((a : A) → HeldAfter (f a db))
          → HeldAfter ((lift r >>= f) db)
      unfolding ◌>>=◌ lift
      HeldAfter-lift (ok a) f h = h a
      HeldAfter-lift (throw e) f h = tt

      HeldAfter-need :
          {A : Type 0} (o : Option A) (f : A → Exec (Database l) (Found json.Float))
          → ((a : A) → HeldAfter (f a db))
          → HeldAfter ((need o >>= f) db)
      unfolding ◌>>=◌ need
      HeldAfter-need (some a) f h = h a
      HeldAfter-need none f h = tt

      module _ (laws : RoaringLaws roaring) (m : FilterMap roaring)
          (found : db.factory.filter_index ≡ some m) where
        abbrev asked : roaring.Bitmap
        asked = get_int_field_filter_bitmap roaring field equal value m roaring.create

        uint32_narrow : (id : ℤ) → narrow (to_uint32 id) ≡ to_uint32 id
        unfolding to_uint32
        uint32_narrow (pos n) = omega arith
        uint32_narrow (negsuc n) = omega arith

        Selected-Held : (id : ℤ) → Selected l asked id → Held id
        unfolding held
        Selected-Held id (inl none_there) = inl none_there
        Selected-Held id (inr h) = inr (
            rw found (
              ground (
                arith,
                equal_lem roaring laws field value (to_uint32 id) m roaring.create,
                uint32_narrow id,
                laws.contains-create (to_uint32 id),
                h,
              )))

        All-Held : (ids : List ℤ) → All (Selected l asked) ids → All Held ids
        All-Held [] h = tt
        All-Held (id ∷ ids) h = (Selected-Held id h.0, All-Held ids h.1)

        SelectedAfter-HeldAfter :
            (x : Database l × Result (Found json.Float)) → SelectedAfter l asked x → HeldAfter x
        SelectedAfter-HeldAfter (db', throw e) h = tt
        SelectedAfter-HeldAfter (db', ok (ids, distances)) h = All-Held ids h

      filtered-HeldAfter :
          RoaringLaws roaring
          → FaissLaws faiss
          → HnswLaws l.hnsw
          → (type : IndexType) (query : List json.Float) (k : ℤ)
          → HeldAfter ((filter_bitmap l request >>= search_index l type query k) db)
      unfolding ◌>>=◌
      filtered-HeldAfter laws fl hl type query k =
          let after : Option (FilterMap roaring) → Type 0 = λ o. HeldAfter (
            continue
              (elim o [
                | none ↦ throw aborted
                | some m ↦
                    ok (
                      some (get_int_field_filter_bitmap roaring field equal value m roaring.create))
              ])
              (search_index l type query k) db) in
          rw (filter_bitmap_lem db) (elim (Option-cases db.factory.filter_index) [
            | inl missing ↦ subst after (sym missing) tt
            | inr (m, found) ↦ subst after (sym found) (
                SelectedAfter-HeldAfter laws m found
                  (search_index l type query k (some (asked laws m found)) db)
                  (search_index-Selected l (asked laws m found) fl hl type query k db))
          ])

      -- If FAISS and hnswlib keep to a selector, a search whose filter asks for a value of a field
      -- finds only identifiers that the filter index has for the field and the value, compared by
      -- their low 32 bits; a place of the answer without an identifier is -1.
      pub search_filtered :
          RoaringLaws roaring
          → FaissLaws faiss
          → HnswLaws l.hnsw
          → HeldAfter (Search.search l request db)
      unfolding Search.search
      search_filtered laws fl hl = HeldAfter-lift (read_vectors l request) _ (λ vector.
          HeldAfter-need (at l request request_k) _ (λ k_value.
            HeldAfter-need (json.get_int k_value) _ (λ k.
              filtered-HeldAfter laws fl hl (get_index_type_from_request l request) vector k)))
