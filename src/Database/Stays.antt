-- ===== src/Database/Stays.antt =====
-- What the parts of `upsert` leave as it was in the filter index.
use learn_vector_db.Prelude.{
  ℕ, Bool, false, not, ◌&&◌, ◌||◌, Option, none, some, List, [], ◌∷◌, ◌++◌, Bytes, ◌==◌, bytes_eq,
  ◌≡◌, arith, Option-cases, inl, inr,
}
use learn_vector_db.Result.{Result}
use learn_vector_db.Exec.{Exec}
use learn_vector_db.Exec.Keeps.{
  Keeps, Keeps-pure, Keeps-lift, Keeps-need, Keeps-if, Keeps-bind, Reaches, Reaches-bind,
  Reaches-then,
}
use learn_vector_db.Json.{ℤ, int_eq, c_str}
use learn_vector_db.FilterIndex.{RoaringLaws, narrow, update_int_field_filter}
use learn_vector_db.FilterIndex.Members.{is_member, is_member-update, same_value}
use learn_vector_db.VectorIndex.{HnswIndex}
use learn_vector_db.IndexFactory.{Libraries, IndexType, flat, hnsw, filter, unknown}
use learn_vector_db.Database.{
  Database, on_flat, on_hnsw, on_filter, remove_old, insert_new, update_filter, update_filters,
  forget, request_id,
}

module _ (l : Libraries) where
  open l use {json, faiss, roaring, rocks}

  -- Whether the filter index has the identifier under the value of the field.
  unfoldable pub held : Bytes → ℤ → ℕ → Database l → Bool
  held field v x db = elim db.factory.filter_index [
    | none ↦ false
    | some m ↦ is_member roaring field v x m
  ]

  -- What the index says of `x` under the value `w`, where it said `c` before the identifier `id` went
  -- from an old value of the field to a new one. Identifiers are compared by their low 32 bits.
  abbrev pub moved : ℤ → ℕ → Bool → Option ℤ → ℤ → ℕ → Bool
  moved w x c old new id =
      (int_eq new w && narrow id == narrow x)
      || (not (same_value old w && narrow id == narrow x) && c)

  -- None of the members has the name of the field.
  abbrev pub Elsewhere : Bytes → List (Bytes × json.Value) → Type 0
  Elsewhere field [] = Unit
  Elsewhere field ((name, value) ∷ rest) =
      (bytes_eq (c_str name) field ≡ false) × Elsewhere field rest

  module _ (laws : RoaringLaws roaring) (field : Bytes) (w : ℤ) (x : ℕ) (c : Bool) where
    abbrev pub Stays : {A : Type 0} → Exec (Database l) A → Type 0
    Stays m = Keeps (λ (db : Database l). held field w x db ≡ c) m

    on_flat-Stays : (g : faiss.Index → Result faiss.Index) → Stays (on_flat l g)
    unfolding on_flat held
    on_flat-Stays g = record { hold = λ db h. ground (arith, h) }

    on_hnsw-Stays :
        (g : HnswIndex roaring l.hnsw → Result (HnswIndex roaring l.hnsw)) → Stays (on_hnsw l g)
    unfolding on_hnsw held
    on_hnsw-Stays g = record { hold = λ db h. ground (arith, h) }

    remove_old-Stays : (type : IndexType) (id : ℕ) → Stays (remove_old l type id)
    unfolding remove_old
    remove_old-Stays flat id = on_flat-Stays _
    remove_old-Stays hnsw id = Keeps-pure tt
    remove_old-Stays filter id = Keeps-pure tt
    remove_old-Stays unknown id = Keeps-pure tt

    pub insert_new-Stays :
        (type : IndexType) (v : List json.Float) (id : ℕ) → Stays (insert_new l type v id)
    unfolding insert_new
    insert_new-Stays flat v id = on_flat-Stays _
    insert_new-Stays hnsw v id = on_hnsw-Stays _
    insert_new-Stays filter v id = Keeps-pure tt
    insert_new-Stays unknown v id = Keeps-pure tt

    pub forget-Stays :
        (existing : json.Value) (type : IndexType) (id : ℕ) → Stays (forget l existing type id)
    unfolding forget
    forget-Stays existing type id =
        Keeps-if (json.is_object existing) _ _
          (Keeps-bind _ _ (Keeps-lift _) (λ _. remove_old-Stays type id)) (Keeps-pure tt)

    on_filter-Stays :
        (other : Bytes) (old : Option ℤ) (new : ℤ) (id : ℕ)
        → bytes_eq other field ≡ false
        → Stays (on_filter l (update_int_field_filter roaring other old new id))
    unfolding on_filter held
    on_filter-Stays other old new id h = record {
      hold = λ db k. elim (Option-cases db.factory.filter_index) [
        | inl missing ↦ ground (arith, missing, k)
        | inr (m, found) ↦
            ground (arith, found, k, h, is_member-update roaring laws other field old new w id x m)
      ];
    }

    update_filter-Stays :
        (existing : json.Value) (id : ℕ) (other : Bytes) (value : json.Value)
        → bytes_eq other field ≡ false
        → Stays (update_filter l existing id other value)
    unfolding update_filter
    update_filter-Stays existing id other value h =
        Keeps-if (json.is_int value && not (bytes_eq other request_id)) _ _
          (Keeps-bind _ _ (Keeps-need _)
            (λ new. Keeps-bind _ _ (Keeps-lift _) (λ old. on_filter-Stays other old new id h)))
          (Keeps-pure tt)

    pub update_filters-Stays :
        (existing : json.Value) (id : ℕ) (members : List (Bytes × json.Value))
        → Elsewhere field members
        → Stays (update_filters l existing id members)
    unfolding update_filters
    update_filters-Stays existing id [] h = Keeps-pure tt
    update_filters-Stays existing id ((name, value) ∷ rest) h =
        Keeps-bind _ _ (update_filter-Stays existing id (c_str name) value h.0)
          (λ _. update_filters-Stays existing id rest h.1)

    -- The loop over the members reaches what the round of one member gives, if the field is nowhere
    -- else among them.
    pub update_filters-Reaches :
        (d : Bool) (existing : json.Value) (id : ℕ) (name : Bytes) (value : json.Value)
        (front back : List (Bytes × json.Value))
        → Elsewhere field front
        → ((e : Bool)
            → Elsewhere field back
            → Keeps
                (λ (db : Database l). held field w x db ≡ e)
                (update_filters l existing id back))
        → Elsewhere field back
        → Reaches
            (λ (db : Database l). held field w x db ≡ c)
            (λ (db : Database l). held field w x db ≡ d)
            (update_filter l existing id (c_str name) value)
        → Reaches
            (λ (db : Database l). held field w x db ≡ c)
            (λ (db : Database l). held field w x db ≡ d)
            (update_filters l existing id (front ++ (name, value) ∷ back))
    unfolding update_filters
    update_filters-Reaches d existing id name value [] back f k b h =
        Reaches-then _ _ h (λ _. k d b)
    update_filters-Reaches d existing id name value ((n, v) ∷ front) back f k b h =
        Reaches-bind _ _ (update_filter-Stays existing id (c_str n) v f.0)
          (λ _. update_filters-Reaches d existing id name value front back f.1 k b h)
