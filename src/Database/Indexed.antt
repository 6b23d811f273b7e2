-- ===== src/Database/Indexed.antt =====
-- What an `upsert` does to the filter index.
use learn_vector_db.Prelude.{
  ℕ, Bool, true, false, Option, some, List, ◌∷◌, ◌++◌, Bytes, bytes_eq, bytes_eq_iff, ◌≡◌, refl,
  sym, ap, ◌∙◌, arith, Option-cases, inl, inr,
}
use mathlib.Core.Path.{subst}
use learn_vector_db.Result.{Result, ok, throw}
use learn_vector_db.Exec.{lift, need, modify, ◌>>=◌}
use learn_vector_db.Exec.Fails.{gets-bind}
use learn_vector_db.Exec.Keeps.{
  Keeps, Keeps-lift, Keeps-bind, Outcome, Reaches, Reaches-bind, Reaches-then,
}
use learn_vector_db.Json.{ℤ, c_str}
use learn_vector_db.FilterIndex.{RoaringLaws, update_int_field_filter}
use learn_vector_db.FilterIndex.Members.{is_member, is_member-update}
use learn_vector_db.IndexFactory.{Libraries, IndexType}
use learn_vector_db.ScalarStorage.{get_scalar, insert_scalar}
use learn_vector_db.Database.{
  Database, Method, on_filter, insert_new, old_value, update_filter, update_filters, forget, upsert,
  request_id, read_vectors,
}
use learn_vector_db.Database.Stays.{
  held, moved, Elsewhere, forget-Stays, insert_new-Stays, update_filters-Stays,
  update_filters-Reaches,
}

outcome_ok :
    {S : Type 0} (Q : S → Type 0) (x : S × Result (Unit {0}))
    → Outcome (λ _. Unit) Q x
    → x.1 ≡ ok tt
    → Q x.0
outcome_ok Q (s, ok a) h k = h
outcome_ok Q (s, throw e) h k = ground (arith, k)

module _ (l : Libraries) where
  open l use {json, faiss, roaring, rocks}

  module _ (laws : RoaringLaws roaring) (field : Bytes) (w : ℤ) (x : ℕ) (c : Bool) where
    on_filter-Reaches :
        (old : Option ℤ) (new : ℤ) (id : ℕ)
        → Reaches
            (λ (db : Database l). held l field w x db ≡ c)
            (λ (db : Database l). held l field w x db ≡ moved l w x c old new id)
            (on_filter l (update_int_field_filter roaring field old new id))
    unfolding on_filter held
    on_filter-Reaches old new id = record {
      reach = λ db k. elim (Option-cases db.factory.filter_index) [
        | inl missing ↦ rw missing tt
        | inr (m, found) ↦ rw found (
            is_member-update roaring laws field field old new w id x m
            ∙ (let k' : is_member roaring field w x m ≡ c = rw found at k in
                ground (arith, bytes_eq_iff field field, k')))
      ];
    }

    update_filter-Reaches :
        (existing value : json.Value) (id : ℕ) (old : Option ℤ) (new : ℤ)
        → json.is_int value ≡ true
        → bytes_eq field request_id ≡ false
        → json.get_int64 value ≡ some new
        → old_value l existing field ≡ ok old
        → Reaches
            (λ (db : Database l). held l field w x db ≡ c)
            (λ (db : Database l). held l field w x db ≡ moved l w x c old new id)
            (update_filter l existing id field value)
    unfolding update_filter ◌>>=◌ need lift
    update_filter-Reaches existing value id old new int other n o = record {
      reach =
          λ db k. rw (int, other, n, o, update_filter) ((on_filter-Reaches old new id).reach db k);
    }

  -- The members of a document around the one that is a field of the filter index.
  pub record IndexedField (document existing : json.Value) (name : Bytes) (old : Option ℤ) (new : ℤ)
      : Type 0 where
    pub value : json.Value
    pub front : List (Bytes × json.Value)
    pub back : List (Bytes × json.Value)
    pub place : json.members document ≡ front ++ (name, value) ∷ back
    pub not_before : Elsewhere l (c_str name) front
    pub not_behind : Elsewhere l (c_str name) back
    pub integer : json.is_int value ≡ true
    pub not_id : bytes_eq (c_str name) request_id ≡ false
    pub new_value : json.get_int64 value ≡ some new
    pub read_old : old_value l existing (c_str name) ≡ ok old

  module _ (laws : RoaringLaws roaring) (id : ℕ) (document : json.Value) (type : IndexType) where
    indexed-Reaches :
        (existing : json.Value) (name : Bytes) (old : Option ℤ) (new w : ℤ) (x : ℕ) (c : Bool)
        → IndexedField document existing name old new
        → Reaches
            (λ (db : Database l). held l (c_str name) w x db ≡ c)
            (λ (db : Database l). held l (c_str name) w x db ≡ moved l w x c old new id)
            (update_filters l existing id (json.members document))
    indexed-Reaches existing name old new w x c i =
        subst
          (λ ms.
            Reaches (λ (db : Database l). held l (c_str name) w x db ≡ c)
              (λ (db : Database l). held l (c_str name) w x db ≡ moved l w x c old new id)
              (update_filters l existing id ms))
          (sym i.place)
          (update_filters-Reaches l laws (c_str name) w x c (moved l w x c old new id) existing id
            name i.value i.front i.back i.not_before
            (λ e b. update_filters-Stays l laws (c_str name) w x e existing id i.back b)
            i.not_behind
            (update_filter-Reaches laws (c_str name) w x c existing i.value id old new i.integer
              i.not_id i.new_value i.read_old))

    -- The part of `upsert` behind the read of the old document.
    abbrev upsert_rest : json.Value → Method l Unit
    upsert_rest existing = forget l existing type id >>= λ _.
        lift (read_vectors l document) >>= λ vector. insert_new l type vector id >>= λ _.
        update_filters l existing id (json.members document) >>= λ _.
        modify (λ db. record db { scalars = insert_scalar rocks json id document db.scalars })

    upsert_rest-Reaches :
        (existing : json.Value) (name : Bytes) (old : Option ℤ) (new w : ℤ) (x : ℕ) (c : Bool)
        → IndexedField document existing name old new
        → Reaches
            (λ (db : Database l). held l (c_str name) w x db ≡ c)
            (λ (db : Database l). held l (c_str name) w x db ≡ moved l w x c old new id)
            (upsert_rest existing)
    unfolding modify held
    upsert_rest-Reaches existing name old new w x c i =
        Reaches-bind _ _ (forget-Stays l laws (c_str name) w x c existing type id) (λ _.
          Reaches-bind _ _ (Keeps-lift _) (λ vector.
            Reaches-bind _ _ (insert_new-Stays l laws (c_str name) w x c type vector id) (λ _.
              Reaches-then _ _ (indexed-Reaches existing name old new w x c i)
                (λ _. record { hold = λ db h. h }))))

    upsert_lem :
        (db : Database l)
        → upsert l id document type db ≡ upsert_rest (get_scalar rocks json id db.scalars) db
    unfolding upsert
    upsert_lem db = gets-bind _ _ db

    -- What the loop over the members keeps of the filter index, all of `upsert` keeps.
    pub upsert-Stays :
        (field : Bytes) (w : ℤ) (x : ℕ) (db : Database l)
        → Keeps
            (λ (db' : Database l). held l field w x db' ≡ held l field w x db)
            (update_filters l (get_scalar rocks json id db.scalars) id (json.members document))
        → held l field w x (upsert l id document type db).0 ≡ held l field w x db
    unfolding modify held
    upsert-Stays field w x db h =
        let c = held l field w x db in
        let existing = get_scalar rocks json id db.scalars in
        let kept : Keeps (λ (db' : Database l). held l field w x db' ≡ c) (upsert_rest existing) =
          Keeps-bind _ _ (forget-Stays l laws field w x c existing type id) (λ _.
            Keeps-bind _ _ (Keeps-lift _) (λ vector.
              Keeps-bind _ _ (insert_new-Stays l laws field w x c type vector id)
                (λ _. Keeps-bind _ _ h (λ _. record { hold = λ db k. k })))) in
        ap (λ (y : Database l × Result (Unit {0})). held l field w x y.0) (upsert_lem db)
        ∙ kept.hold db refl

    -- An `upsert` that returns has moved the identifier, in the filter index, from the value of the
    -- field in the stored document, if there is one, to the value in the new document; what the index
    -- says of other values and other identifiers is as before. The new document has the field once, as
    -- an integer, and the field is not `id`.
    pub held-upsert :
        (name : Bytes) (old : Option ℤ) (new w : ℤ) (x : ℕ) (db : Database l)
        → IndexedField document (get_scalar rocks json id db.scalars) name old new
        → (upsert l id document type db).1 ≡ ok tt
        → held l (c_str name) w x (upsert l id document type db).0
          ≡ moved l w x (held l (c_str name) w x db) old new id
    held-upsert name old new w x db i returned =
        let c = held l (c_str name) w x db in
        outcome_ok (λ (db' : Database l). held l (c_str name) w x db' ≡ moved l w x c old new id)
          (upsert l id document type db)
          (subst
            (Outcome (λ _. Unit)
              (λ (db' : Database l). held l (c_str name) w x db' ≡ moved l w x c old new id))
            (sym (upsert_lem db))
            ((upsert_rest-Reaches (get_scalar rocks json id db.scalars) name old new w x c i).reach
              db refl))
          returned

    -- A field that the new document does not have is not looked at: the filter index holds the
    -- identifier under the value of the old document for that field still.
    pub held-upsert_dropped :
        (field : Bytes) (w : ℤ) (x : ℕ) (db : Database l)
        → Elsewhere l field (json.members document)
        → held l field w x (upsert l id document type db).0 ≡ held l field w x db
    held-upsert_dropped field w x db h = upsert-Stays field w x db (
        update_filters-Stays l laws field w x (held l field w x db)
          (get_scalar rocks json id db.scalars) id (json.members document) h)
