-- ===== src/Database/Exact.antt =====
-- A field of the filter index that says of every identifier what its stored document says.
use mathlib.Core.Path.{subst}
use learn_vector_db.Prelude.{
  ℕ, ◌<◌, ◌^◌, Bool, false, Option, none, some, List, [], ◌∷◌, Bytes, ◌==◌, if◌then◌else◌, ◌≡◌,
  refl, ap, ◌∙◌, arith, Bool-cases, Option-cases, ==_iff, ==_refl, ◌⊎◌, inl, inr,
}
use learn_vector_db.Result.{ok}
use learn_vector_db.Exec.Keeps.{Keeps-pure, Keeps-lift, Keeps-need, Keeps-if, Keeps-bind}
use learn_vector_db.Json.{ℤ, c_str, int_eq}
use learn_vector_db.Decimal.{to_string}
use learn_vector_db.FilterIndex.{RoaringLaws, narrow, update_int_field_filter}
use learn_vector_db.FilterIndex.Members.{is_member-update, same_value}
use learn_vector_db.ScalarStorage.{RocksLaws, get_scalar}
use learn_vector_db.IndexFactory.{Libraries, IndexType}
use learn_vector_db.Database.{
  Database, at, on_filter, old_value, update_filter, update_filters, upsert, query,
}
use learn_vector_db.Database.Stays.{held, moved, Elsewhere, Stays}
use learn_vector_db.Database.Indexed.{IndexedField, held-upsert, held-upsert_dropped, upsert-Stays}
use learn_vector_db.Database.Stored.{query-upsert}

module _ (l : Libraries) where
  open l use {json, faiss, roaring, rocks}

  module _ (laws : RoaringLaws roaring) (field : Bytes) (w : ℤ) (x : ℕ) (c : Bool)
      (existing : json.Value) (id : ℕ) (other : (narrow id == narrow x) ≡ false) where
    on_filter-Other :
        (name : Bytes) (old : Option ℤ) (new : ℤ)
        → Stays l laws field w x c (on_filter l (update_int_field_filter roaring name old new id))
    unfolding on_filter held
    on_filter-Other name old new = record {
      hold = λ db h. elim (Option-cases db.factory.filter_index) [
        | inl missing ↦ ground (arith, missing, h)
        | inr (m, found) ↦
            ground
              (arith, found, h, other, is_member-update roaring laws name field old new w id x m)
      ];
    }

    update_filters-Other :
        (members : List (Bytes × json.Value))
        → Stays l laws field w x c (update_filters l existing id members)
    unfolding update_filters update_filter
    update_filters-Other [] = Keeps-pure tt
    update_filters-Other ((name, value) ∷ rest) =
        Keeps-bind _ _
          (Keeps-if _ _ _
            (Keeps-bind _ _ (Keeps-need _)
              (λ new. Keeps-bind _ _ (Keeps-lift _) (λ old. on_filter-Other (c_str name) old new)))
            (Keeps-pure tt))
          (λ _. update_filters-Other rest)

  -- The integer that a document has in a field.
  unfoldable pub int_field : json.Value → Bytes → Option ℤ
  int_field document field =
      if json.is_object document
      then elim (at l document field) [
        | none ↦ none
        | some v ↦ if json.is_int v then json.get_int64 v else none
      ]
      else none

  old_value-int_field :
      (existing : json.Value) (field : Bytes) (old : Option ℤ)
      → old_value l existing field ≡ ok old
      → (int_field existing field ≡ none) ⊎ (int_field existing field ≡ old)
  unfolding old_value int_field
  old_value-int_field existing field old h = elim (Bool-cases (json.is_object existing)) [
    | inr missing ↦ rw missing (inl refl)
    | inl object ↦ elim (Option-cases (at l existing field)) [
      | inl missing ↦ inl (rw (object, missing) refl)
      | inr (v, found) ↦ elim (Bool-cases (json.is_int v)) [
        | inr big ↦ inl (rw (object, found, big) refl)
        | inl int ↦ inr (ground (arith, h, object, found, int))
      ]
    ]
  ]

  -- The new document has the field once, as an integer that it also reads back as.
  pub record Given (field : Bytes) (id : ℕ) (document : json.Value) (db : Database l) : Type 0 where
    pub name : Bytes
    pub old : Option ℤ
    pub new : ℤ
    pub same_name : c_str name ≡ field
    pub indexed : IndexedField l document (get_scalar rocks json id db.scalars) name old new
    pub reads_back : int_field (json.parse (c_str (json.write document))) field ≡ some new

  -- Neither the new document nor the stored one has the field.
  pub record Absent (field : Bytes) (id : ℕ) (document : json.Value) (db : Database l)
      : Type 0 where
    pub elsewhere : Elsewhere l field (json.members document)
    pub reads_back : int_field (json.parse (c_str (json.write document))) field ≡ none
    pub not_stored : int_field (query l id db) field ≡ none

  -- An `upsert` that returns, whose write the database takes, and that does not drop the field.
  pub record Stores (field : Bytes) (id : ℕ) (document : json.Value) (type : IndexType)
      (db : Database l) : Type 0 where
    pub small : id < 2 ^ 32
    pub returned : (upsert l id document type db).1 ≡ ok tt
    pub taken : rocks.Db
    pub put_taken : rocks.put (to_string id) (c_str (json.write document)) db.scalars ≡ some taken
    pub kept : Given field id document db ⊎ Absent field id document db

  -- For every value, the filter index has the identifiers whose document reads as that value.
  pub record Exact (field : Bytes) (db : Database l) : Type 0 where
    pub says :
        (w : ℤ) (x : ℕ)
        → x < 2 ^ 32
        → held l field w x db ≡ same_value (int_field (query l x db) field) w

  module _ (rocks_laws : RocksLaws rocks) (laws : RoaringLaws roaring) (field : Bytes) (id : ℕ)
      (document : json.Value) (type : IndexType) (db : Database l) where
    query_after :
        (x : ℕ)
        → Stores field id document type db
        → query l x (upsert l id document type db).0
          ≡ (if id == x then json.parse (c_str (json.write document)) else query l x db)
    query_after x s =
        rw (query-upsert l id document type db rocks_laws x, s.returned, s.put_taken) refl

    held_other :
        (w : ℤ) (x : ℕ)
        → (narrow id == narrow x) ≡ false
        → held l field w x (upsert l id document type db).0 ≡ held l field w x db
    held_other w x other = upsert-Stays l laws id document type field w x db (
        update_filters-Other laws field w x (held l field w x db)
          (get_scalar rocks json id db.scalars) id other (json.members document))

    held_new :
        (w : ℤ)
        → Exact field db
        → Stores field id document type db
        → (g : Given field id document db)
        → held l field w id (upsert l id document type db).0 ≡ int_eq g.new w
    unfolding query
    held_new w exact s g =
        let before = get_scalar rocks json id db.scalars in
        let step : held l field w id (upsert l id document type db).0
            ≡ moved l w id (held l field w id db) g.old g.new id =
          subst
            (λ f.
              held l f w id (upsert l id document type db).0
              ≡ moved l w id (held l f w id db) g.old g.new id)
            g.same_name
            (held-upsert l laws id document type g.name g.old g.new w id db g.indexed s.returned) in
        let now = exact.says w id s.small in
        elim (old_value-int_field before field g.old
          (subst (λ f. old_value l before f ≡ ok g.old) g.same_name g.indexed.read_old)) [
            | inl missing ↦ ground (arith, step, now, missing)
            | inr same ↦ ground (arith, step, now, same)
          ]

    held_none :
        (w : ℤ)
        → Exact field db
        → Stores field id document type db
        → Absent field id document db
        → held l field w id (upsert l id document type db).0 ≡ false
    held_none w exact s a =
        held-upsert_dropped l laws id document type field w id db a.elsewhere
        ∙ exact.says w id s.small
        ∙ ap (λ o. same_value o w) a.not_stored

    says_own :
        (w : ℤ)
        → Exact field db
        → Stores field id document type db
        → held l field w id (upsert l id document type db).0
          ≡ same_value (int_field (query l id (upsert l id document type db).0) field) w
    says_own w exact s =
        let self = ==_refl id in
        elim s.kept [
          | inl given ↦ rw (query_after id s, self, given.reads_back) (held_new w exact s given)
          | inr absent ↦ rw (query_after id s, self, absent.reads_back) (held_none w exact s absent)
        ]

    -- After an `upsert` that returns, whose identifier is below 2 ^ 32 and whose write the database
    -- takes, the filter index still says of every identifier below 2 ^ 32 what the documents say that
    -- a query reads. Either the document has the field once, as an integer that reads back and not as
    -- `id`, or neither it nor the stored one has it.
    pub upsert-Exact :
        Exact field db
        → Stores field id document type db
        → Exact field (upsert l id document type db).0
    upsert-Exact exact s = record {
      says = λ w x small. elim (Bool-cases (id == x)) [
        | inr other ↦
            rw (query_after x s, other)
              (held_other w x (ground (arith, other, small, s.small)) ∙ exact.says w x small)
        | inl same ↦
            subst
              (λ y.
                held l field w y (upsert l id document type db).0
                ≡ same_value (int_field (query l y (upsert l id document type db).0) field) w)
              ((==_iff id x).0 same) (says_own w exact s)
      ];
    }
