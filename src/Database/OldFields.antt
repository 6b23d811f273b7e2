-- ===== src/Database/OldFields.antt =====
-- An integer field that the stored document does not have.
use learn_vector_db.Prelude.{ℕ, true, false, none, List, [], ◌∷◌, ◌++◌, Bytes, bytes_eq, ◌≡◌, ◌≢◌}
use learn_vector_db.Result.{ok}
use learn_vector_db.Exec.Fails.{Fails, Fails-throw, Fails-left, Fails-right, gets-bind}
use learn_vector_db.Json.{c_str}
use learn_vector_db.ScalarStorage.{get_scalar}
use learn_vector_db.IndexFactory.{Libraries, IndexType}
use learn_vector_db.Database.{
  Database, old_value, update_filter, update_filters, upsert, request_id,
}

module _ (l : Libraries) (existing : l.json.Value) (id : ℕ) (name : Bytes)
    (value : l.json.Value) where
  open l use {json}

  -- The loop of `upsert` aborts at such a member.
  pub record IsNewField : Type 0 where
    pub object : json.is_object existing ≡ true
    pub integer : json.is_int value ≡ true
    pub not_id : bytes_eq (c_str name) request_id ≡ false
    pub missing : json.member existing (c_str name) ≡ none

  module _ (new : IsNewField) where
    update_filter-Fails : Fails (update_filter l existing id (c_str name) value)
    unfolding update_filter old_value
    update_filter-Fails = rw new.integer (
        rw new.not_id
          (Fails-right _ _ λ v. Fails-left _ _ (rw new.object (rw new.missing (Fails-throw _)))))

    update_filters-Fails :
        (before after : List (Bytes × json.Value))
        → Fails (update_filters l existing id (before ++ ((name, value) ∷ after)))
    unfolding update_filters
    update_filters-Fails [] after = Fails-left _ _ update_filter-Fails
    update_filters-Fails (m ∷ before) after = Fails-right _ _ λ _. update_filters-Fails before after

-- An `upsert` of a document with an integer field, not `id`, that the document stored under the
-- identifier does not have never returns.
pub upsert_new_field :
    (l : Libraries) (id : ℕ) (document value : l.json.Value) (type : IndexType) (db : Database l)
    (name : Bytes) (before after : List (Bytes × l.json.Value))
    → IsNewField l (get_scalar l.rocks l.json id db.scalars) id name value
    → l.json.members document ≡ before ++ ((name, value) ∷ after)
    → (upsert l id document type db).1 ≢ ok tt
unfolding upsert
upsert_new_field l id document value type db name before after new shape =
    rw (gets-bind (λ (d : Database l). get_scalar l.rocks l.json id d.scalars)) (
      rw shape (
        (Fails-right _ _ λ _. Fails-right _ _ λ vector. Fails-right _ _ λ _. Fails-left _ _ (
            update_filters-Fails l (get_scalar l.rocks l.json id db.scalars) id name value new
              before after)).never
          db tt))
