-- ===== src/Database/Snapshot.antt =====
-- A snapshot that the next process loads.
use mathlib.Core.Path.{subst}
use learn_vector_db.Prelude.{Bool, none, some, [], Bytes, bytes_eq_refl, ◌≡◌, refl, sym, ap, ◌∙◌}
use learn_vector_db.Result.{Result, ok}
use learn_vector_db.FilterIndex
use learn_vector_db.FilterIndex.{serialize_int_field_filter, deserialize_int_field_filter}
use learn_vector_db.FilterIndex.Ordered.{WellFormed}
use learn_vector_db.FilterIndex.RoundTrip.{Savable, deserialize-serialize}
use learn_vector_db.ScalarStorage
use learn_vector_db.ScalarStorage.{RocksLaws, get_scalar}
use learn_vector_db.VectorIndex.{flat_load, hnsw_load}
use learn_vector_db.IndexFactory.{
  Libraries, IndexFactory, flat, hnsw, filter, index_path, save_index, load_index, load_filter,
}
use learn_vector_db.Database.{Database, query, take_snapshot, load_snapshot, snapshot_folder_path}
use learn_vector_db.Database.Stays.{held}
use learn_vector_db.Database.Exact.{Exact}
use learn_vector_db.Database.History.{query-take_snapshot, unchanged-Exact}

module _ (l : Libraries) where
  open l use {json, roaring, rocks}

  -- A process that took a snapshot of a filter index, and the next one on its documents.
  pub record Restored (writable : Bool) (m : FilterIndex.Index roaring) (db next : Database l)
      : Type 0 where
    pub saved : db.factory.filter_index ≡ some m
    pub well_formed : WellFormed roaring m
    pub savable : Savable roaring m
    pub kept : rocks.Db
    pub put_taken :
        rocks.put
          (index_path snapshot_folder_path filter)
          (serialize_int_field_filter roaring m)
          db.scalars
        ≡ some kept
    pub same_documents : next.scalars ≡ (take_snapshot l writable db).scalars
    pub empty : next.factory.filter_index ≡ some []

  module _ (laws : RocksLaws rocks) (writable : Bool) (m : FilterIndex.Index roaring)
      (db next : Database l) (r : Restored writable m db next) where
    snapshot_scalars : (take_snapshot l writable db).scalars ≡ r.kept
    unfolding take_snapshot save_index FilterIndex.save_index ScalarStorage.put
    snapshot_scalars = rw r.saved (rw (r.put_taken, FilterIndex.save_index, ScalarStorage.put) refl)

    abbrev path : Bytes
    path = index_path snapshot_folder_path filter

    saved_text : ScalarStorage.get rocks path next.scalars ≡ serialize_int_field_filter roaring m
    unfolding ScalarStorage.get serialize_int_field_filter
    saved_text =
        let text = serialize_int_field_filter roaring m in
        let found : rocks.get path r.kept ≡ some text =
          laws.get-put path text db.scalars r.kept path r.put_taken
          ∙ rw (bytes_eq_refl path) refl in
        ap (ScalarStorage.get rocks path) (r.same_documents ∙ snapshot_scalars)
        ∙ rw (found, ScalarStorage.get) refl

    loaded_index : FilterIndex.load_index roaring rocks path [] next.scalars ≡ ok m
    unfolding FilterIndex.load_index
    loaded_index =
        ap (λ t. deserialize_int_field_filter roaring t []) saved_text
        ∙ deserialize-serialize roaring m r.well_formed r.savable

    loaded_filter : load_filter l snapshot_folder_path next.factory next.scalars ≡ ok (some m)
    unfolding load_filter
    loaded_filter = rw r.empty (rw loaded_index refl)

    abbrev restored : IndexFactory l
    restored = record {
      flat_index = elim next.factory.flat_index [
        | none ↦ none
        | some index ↦
            some (flat_load roaring l.faiss (index_path snapshot_folder_path flat) next.files index)
      ];
      hnsw_index = elim next.factory.hnsw_index [
        | none ↦ none
        | some index ↦
            some (hnsw_load roaring l.hnsw (index_path snapshot_folder_path hnsw) next.files index)
      ];
      filter_index = some m;
    }

    loaded_factory :
        load_index l snapshot_folder_path next.files next.scalars next.factory ≡ ok restored
    unfolding load_index
    loaded_factory = rw (loaded_filter, load_index) refl

    loaded : load_snapshot l next ≡ (record next { factory = restored }, ok tt)
    unfolding load_snapshot
    loaded = rw (loaded_factory, load_snapshot) refl

    -- A process that loads the snapshot of another, with the documents of that one and an empty filter
    -- index, has its filter index: if it was exact for a field, it is again, and the load does not
    -- throw. The saved index is in order, no field has a bar or a newline in its name, its bitmaps
    -- read back and are written without a newline, and the database took the write of it.
    pub load_snapshot-Exact :
        (field : Bytes)
        → Exact l field db
        → ((load_snapshot l next).1 ≡ ok tt) × Exact l field (load_snapshot l next).0
    unfolding held query
    load_snapshot-Exact field exact =
        subst (λ (x : Database l × Result (Unit {0})). (x.1 ≡ ok tt) × Exact l field x.0)
          (sym loaded)
          (
            refl,
            unchanged-Exact l field db (record next { factory = restored }) (λ w x. rw r.saved refl)
                (λ x.
                  ap (get_scalar rocks json x) r.same_documents
                  ∙ query-take_snapshot l laws writable db x)
                exact,
          )
