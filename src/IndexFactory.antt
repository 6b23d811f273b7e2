-- ===== src/IndexFactory.antt =====
-- `IndexFactory` of index_factory.h and index_factory.cpp. Its map from index types to pointers has
-- at most the keys FLAT, HNSW and FILTER, in this order: it is a record of three options.
use learn_vector_db.Prelude.{ℕ, Option, none, some, [], ◌++◌, Bytes, codes}
use learn_vector_db.Result.{Result, ok, ◌>>=◌}
use learn_vector_db.Json.{Json}
use learn_vector_db.Logger.{Spdlog}
use learn_vector_db.Decimal.{to_string}
use learn_vector_db.ScalarStorage.{RocksDb}
use learn_vector_db.FilterIndex
use learn_vector_db.FilterIndex.{Roaring}
use learn_vector_db.VectorIndex.{
  Faiss, Hnsw, MetricType, Files, HnswIndex, new_hnsw, flat_save, flat_load, hnsw_save, hnsw_load,
}

-- The libraries that the database is built on.
pub record Libraries : Type 1 where
  pub json : Json
  pub faiss : Faiss json.Float
  pub hnsw : Hnsw json.Float
  pub roaring : Roaring
  pub rocks : RocksDb
  pub spdlog : Spdlog

pub data IndexType : Type 0 where
  flat hnsw filter unknown : IndexType

-- `std::to_string(static_cast<int>(type))`.
unfoldable pub type_text : IndexType → Bytes
type_text flat = to_string 0
type_text hnsw = to_string 1
type_text filter = to_string 2
type_text unknown = codes "-1"

unfoldable pub index_path : Bytes → IndexType → Bytes
index_path folder_path type = folder_path ++ (type_text type ++ codes ".index")

module _ (l : Libraries) where
  open l use {faiss, roaring, rocks}

  pub record IndexFactory : Type 0 where
    pub flat_index : Option faiss.Index
    pub hnsw_index : Option (HnswIndex roaring l.hnsw)
    pub filter_index : Option (FilterIndex.Index roaring)

  abbrev pub empty_factory : IndexFactory
  empty_factory = record { flat_index = none; hnsw_index = none; filter_index = none }

  unfoldable pub init : IndexType → ℕ → ℕ → MetricType → IndexFactory → IndexFactory
  init flat dim num_data metric i = record i { flat_index = some (faiss.flat_index dim metric) }
  init hnsw dim num_data metric i = record i {
    hnsw_index = some (new_hnsw roaring l.hnsw dim num_data metric 16 200);
  }
  init filter dim num_data metric i = record i { filter_index = some [] }
  init unknown dim num_data metric i = i

  -- The files and the database behind a snapshot of every index that is there.
  unfoldable pub save_index : Bytes → IndexFactory → Files → rocks.Db → Files × rocks.Db
  save_index folder_path i files db =
      let files1 : Files = elim i.flat_index [
        | none ↦ files
        | some index ↦ flat_save roaring faiss (index_path folder_path flat) index files
      ] in
      let files2 : Files = elim i.hnsw_index [
        | none ↦ files1
        | some index ↦ hnsw_save roaring l.hnsw (index_path folder_path hnsw) index files1
      ] in
      (
        files2,
        elim i.filter_index [
          | none ↦ db
          | some index ↦
              FilterIndex.save_index roaring rocks (index_path folder_path filter) index db
        ],
      )

  unfoldable pub load_filter :
      Bytes → IndexFactory → rocks.Db → Result (Option (FilterIndex.Index roaring))
  load_filter folder_path i db = elim i.filter_index [
    | none ↦ ok none
    | some index ↦
        FilterIndex.load_index roaring rocks (index_path folder_path filter) index db >>= λ loaded.
        ok (some loaded)
  ]

  -- The FLAT and the HNSW index, which come first in the map.
  unfoldable pub load_vectors : Bytes → Files → IndexFactory → IndexFactory
  load_vectors folder_path files i = record i {
    flat_index = elim i.flat_index [
      | none ↦ none
      | some index ↦ some (flat_load roaring faiss (index_path folder_path flat) files index)
    ];
    hnsw_index = elim i.hnsw_index [
      | none ↦ none
      | some index ↦ some (hnsw_load roaring l.hnsw (index_path folder_path hnsw) files index)
    ];
  }

  unfoldable pub load_index : Bytes → Files → rocks.Db → IndexFactory → Result IndexFactory
  unfolding load_vectors
  load_index folder_path files db i = do
    loaded ← load_filter folder_path i db
    ok (record (load_vectors folder_path files i) { filter_index = loaded })

  -- The indexes where `load_index` throws: the filter index has what was read by then.
  unfoldable pub index_loaded : Bytes → Files → rocks.Db → IndexFactory → IndexFactory
  index_loaded folder_path files db i = record (load_vectors folder_path files i) {
    filter_index = elim i.filter_index [
      | none ↦ none
      | some index ↦
          some (FilterIndex.index_loaded roaring rocks (index_path folder_path filter) index db)
    ];
  }
