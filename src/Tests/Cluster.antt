-- ===== src/Tests/Cluster.antt =====
-- The other libraries, each with an index or a server that is a list, and the buffers of NuRaft.
use learn_vector_db.Prelude.{
  ℕ, ◌+◌, ◌*◌, ◌/◌, ◌%◌, ◌^◌, ◌<◌, Bool, true, false, not, ◌||◌, ◌&&◌, Option, none, some, List, [],
  ◌∷◌, ◌++◌, map, keep, Bytes, ◌==◌, ltb, if◌then◌else◌, ◌≡◌, refl, arith,
}
use learn_vector_db.Result.{ok}
use learn_vector_db.Json.{ℤ, pos, negsuc, int_eq}
use learn_vector_db.Raft.{Raft, RaftLaws}
use learn_vector_db.Logger.{Level, info, Spdlog}
use learn_vector_db.VectorIndex.{Faiss, Hnsw}
use learn_vector_db.IndexFactory.{Libraries}
use learn_vector_db.RaftStuff.{RaftServer}
use learn_vector_db.Tests.Bitmaps.{list_roaring}
use learn_vector_db.Tests.Store.{sorted_rocks}
use learn_vector_db.Tests.Documents.{small_json}

abbrev pub int_member : ℤ → List ℤ → Bool
int_member v [] = false
int_member v (w ∷ ws) = int_eq v w || int_member v ws

abbrev pub selects : Option (ℤ → Bool) → ℤ → Bool
selects none id = true
selects (some selector) id = selector id

abbrev pub takes : Option (ℕ → Bool) → ℕ × ℕ → Bool
takes none e = true
takes (some take_label) e = take_label e.1 && ltb e.1 (2 ^ 64)

abbrev pub list_faiss : Faiss ℕ
list_faiss = record {
  Index = List (ℤ × List ℕ);
  flat_index = λ dim metric. [];
  is_id_map = λ index. true;
  dim = λ index. 1;
  add_with_ids = λ data' id index. (id, data') ∷ index;
  remove_ids = λ ids index. keep (λ e. not (int_member e.0 ids)) index;
  search = λ n query k selector index. ok (
    keep (selects selector) (map (λ e. e.0) index),
    map (λ e. 0) (keep (selects selector) (map (λ e. e.0) index)),
  );
  write_index = λ index. [];
  read_index = λ file. [];
}

abbrev pub list_hnsw : Hnsw ℕ
list_hnsw = record {
  Index = List (List ℕ × ℕ);
  Space = ℕ;
  l2_space = λ dim. dim;
  inner_product_space = λ dim. dim;
  hierarchical = λ space num m ef. [];
  add_point = λ data' label index. some ((data', label) ∷ index);
  set_ef = λ ef index. index;
  search_knn = λ query k selector index. keep (takes selector) (map (λ e. (0, e.1)) index);
  save_index = λ index. [];
  load_index = λ file space num index. [];
}

-- A logger is its name and its level.
abbrev named_logger : Spdlog
named_logger = record {
  Logger = Bytes × Level;
  stdout_color_mt = λ name. some (name, info);
  set_level = λ level logger. (logger.0, level);
}

abbrev pub small_libraries : Libraries
small_libraries = record {
  json = small_json;
  faiss = list_faiss;
  hnsw = list_hnsw;
  roaring = list_roaring;
  rocks = sorted_rocks;
  spdlog = named_logger;
}

-- A server that is the leader or not, and what was appended.
abbrev pub list_server : RaftServer
list_server = record {
  Server = Bool × List Bytes;
  is_leader = λ s. s.0;
  append_entries = λ entries s. (s.0, s.1 ++ entries);
  add_srv = λ srv s. s;
  update_election_timeout = λ lower upper s. s;
  get_leader = λ s. pos 1;
  get_servers = λ s. some [];
  get_peer_info = λ id s. (0, 0);
  put_length = λ n. n % 256 ∷ n / 256 % 256 ∷ n / 65536 % 256 ∷ n / 16777216 % 256 ∷ [];
}

-- An entry of the log: the term, the buffer, whether it is an application entry, the time, and the
-- checksum.
pub record SmallEntry : Type 0 where
  pub term : ℕ
  pub buf : Bytes
  pub app : Bool
  pub time : ℕ
  pub has_crc : Bool
  pub crc : ℕ

abbrev pub bit : Bool → ℕ
bit false = 0
bit true = 1

abbrev pub entry_text : SmallEntry → Bytes
entry_text e = e.term ∷ bit e.app ∷ e.buf

abbrev pub text_entry : Bytes → SmallEntry
text_entry (t ∷ a ∷ b) = record {
  term = t;
  buf = b;
  app = a == 1;
  time = 0;
  has_crc = false;
  crc = 0;
}
text_entry s = record { term = 0; buf = []; app = true; time = 0; has_crc = false; crc = 0 }

abbrev pub put_small : ℤ → Bytes
put_small (pos n) = n % 256 ∷ n / 256 % 256 ∷ n / 65536 % 256 ∷ n / 16777216 ∷ []
put_small (negsuc n) = 0 ∷ 0 ∷ 0 ∷ 128 ∷ []

abbrev pub get_small : Bytes → Option (ℤ × Bytes)
get_small (a ∷ b ∷ c ∷ d ∷ rest) =
    if ltb d 128
    then some (pos (a + b * 256 + c * 65536 + d * 16777216), rest)
    else some (negsuc 0, rest)
get_small s = none

abbrev pub small_raft : Raft
small_raft = record {
  Buffer = Bytes;
  clone = λ b. b;
  contents = λ b. b;
  blank = 0 ∷ 0 ∷ 0 ∷ 0 ∷ 0 ∷ 0 ∷ 0 ∷ 0 ∷ [];
  ValType = Bool;
  is_app_log = λ t. t;
  Entry = SmallEntry;
  plain_entry = λ t b. record { term = t; buf = b; app = true; time = 0; has_crc = false; crc = 0 };
  log_entry = λ t b a u h c. record { term = t; buf = b; app = a; time = u; has_crc = h; crc = c };
  get_term = λ e. e.term;
  get_buf = λ e. e.buf;
  get_val_type = λ e. e.app;
  get_timestamp = λ e. e.time;
  has_crc32 = λ e. e.has_crc;
  get_crc32 = λ e. e.crc;
  serialize = entry_text;
  deserialize = text_entry;
  put_int = put_small;
  get_int = get_small;
}

bit_lem : (b : Bool) → (bit b == 1) ≡ b
bit_lem false = refl
bit_lem true = refl

get_small-put_small :
    (n : ℕ) (rest : Bytes) → n < 2 ^ 31 → get_small (put_small (pos n) ++ rest) ≡ some (pos n, rest)
get_small-put_small n rest h = ground arith

pub small_raft_laws : RaftLaws small_raft
small_raft_laws = record {
  clone_lem = λ b. refl;
  rebuild = λ e. refl;
  same_term = λ e. refl;
  same_buf = λ e. refl;
  same_val_type = λ e. bit_lem e.app;
  get_int-put_int = get_small-put_small;
}
