-- ===== src/Wal.antt =====
-- `Persistence` of persistence.h and persistence.cpp: the write-ahead log and the identifier of the
-- last snapshot. The log file is its content and the lines that the next calls of `std::getline`
-- give (none after a write, which moves the shared position to the end); a file that the disk
-- refuses to write is not modelled.
pub mod ReadBack
pub mod Lines
use learn_vector_db.Prelude.{
  ℕ, ◌+◌, ◌%◌, ◌^◌, Bool, true, false, Option, none, some, List, [], ◌∷◌, ◌++◌, Bytes, codes, ◌==◌,
  ltb, if◌then◌else◌, ◌≡◌, refl,
}
use learn_vector_db.Result.{Result, ok, throw, runtime_error, out_of_range, ◌>>=◌}
use learn_vector_db.Decimal.{to_string, stoull, max_u64}
use learn_vector_db.Json.{Json, c_str}

abbrev pub bar : ℕ
bar = b'|'

abbrev pub newline : ℕ
newline = 10

pub record Persistence : Type 0 where
  pub increase_id : ℕ
  pub last_snapshot_id : ℕ
  -- the log file
  pub content : Bytes
  pub unread : List Bytes
  pub good : Bool
  -- the file snapshots_MaxLogID, if it is there
  pub max_log_id_file : Option Bytes

-- What is on the disk between two runs.
pub record Disk : Type 0 where
  pub log : Bytes
  pub max_log_id : Option Bytes

-- What the successive calls of `std::getline` return.
unfoldable pub lines : Bytes → List Bytes
lines [] = []
lines (c ∷ s) =
    if c == newline
    then [] ∷ lines s
    else elim (lines s) [ [] ↦ (c ∷ []) ∷ [] | l ∷ ls ↦ (c ∷ l) ∷ ls ]

unfoldable pub increase : Persistence → Persistence
increase p = record p { increase_id = (p.increase_id + 1) % 2 ^ 64 }

abbrev pub get_id : Persistence → ℕ
get_id p = p.increase_id

-- `file >> lastSnapshotID_`: 0 where no number stands there, the largest where it is too large.
unfoldable pub extract : Bytes → ℕ
extract s = elim (stoull s) [ ok n ↦ n | throw out_of_range ↦ max_u64 | throw _ ↦ 0 ]

unfoldable pub load_last_snapshot_id : Persistence → Persistence
unfolding extract
load_last_snapshot_id p = elim p.max_log_id_file [
  | none ↦ p
  | some s ↦ record p { last_snapshot_id = extract s }
]

-- `writable`: whether the file could be opened.
unfoldable pub save_last_snapshot_id : Bool → Persistence → Persistence
save_last_snapshot_id writable p =
    if writable then record p { max_log_id_file = some (to_string p.last_snapshot_id) } else p

-- The constructor and `init`; `opened`: whether the log file could be opened.
unfoldable pub init : Bool → Disk → Result Persistence
unfolding load_last_snapshot_id
init opened disk =
    if opened
    then ok (
        load_last_snapshot_id (record {
          increase_id = 10;
          last_snapshot_id = 0;
          content = disk.log;
          unread = lines disk.log;
          good = true;
          max_log_id_file = disk.max_log_id;
        }))
    else throw runtime_error

-- One line of the log, with its end.
unfoldable pub wal_line : ℕ → Bytes → Bytes → Bytes → Bytes
wal_line log_id version operation_type text =
    to_string log_id
    ++ (bar ∷ (version ++ (bar ∷ (operation_type ++ (bar ∷ (text ++ (newline ∷ [])))))))

unfoldable pub write_wal_raw_log : ℕ → Bytes → Bytes → Bytes → Persistence → Persistence
unfolding wal_line
write_wal_raw_log log_id operation_type raw_data version p =
    if p.good
    then record p {
      content = p.content ++ wal_line log_id version operation_type raw_data;
      unread = [];
    }
    else p

unfoldable pub write_wal_log : (j : Json) → Bytes → j.Value → Bytes → Persistence → Persistence
unfolding increase write_wal_raw_log
write_wal_log j operation_type json_data version p =
    let p' = increase p in
    write_wal_raw_log p'.increase_id operation_type (c_str (j.write json_data)) version p'

-- An `std::istringstream` over the line: what is left, and whether the end was not yet met.
pub record Input : Type 0 where
  pub rest : Bytes
  pub good : Bool

-- What stands before the first `d`, and what stands behind it, if there is one.
unfoldable pub split : ℕ → Bytes → Bytes × Option Bytes
split d [] = ([], none)
split d (c ∷ s) = if c == d then ([], some s) else (let (a, b) = split d s in (c ∷ a, b))

-- `std::getline(iss, field, d)`: a stream at its end leaves the field as it was.
unfoldable pub next_field : ℕ → Bytes → Input → Bytes × Input
next_field d old input =
    if input.good
    then (let (a, b) = split d input.rest in
        elim b [
          | none ↦ (a, record { rest = []; good = false })
          | some r ↦ (a, record { rest = r; good = true })
        ])
    else (old, input)

pub record Fields : Type 0 where
  pub log_id_str : Bytes
  pub version : Bytes
  pub operation_type : Bytes
  pub json_data_str : Bytes

unfoldable pub fields : Bytes → Bytes → Fields
fields old_operation line =
    let (a, s1) = next_field bar [] (record { rest = line; good = true }) in
    let (b, s2) = next_field bar [] s1 in
    let (c, s3) = next_field bar old_operation s2 in
    let (d, _) = next_field bar [] s3 in
    record { log_id_str = a; version = b; operation_type = c; json_data_str = d }

unfoldable pub see_id : ℕ → Persistence → Persistence
see_id log_id p = if ltb p.increase_id log_id then record p { increase_id = log_id } else p

-- The operation and the document that `readNextWALLog` leaves in its arguments.
pub record Read (j : Json) : Type 0 where
  pub state : Persistence
  pub operation : Bytes
  pub document : j.Value

module _ (j : Json) where
  -- The `while` loop of `readNextWALLog`, over the lines that are left.
  unfoldable pub read_lines : List Bytes → Persistence → Bytes → j.Value → Result (Read j)
  read_lines [] p operation document = ok (record {
    state = record p { unread = []; good = true };
    operation = [];
    document = document;
  })
  read_lines (line ∷ rest) p operation document = do
    let f = fields operation line
    log_id ← stoull f.log_id_str
    let p' = see_id log_id p
    if ltb p'.last_snapshot_id log_id
        then ok (record {
          state = record p' { unread = rest };
          operation = f.operation_type;
          document = j.parse (c_str f.json_data_str);
        })
        else read_lines rest p' f.operation_type document

  -- The state where that loop throws: the line is read, and its identifier is not.
  unfoldable pub read_lines_thrown : List Bytes → Persistence → Persistence
  read_lines_thrown [] p = p
  read_lines_thrown (line ∷ rest) p = elim (stoull (fields [] line).log_id_str) [
    | throw e ↦ record p { unread = rest }
    | ok log_id ↦ read_lines_thrown rest (see_id log_id p)
  ]

  unfoldable pub read_next_wal_log : Persistence → Bytes → j.Value → Result (Read j)
  unfolding read_lines
  read_next_wal_log p operation document = read_lines p.unread p operation document
