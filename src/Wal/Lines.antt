-- ===== src/Wal/Lines.antt =====
-- The content of a write-ahead log that holds whole lines.
use mathlib.Core.List.{append_assoc, append-nil}
use learn_vector_db.Prelude.{
  ℕ, List, [], ◌∷◌, ◌++◌, Bytes, codes, ltb, ◌<◌, ◌≤◌, arith, if◌then◌else◌, ◌≡◌, refl,
}
use learn_vector_db.Decimal.{to_string, max_u64}
use learn_vector_db.Decimal.RoundTrip.{stoull-to_string}
use learn_vector_db.Wal.{wal_line, extract}
use learn_vector_db.Wal.ReadBack.{IsLine}

abbrev pub version_text : Bytes
version_text = codes "1.0"

-- An entry that `writeWALLogWithID` writes.
pub record LogEntry : Type 0 where
  pub log_id : ℕ
  pub text : Bytes

abbrev pub upsert_text : Bytes
upsert_text = codes "upsert"

unfoldable pub log_text : List LogEntry → Bytes
log_text [] = []
log_text (e ∷ es) = wal_line e.log_id (version_text) upsert_text e.text ++ log_text es

abbrev pub AllLines : List LogEntry → Type 0
AllLines [] = Unit
AllLines (e ∷ es) = IsLine e.log_id (version_text) upsert_text e.text × AllLines es

pub log_text-append : (es fs : List LogEntry) → log_text (es ++ fs) ≡ log_text es ++ log_text fs
unfolding log_text
log_text-append [] fs = refl
log_text-append (e ∷ es) fs = simp (log_text-append es fs, append_assoc)

pub log_text-one :
    (e : LogEntry) → log_text (e ∷ []) ≡ wal_line e.log_id version_text upsert_text e.text
unfolding log_text
log_text-one e = append-nil (wal_line e.log_id version_text upsert_text e.text)

pub AllLines-append : (es fs : List LogEntry) → AllLines es → AllLines fs → AllLines (es ++ fs)
AllLines-append [] fs h k = k
AllLines-append (e ∷ es) fs h k = (h.0, AllLines-append es fs h.1 k)

-- The identifier of the log that was read, when it began as `n`.
unfoldable pub last_id : List LogEntry → ℕ → ℕ
last_id [] n = n
last_id (e ∷ es) n = last_id es (if ltb n e.log_id then e.log_id else n)

abbrev pub AllAbove : ℕ → List LogEntry → Type 0
AllAbove n [] = Unit
AllAbove n (e ∷ es) = (n < e.log_id) × AllAbove n es

pub AllAbove-append :
    (n : ℕ) (es fs : List LogEntry) → AllAbove n es → AllAbove n fs → AllAbove n (es ++ fs)
AllAbove-append n [] fs h k = k
AllAbove-append n (e ∷ es) fs h k = (h.0, AllAbove-append n es fs h.1 k)

pub last_id_grows : (es : List LogEntry) (n : ℕ) → n ≤ last_id es n
unfolding last_id
last_id_grows [] n = omega arith
last_id_grows (e ∷ es) n = ground (arith, last_id_grows es (if ltb n e.log_id then e.log_id else n))

pub last_id-append :
    (es fs : List LogEntry) (n : ℕ) → last_id (es ++ fs) n ≡ last_id fs (last_id es n)
unfolding last_id
last_id-append [] fs n = refl
last_id-append (e ∷ es) fs n = last_id-append es fs (if ltb n e.log_id then e.log_id else n)

-- What `saveLastSnapshotID` writes reads back.
pub extract-to_string : (n : ℕ) → n ≤ max_u64 → extract (to_string n) ≡ n
unfolding extract
extract-to_string n h = rw (stoull-to_string n h, extract)
