-- ===== src/Raft.antt =====
-- The parts of NuRaft that the log store handles: buffers and log entries. The library is not part
-- of the repository, so they are a parameter; `RaftLaws` is what the log store relies on.
use learn_vector_db.Prelude.{ℕ, ◌<◌, ◌^◌, ◌≡◌, Bool, Option, some, ◌++◌, Bytes}
use learn_vector_db.Json.{ℤ, pos}

pub record Raft : Type 1 where
  -- a buffer whose position is at its start, with its bytes
  pub Buffer : Type 0
  pub clone : Buffer → Buffer
  pub contents : Buffer → Bytes
  -- `buffer::alloc(sz_ulong)`
  pub blank : Buffer
  pub ValType : Type 0
  pub is_app_log : ValType → Bool
  pub Entry : Type 0
  -- the constructors `log_entry(term, buf)` and `log_entry(term, buf, type, time, crc?, crc)`
  pub plain_entry : ℕ → Buffer → Entry
  pub log_entry : ℕ → Buffer → ValType → ℕ → Bool → ℕ → Entry
  pub get_term : Entry → ℕ
  pub get_buf : Entry → Buffer
  pub get_val_type : Entry → ValType
  pub get_timestamp : Entry → ℕ
  pub has_crc32 : Entry → Bool
  pub get_crc32 : Entry → ℕ
  pub serialize : Entry → Bytes
  pub deserialize : Bytes → Entry
  -- `put(int32)` and `get_int`; `none` where too few bytes are left
  pub put_int : ℤ → Bytes
  pub get_int : Bytes → Option (ℤ × Bytes)

pub record RaftLaws (r : Raft) : Type 0 where
  pub clone_lem : (b : r.Buffer) → r.clone b ≡ b
  pub rebuild :
      (e : r.Entry)
      → r.log_entry
          (r.get_term e)
          (r.get_buf e)
          (r.get_val_type e)
          (r.get_timestamp e)
          (r.has_crc32 e)
          (r.get_crc32 e)
        ≡ e
  -- Only the term, the type and the buffer of an entry are serialized.
  pub same_term : (e : r.Entry) → r.get_term (r.deserialize (r.serialize e)) ≡ r.get_term e
  pub same_buf : (e : r.Entry) → r.get_buf (r.deserialize (r.serialize e)) ≡ r.get_buf e
  pub same_val_type :
      (e : r.Entry) → r.get_val_type (r.deserialize (r.serialize e)) ≡ r.get_val_type e
  pub get_int-put_int :
      (n : ℕ) (rest : Bytes)
      → n < 2 ^ 31
      → r.get_int (r.put_int (pos n) ++ rest) ≡ some (pos n, rest)
