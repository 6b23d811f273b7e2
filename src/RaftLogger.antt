-- ===== src/RaftLogger.antt =====
-- `logger_wrapper` of raft_logger_wrapper.h: the logger that NuRaft is given. `SimpleLogger`, a library
-- whose copy the repository holds, is a parameter.
use learn_vector_db.Prelude.{ℕ, Bool, true, Option, none, some, Bytes, codes, ltb, if◌then◌else◌}
use learn_vector_db.Json.{ℤ, pos, negsuc, c_str}

pub record SimpleLogger : Type 1 where
  pub Log : Type 0
  -- the constructor: the file, the most log elements, the limit of a file's size, the most files
  pub new_log : Bytes → ℕ → ℕ → ℕ → Log
  pub set_log_level : ℤ → Log → Log
  pub get_log_level : Log → ℤ
  pub set_disp_level : ℤ → Log → Log
  pub set_crash_dump_path : Bytes → Bool → Log → Log
  pub start : Log → Log
  pub put : ℤ → Bytes → Bytes → ℕ → Bytes → Log → Log
  pub flush_all : Log → Log
  pub stop : Log → Log

-- What `set_level` makes of a level.
unfoldable pub level_of : ℤ → ℤ
level_of (negsuc n) = pos 1
level_of (pos n) = if ltb 6 n then pos 6 else pos n

module _ (s : SimpleLogger) where
  -- `my_log_`, which may be null.
  abbrev pub LoggerWrapper : Type 0
  LoggerWrapper = Option s.Log

  unfoldable pub new_logger_wrapper : Bytes → ℤ → LoggerWrapper
  new_logger_wrapper log_file log_level = some (
      s.start (
        s.set_crash_dump_path (codes "./") true (
          s.set_disp_level (negsuc 0)
            (s.set_log_level log_level (s.new_log log_file 1024 (33554432) 10)))))

  -- The wrapper without its logger, and the logger as it is deleted.
  unfoldable pub destroy : LoggerWrapper → LoggerWrapper × Option s.Log
  destroy none = (none, none)
  destroy (some log) = (none, some (s.stop (s.flush_all log)))

  unfoldable pub put_details : ℤ → Bytes → Bytes → ℕ → Bytes → LoggerWrapper → LoggerWrapper
  put_details level source_file func_name line_number msg none = none
  put_details level source_file func_name line_number msg (some log) =
      some (s.put level source_file func_name line_number (c_str msg) log)

  unfoldable pub set_level : ℤ → LoggerWrapper → LoggerWrapper
  set_level l none = none
  set_level l (some log) = some (s.set_log_level (level_of l) log)

  unfoldable pub get_level : LoggerWrapper → ℤ
  get_level none = pos 0
  get_level (some log) = s.get_log_level log
