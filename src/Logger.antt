-- ===== src/Logger.antt =====
-- logger.h and logger.cpp. spdlog is a parameter: `none` of `stdout_color_mt` is a name that is taken,
-- for which it throws. What is logged is not modelled.
use learn_vector_db.Prelude.{Option, none, some, Bytes, codes}
use learn_vector_db.Result.{Result, ok, throw, runtime_error, aborted}

pub data Level : Type 0 where
  trace debug info warn err critical off : Level

pub record Spdlog : Type 1 where
  pub Logger : Type 0
  pub stdout_color_mt : Bytes → Option Logger
  pub set_level : Level → Logger → Logger

module _ (s : Spdlog) where
  -- `GlobalLogger`, a null pointer until `init_global_logger`.
  abbrev pub GlobalLogger : Type 0
  GlobalLogger = Option s.Logger

  unfoldable pub init_global_logger : Result GlobalLogger
  init_global_logger = elim (s.stdout_color_mt (codes "GlobalLogger")) [
    | none ↦ throw runtime_error
    | some logger ↦ ok (some logger)
  ]

  unfoldable pub set_log_level : Level → GlobalLogger → Result GlobalLogger
  set_log_level level none = throw aborted
  set_log_level level (some logger) = ok (some (s.set_level level logger))
