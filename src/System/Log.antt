-- ===== src/System/Log.antt =====
-- Src/IACore/inc/IACore/Logger.hpp and Src/IACore/imp/cpp/Logger.cpp: Logger. A line is what the
-- formatting of the time, the tag and the message gives, which is a parameter; the output and the
-- file are the lists of what is written to them, the last first. The file is open or not.
use iacore.Base.{
  ℕ, Bool, true, false, Option, none, some, List, [], ◌∷◌, ◌++◌, Bytes, codes, leb, if◌then◌else◌,
}

pub data LogLevel : Type 0 where
  trace debug info warn error : LogLevel

pub level_value : LogLevel → ℕ
level_value trace = 0
level_value debug = 1
level_value info = 2
level_value warn = 3
level_value error = 4

pub level_tag : LogLevel → Bytes
level_tag trace = codes "TRACE"
level_tag debug = codes "DEBUG"
level_tag info = codes "INFO"
level_tag warn = codes "WARN"
level_tag error = codes "ERROR"

pub record Logger : Type 0 where
  pub m_log_level : LogLevel
  pub m_log_file : Option (List Bytes)
  pub output : List Bytes

pub new_logger : Logger
new_logger = record { m_log_level = info; m_log_file = none; output = [] }

pub set_log_level : LogLevel → Logger → Logger
set_log_level log_level l = record l { m_log_level = log_level }

pub terminate_logger : Logger → Logger
terminate_logger l = record l { m_log_file = none }

-- `opens` is whether the file can be opened, which empties it.
pub enable_logging_to_disk : (opens : Bool) → Logger → Bool × Logger
enable_logging_to_disk opens l =
    if opens
    then (true, record l { m_log_file = some [] })
    else (false, record l { m_log_file = none })

pub log_internal :
    (format : Bytes → Bytes → Bytes) → (prefix suffix : Bytes) → (tag msg : Bytes) → Logger → Logger
log_internal format prefix suffix tag msg l =
    let out_line = format tag msg in
    record l {
      output = (prefix ++ (out_line ++ suffix)) ∷ l.output;
      m_log_file = with_line out_line l.m_log_file;
    }
  where
    with_line : Bytes → Option (List Bytes) → Option (List Bytes)
    with_line line none = none
    with_line line (some lines) = some (line ∷ lines)

-- `log_trace`, …, `log_error`.
pub log :
    (format : Bytes → Bytes → Bytes)
    → (prefix suffix : Bytes) → LogLevel
    → (msg : Bytes) → Logger
    → Logger
unfolding level_value level_tag log_internal
log format prefix suffix level msg l =
    if leb (level_value l.m_log_level) (level_value level)
    then log_internal format prefix suffix (level_tag level) msg l
    else l
