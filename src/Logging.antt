-- ===== src/Logging.antt =====
-- src/dousi/common/logging.h and logging.cc, over the spdlog library (a parameter).
pub mod Filter
pub mod Size
mod Tests
use dousi.Prelude.{
  ℕ, ◌*◌, ◌%◌, ◌^◌, ◌≡◌, Bool, true, false, List, [], ◌∷◌, ◌++◌, Option, none, some, Bytes, leb,
  if◌then◌else◌,
}

pub data LogLevel : Type 0 where
  debug info warning fatal nolevel : LogLevel

-- The value of the enumerator.
abbrev pub rank : LogLevel → ℕ
rank debug = 0
rank info = 1
rank warning = 2
rank fatal = 3
rank nolevel = 4

-- The levels of spdlog that are used.
pub data SpdlogLevel : Type 0 where
  spd_debug spd_info spd_warn spd_critical : SpdlogLevel

abbrev pub severity : SpdlogLevel → ℕ
severity spd_debug = 1
severity spd_info = 2
severity spd_warn = 3
severity spd_critical = 5

-- `rotating_logger_mt` gives a logger, or throws (`false`), for a maximal size and number of files.
-- `format` fills a file, a line and a text into "in {} line:{} {}". A logger writes a message exactly if the message is at least as severe as the logger's level.
pub record Spdlog : Type 0 where
  pub rotating_logger : ℕ → ℕ → Bool
  pub format : Bytes → ℕ → Bytes → Bytes
  pub should_log : SpdlogLevel → SpdlogLevel → Bool
  pub should_log_lem :
      (logger message : SpdlogLevel)
      → should_log logger message ≡ leb (severity logger) (severity message)

unfoldable pub get_mapped_severity : LogLevel → SpdlogLevel
get_mapped_severity debug = spd_debug
get_mapped_severity info = spd_info
get_mapped_severity warning = spd_warn
get_mapped_severity fatal = spd_critical
get_mapped_severity nolevel = spd_critical

pub record Provider : Type 0 where
  pub level : SpdlogLevel
  pub max_size : ℕ
  pub max_files : ℕ

pub record Line : Type 0 where
  pub level : SpdlogLevel
  pub text : Bytes

-- The static members of `DousiLog`, and the lines that went to the log file.
pub record Logging : Type 0 where
  pub severity_threshold : LogLevel
  pub logging_provider : Option Provider  -- nullptr is `none`
  pub lines : List Line

abbrev pub initial : Logging
initial = record { severity_threshold = nolevel; logging_provider = none; lines = [] }

-- `1024 * 1024 * 1024 * log_file_roll_size_mb`: an int times a uint32_t is a uint32_t.
unfoldable pub roll_size : ℕ → ℕ
roll_size mb = 2 ^ 30 * mb % 2 ^ 32

-- The first call that succeeds makes the logger. An exception of spdlog is caught, and printed.
pub make_provider : Spdlog → LogLevel → ℕ → ℕ → Option Provider
unfolding get_mapped_severity roll_size
make_provider spd level mb count =
    if spd.rotating_logger (roll_size mb) count
    then some
        (record { level = get_mapped_severity level; max_size = roll_size mb; max_files = count })
    else none

or_made : Option Provider → Option Provider → Option Provider
or_made none made = made
or_made (some p) made = some p

-- `StartDousiLog`
unfoldable pub start_dousi_log : Spdlog → LogLevel → ℕ → ℕ → Logging → Logging
unfolding make_provider or_made
start_dousi_log spd level mb count s = record s {
  severity_threshold = level;
  logging_provider = or_made s.logging_provider (make_provider spd level mb count);
}

unfoldable pub is_level_enabled : LogLevel → Logging → Bool
is_level_enabled level s = leb (rank s.severity_threshold) (rank level)

unfoldable pub to_provider :
    Spdlog → SpdlogLevel → Bytes → Logging → Option Provider → Option Logging
to_provider spd level text s none = none
to_provider spd level text s (some p) =
    if spd.should_log p.level level
    then some (record s { lines = s.lines ++ (record { level = level; text = text } ∷ []) })
    else some s

-- A `DousiLog` with the `ss_` of its base class.
pub record DousiLog : Type 0 where
  pub is_enabled : Bool
  pub log_level : LogLevel
  pub filename : Bytes
  pub line_number : ℕ
  pub ss : Bytes

-- The constructor.
unfoldable pub new_dousi_log : Bytes → ℕ → LogLevel → Logging → DousiLog
unfolding is_level_enabled
new_dousi_log file_name line_number severity s = record {
  is_enabled = leb (rank s.severity_threshold) (rank severity);
  log_level = severity;
  filename = file_name;
  line_number = line_number;
  ss = [];
}

-- `<<`, of a value that is printed as this text.
unfoldable pub put : Bytes → DousiLog → DousiLog
put text d = if d.is_enabled then record d { ss = d.ss ++ text } else d

unfoldable pub put_all : List Bytes → DousiLog → DousiLog
unfolding put
put_all [] d = d
put_all (text ∷ texts) d = put_all texts (put text d)

-- The destructor. `none`: the logger is a null pointer.
unfoldable pub end_dousi_log : Spdlog → DousiLog → Logging → Option Logging
unfolding to_provider get_mapped_severity
end_dousi_log spd d s =
    if d.is_enabled
    then to_provider spd (get_mapped_severity d.log_level)
        (spd.format d.filename d.line_number d.ss) s s.logging_provider
    else some s

-- The statement `DOUSI_LOG(level) << text << ...` in this line of this file.
unfoldable pub log : Spdlog → Bytes → ℕ → LogLevel → List Bytes → Logging → Option Logging
unfolding put_all new_dousi_log end_dousi_log is_level_enabled
log spd file line level texts s =
    if is_level_enabled level s
    then end_dousi_log spd (put_all texts (new_dousi_log file line level s)) s
    else some s

-- The statement `DOUSI_CHECK(condition) << text << ...`, which goes on after a failure; `failed` is the
-- text that begins with " Check failed: ".
unfoldable pub check : Spdlog → Bytes → ℕ → Bool → Bytes → List Bytes → Logging → Option Logging
unfolding put_all new_dousi_log end_dousi_log
check spd file line true failed texts s = some s
check spd file line false failed texts s =
    end_dousi_log spd (put_all (failed ∷ texts) (new_dousi_log file line fatal s)) s
