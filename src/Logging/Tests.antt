-- ===== src/Logging/Tests.antt =====
-- Logging as src/dousi/rpc and src/dousi/jni set it up, over a spdlog that refuses a size of 0.
use dousi.Endpoint.Text.{to_string}
use dousi.Prelude.{
  [], ◌∷◌, ◌++◌, ◌*◌, ◌^◌, ◌%◌, ◌<◌, ◌≡◌, ◌≢◌, refl, false, none, some, codes, leb, ltb,
}
use dousi.Logging.{
  debug, info, warning, fatal, severity, Spdlog, spd_warn, Logging, initial, roll_size,
  get_mapped_severity, start_dousi_log, log,
}
use dousi.Logging.Filter.{written_if, log-start_dousi_log, log_no_provider}
use dousi.Logging.Size.{roll_size_lem}

abbrev spd : Spdlog
spd = record {
  rotating_logger = λ size count. ltb 0 size;
  format = λ file line text.
      codes "in " ++ (file ++ (codes " line:" ++ (to_string line ++ (b' ' ∷ text))));
  should_log = λ logger message. leb (severity logger) (severity message);
  should_log_lem = λ logger message. refl;
}

-- All that a statement has put together.
format_test :
    log spd
      (codes "a.h")
      7
      warning
      (codes "a" ∷ codes "b" ∷ [])
      (start_dousi_log spd warning 1 3 initial)
    ≡ some (record (start_dousi_log spd warning 1 3 initial) {
      lines = record { level = spd_warn; text = codes "in a.h line:7 ab" } ∷ [];
    })
unfolding log start_dousi_log to_string
format_test = refl

-- The native Java client starts at WARNING, and then again at DEBUG.
abbrev java : Logging
java = start_dousi_log spd debug 10 3 (start_dousi_log spd warning 10 3 initial)

log-start_dousi_log_example :
    log spd (codes "a.h") 7 info (codes "conn" ∷ codes "ected" ∷ []) java
    ≡ some (written_if false info (spd.format (codes "a.h") 7 (codes "connected")) java)
unfolding get_mapped_severity roll_size
log-start_dousi_log_example =
    log-start_dousi_log spd warning debug info 10 3 10 3 (codes "a.h") 7
      (codes "conn" ∷ codes "ected" ∷ []) refl

log_no_provider_test :
    log spd (codes "a.h") 7 fatal (codes "lost" ∷ []) (start_dousi_log spd warning 8 3 initial)
    ≡ none
unfolding roll_size
log_no_provider_test =
    log_no_provider spd warning fatal 8 3 (codes "a.h") 7 (codes "lost" ∷ []) refl

roll_size_lem_test :
    (roll_size 10 ≡ 2 * 2 ^ 30) × (10 % 4 ≢ 0 → 10 < 2 ^ 10 → 10 * 2 ^ 20 < roll_size 10)
roll_size_lem_test = roll_size_lem 10
