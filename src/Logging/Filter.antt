-- ===== src/Logging/Filter.antt =====
-- Which messages of src/dousi/common/logging.cc reach the log file.
use dousi.Prelude.{
  ap, sym, ◌∙◌, List, append-nil, append_assoc, inl, inr, Bool-cases, ℕ, ◌≡◌, refl, Bool, true,
  false, ◌&&◌, ◌++◌, [], ◌∷◌, none, some, Bytes, leb, if◌then◌else◌,
}
use dousi.Logging.{
  LogLevel, rank, severity, Spdlog, get_mapped_severity, Logging, initial, roll_size,
  start_dousi_log, DousiLog, new_dousi_log, put, put_all, end_dousi_log, to_provider,
  is_level_enabled, log,
}

-- What the log file gets of a message, if `accepted`.
abbrev pub written_if : Bool → LogLevel → Bytes → Logging → Logging
written_if accepted level text s =
    if accepted
    then record s {
      lines = s.lines ++ (record { level = get_mapped_severity level; text = text } ∷ []);
    }
    else s

abbrev pub concat : List Bytes → Bytes
concat [] = []
concat (text ∷ texts) = text ++ concat texts

-- What `<<` collects, where the level is enabled.
put_all-enabled :
    (texts : List Bytes) (d : DousiLog)
    → d.is_enabled ≡ true
    → put_all texts d ≡ record d { ss = d.ss ++ concat texts }
unfolding put_all put
put_all-enabled [] d on = ap (λ ss. record d { ss = ss }) (sym (append-nil d.ss))
put_all-enabled (text ∷ texts) d on =
    ap (put_all texts) (rw on refl)
    ∙ put_all-enabled texts (record d { ss = d.ss ++ text }) on
    ∙ ap (λ ss. record d { ss = ss }) (append_assoc d.ss text (concat texts))

-- Where it is not, nothing.
put_all-disabled : (texts : List Bytes) (d : DousiLog) → d.is_enabled ≡ false → put_all texts d ≡ d
unfolding put_all put
put_all-disabled [] d off = refl
put_all-disabled (text ∷ texts) d off =
    ap (put_all texts) (rw off refl) ∙ put_all-disabled texts d off

-- A statement gives the logger its texts as one message, if its level is enabled.
pub log-is_level_enabled :
    (spd : Spdlog) (file : Bytes) (line : ℕ) (level : LogLevel) (texts : List Bytes) (s : Logging)
    → log spd file line level texts s ≡ (
        if leb (rank s.severity_threshold) (rank level)
        then to_provider spd
            (get_mapped_severity level)
            (spd.format file line (concat texts))
            s
            s.logging_provider
        else some s)
unfolding log end_dousi_log new_dousi_log is_level_enabled
log-is_level_enabled spd file line level texts s =
    elim (Bool-cases (leb (rank s.severity_threshold) (rank level))) [
      | inl on ↦
          rw
            (
              on,
              put_all-enabled texts (record (new_dousi_log file line level s) { is_enabled = true })
                  refl,
            )
            refl
      | inr off ↦ rw off refl
    ]

-- Two calls of `StartDousiLog`, of which the first makes the logger: a statement is written, its texts
-- put together, exactly if its level is at least as severe as the level of the second call and, as
-- spdlog sees it, as that of the first. So a later call can raise the level, and cannot lower it.
pub log-start_dousi_log :
    (spd : Spdlog) (a b level : LogLevel) (mb count mb' count' : ℕ) (file : Bytes) (line : ℕ)
    (texts : List Bytes)
    → spd.rotating_logger (roll_size mb) count ≡ true
    → let s = start_dousi_log spd b mb' count' (start_dousi_log spd a mb count initial) in
      log spd file line level texts s
      ≡ some (
          written_if
            (leb (rank b) (rank level)
              && leb (severity (get_mapped_severity a)) (severity (get_mapped_severity level)))
            level
            (spd.format file line (concat texts))
            s)
unfolding start_dousi_log to_provider
log-start_dousi_log spd a b level mb count mb' count' file line texts made =
    let s = start_dousi_log spd b mb' count' (start_dousi_log spd a mb count initial) in
    log-is_level_enabled spd file line level texts s
    ∙ rw (made, spd.should_log_lem (get_mapped_severity a) (get_mapped_severity level))
        (two_tests (leb (rank b) (rank level))
          (leb (severity (get_mapped_severity a)) (severity (get_mapped_severity level))) _ _)
  where
    two_tests :
        (enabled accepted : Bool) (x y : Logging)
        → (if enabled then (if accepted then some x else some y) else some y)
          ≡ some (if enabled && accepted then x else y)
    two_tests true true x y = refl
    two_tests true false x y = refl
    two_tests false accepted x y = refl

-- If spdlog throws when the logger is made, the exception is caught; but then the first statement
-- whose level is enabled uses a null pointer.
pub log_no_provider :
    (spd : Spdlog) (a level : LogLevel) (mb count : ℕ) (file : Bytes) (line : ℕ)
    (texts : List Bytes)
    → spd.rotating_logger (roll_size mb) count ≡ false
    → let s = start_dousi_log spd a mb count initial in
      log spd file line level texts s ≡ (if leb (rank a) (rank level) then none else some s)
unfolding start_dousi_log to_provider
log_no_provider spd a level mb count file line texts failed =
    log-is_level_enabled spd file line level texts (start_dousi_log spd a mb count initial)
    ∙ rw failed refl
