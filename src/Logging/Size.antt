-- ===== src/Logging/Size.antt =====
-- The size at which src/dousi/common/logging.cc rolls the log file.
use dousi.Prelude.{ℕ, ◌*◌, ◌%◌, ◌^◌, ◌<◌, ◌≡◌, ◌≢◌, arith}
use dousi.Logging.{roll_size}

-- A size "in MB" is taken in units of 2 ^ 30 bytes, modulo 4 of them: the product wraps as a uint32_t.
-- Below 1024 and other than a multiple of 4, it is more than that number of MB.
pub roll_size_lem :
    (mb : ℕ)
    → (roll_size mb ≡ mb % 4 * 2 ^ 30) × (mb % 4 ≢ 0 → mb < 2 ^ 10 → mb * 2 ^ 20 < roll_size mb)
unfolding roll_size
roll_size_lem mb = (omega arith, λ h k. omega arith)
