-- ===== src/Executor/Request.antt =====
-- src/dousi/core/executor/dousi_request.h and src/dousi/core/common/options.h.
use dousi.Prelude.{ℕ, Bytes}
use dousi.Msgpack.{Msgpack}

pub record ExecutorOptions : Type 0 where
  pub io_thread_num : ℕ  -- uint16_t
  pub work_thread_num : ℕ  -- uint16_t

abbrev pub default_options : ExecutorOptions
default_options = record { io_thread_num = 8; work_thread_num = 4 }

pub record DousiRequest (m : Msgpack) : Type 0 where
  pub object_id : ℕ  -- uint32_t
  pub stream_id : ℕ  -- uint64_t
  pub unpacked : m.Object
  pub method_name : Bytes

pub record DousiResponse : Type 0 where
  pub object_id : ℕ  -- uint32_t
  pub stream_id : ℕ  -- uint64_t
  pub result : Bytes
