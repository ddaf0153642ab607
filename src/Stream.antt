-- ===== src/Stream.antt =====
-- src/dousi/core/stream/stream.h and stream.cc: the framed, full-duplex stream over one TCP socket.
-- A frame is the object id, the size of the body (both uint32_t, as they lie in the memory of the
-- sender) and the body. Stream/Word has the memory layout, Stream/Transport what is relied on of
-- boost::asio::async_read.
pub mod Word
pub mod Transport
pub mod Loop
pub mod Writes
pub mod Ids
mod Tests
use dousi.Prelude.{ℕ, ◌%◌, ◌^◌, ◌++◌, Bool, true, false, Option, none, some, Bytes, length}
use Word.{ByteOrder, word_bytes, word_of, word_size}
use Transport.{Completion, failed, received}

-- What one call of `invocation_callback_` is given.
pub record Invocation : Type 0 where
  pub stream_id : ℕ
  pub object_id : ℕ
  pub body : Bytes

-- The read that is outstanding on the socket. `idle`: `Start` was not called yet; `stopped`: a read
-- failed, and its handler posted no other.
pub data Reading : Type 0 where
  idle : Reading
  object_id : Reading
  header : (object_id : ℕ) → Reading
  body : (object_id : ℕ) (body_size : ℕ) → Reading
  stopped : Reading

pub record AsioStream : Type 0 where
  pub stream_id : ℕ
  pub reading : Reading
  pub socket_open : Bool

-- The constructor.
abbrev pub new_stream : ℕ → AsioStream
new_stream id = record { stream_id = id; reading = idle; socket_open = true }

-- `DoReadObjectID`, `DoReadHeader` and `DoReadBody` post one read each.
abbrev pub do_read_object_id : AsioStream → AsioStream
do_read_object_id s = record s { reading = object_id }

abbrev pub do_read_header : AsioStream → ℕ → AsioStream
do_read_header s oid = record s { reading = header oid }

abbrev pub do_read_body : AsioStream → ℕ → ℕ → AsioStream
do_read_body s oid size = record s { reading = body oid size }

abbrev pub start : AsioStream → AsioStream
start s = do_read_object_id s

-- The completion handlers. A failed read is logged, and nothing else is posted.
pub on_object_id : ByteOrder → AsioStream → Completion → AsioStream × Option Invocation
on_object_id o s (failed e) = (record s { reading = stopped }, none)
on_object_id o s (received bytes) = (do_read_header s (word_of o bytes), none)

pub on_header : ByteOrder → AsioStream → ℕ → Completion → AsioStream × Option Invocation
on_header o s oid (failed e) = (record s { reading = stopped }, none)
on_header o s oid (received bytes) = (do_read_body s oid (word_of o bytes), none)

pub on_body : AsioStream → ℕ → Completion → AsioStream × Option Invocation
on_body s oid (failed e) = (record s { reading = stopped }, none)
on_body s oid (received bytes) =
    (do_read_object_id s, some (record { stream_id = s.stream_id; object_id = oid; body = bytes }))

-- The handler of the read that is outstanding.
pub complete : ByteOrder → AsioStream → Reading → Completion → AsioStream × Option Invocation
unfolding on_object_id on_header on_body
complete o s object_id c = on_object_id o s c
complete o s (header oid) c = on_header o s oid c
complete o s (body oid size) c = on_body s oid c
complete o s idle c = (s, none)
complete o s stopped c = (s, none)

-- How many bytes the outstanding read waits for.
abbrev pub wanted : Reading → Option ℕ
wanted object_id = some word_size
wanted (header oid) = some word_size
wanted (body oid size) = some size
wanted idle = none
wanted stopped = none

-- What `Write` puts on the wire. Both numbers pass through a uint32_t: the parameter `object_id`,
-- to which the callers give a uint64_t, and `header_ptr`, which is made from a size_t.
pub write : ByteOrder → ℕ → Bytes → Bytes
write o oid bytes = word_bytes o (oid % 2 ^ 32) ++ (word_bytes o (length bytes % 2 ^ 32) ++ bytes)

-- The completion handler of `Write` closes the socket after an error.
abbrev pub on_written : AsioStream → Bool → AsioStream
on_written s true = record s { socket_open = false }
on_written s false = s
