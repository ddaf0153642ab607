-- ===== src/Stream/Writes.antt =====
-- The writes of src/dousi/core/stream/stream.cc on their way to the socket. As its documentation says,
-- boost::asio::async_write hands its bytes over in any number of steps and leaves it to the program to
-- make no other write before it is done; `Write` is called by all threads that have something to send.
pub mod Order
pub mod Torn
mod Tests
use dousi.Prelude.{
  ℕ, ◌≤◌, ◌<◌, ◌≡◌, List, [], ◌∷◌, ◌++◌, Option, some, Bytes, length, take, drop, get_elem?, set,
  All, zero, suc,
}
use dousi.Stream.{write}
use dousi.Stream.Word.{ByteOrder}

-- What the socket has taken, and of each write, the last one first, what it has still to hand over.
pub record Socket : Type 0 where
  pub wire : Bytes
  pub in_flight : List Bytes

abbrev pub connected : Socket
connected = record { wire = []; in_flight = [] }

-- Each write is done.
abbrev pub IsIdle : Socket → Type 0
IsIdle s = All (λ left. left ≡ []) s.in_flight

-- `Write`
unfoldable pub begin_write : ByteOrder → ℕ × Bytes → Socket → Socket
begin_write o (object_id, bytes) s = record s { in_flight = write o object_id bytes ∷ s.in_flight }

-- The i-th write hands n of its bytes over.
abbrev pub write_some : ℕ → ℕ → Bytes → Socket → Socket
write_some i n left s = record {
  wire = s.wire ++ take n left;
  in_flight = set s.in_flight i (drop n left);
}

-- The socket after calls of `Write` with these messages, each made where the condition on the socket
-- held.
pub data Sent (o : ByteOrder) (May : Socket → Type 0) : List (ℕ × Bytes) → Socket → Type 0 where
  nothing : Sent o May [] connected
  begins :
      {ms : List (ℕ × Bytes)} {s : Socket}
      → Sent o May ms s
      → May s
      → (m : ℕ × Bytes) → Sent o May (ms ++ m ∷ []) (begin_write o m s)
  goes_on :
      {ms : List (ℕ × Bytes)} {s : Socket}
      → Sent o May ms s
      → (i n : ℕ) (left : Bytes) → get_elem? s.in_flight i ≡ some left
      → 0 < n
      → n ≤ length left
      → Sent o May ms (write_some i n left s)

-- No condition: `Write` has none.
abbrev pub Always : Socket → Type 0
Always s = Unit
