-- ===== src/Stream/Loop/Order.antt =====
-- src/dousi/core/stream/stream.cc says "We should make sure the endian here", and does not: what
-- becomes of a header between hosts of different byte order.
use dousi.Prelude.{ℕ, ◌^◌, ◌<◌, ◌≤◌, ◌≡◌, ◌≢◌, refl, Bytes, length}
use dousi.Stream.{AsioStream, header, body, complete, on_header}
use dousi.Stream.Word.{ByteOrder, word_bytes, swapped_word}
use dousi.Stream.Transport.{received}

-- If the hosts differ in byte order, the header of any message of 1 to 65535 bytes makes the reader
-- wait for a body of 65536 bytes or more.
pub complete-word_bytes_mixed :
    (sender receiver : ByteOrder) (s : AsioStream) (oid : ℕ) (bytes : Bytes)
    → sender ≢ receiver
    → 0 < length bytes
    → length bytes < 2 ^ 16
    → (size : ℕ) × ((complete receiver s
          (header oid)
          (received (word_bytes sender (length bytes)))).0.reading
        ≡ body oid size)
      × (2 ^ 16 ≤ size)
unfolding complete on_header
complete-word_bytes_mixed sender receiver s oid bytes ne pos small =
    (_, refl, swapped_word sender receiver (length bytes) ne pos small)
