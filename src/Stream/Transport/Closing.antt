-- ===== src/Stream/Transport/Closing.antt =====
-- A transport that meets the contract: the bytes that are there, and then end of file.
use dousi.Prelude.{
  ℕ, ◌<◌, ◌≡◌, ◌++◌, [], Bytes, length, take, drop, leb, if◌then◌else◌, take-append, drop-append,
  take-append-drop, length-take_of_le, length-append, arith,
}
use dousi.Stream.Transport.Defs.{Completion, failed, received, AsyncRead}

-- boost::asio::error::eof
abbrev pub eof : ℕ
eof = 2

abbrev pub read_wire : ℕ → Bytes → Completion × Bytes
read_wire n wire =
    if leb n (length wire) then (received (take n wire), drop n wire) else (failed eof, [])

pub read_wire_full : (xs rest : Bytes) → read_wire (length xs) (xs ++ rest) ≡ (received xs, rest)
read_wire_full xs rest =
    ground (arith, length-append xs rest, take-append xs rest, drop-append xs rest)

pub read_wire_short :
    (n : ℕ) (wire : Bytes) → length wire < n → (e : ℕ) × ((read_wire n wire).0 ≡ failed e)
read_wire_short n wire h = (eof, ground arith)

pub read_wire_exact :
    (n : ℕ) (wire xs : Bytes)
    → (read_wire n wire).0 ≡ received xs
    → (length xs ≡ n) × (wire ≡ xs ++ (read_wire n wire).1)
read_wire_exact n wire xs h = ground (arith, length-take_of_le n wire, take-append-drop n wire)

abbrev pub closing : AsyncRead
closing = record {
  read = read_wire;
  read_full = read_wire_full;
  read_short = read_wire_short;
  read_exact = read_wire_exact;
}
