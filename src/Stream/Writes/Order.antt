-- ===== src/Stream/Writes/Order.antt =====
-- Calls of `Write` of src/dousi/core/stream/stream.cc that wait for each other.
use dousi.Prelude.{
  All-get_elem?, some_inj, ℕ, zero, suc, ◌≤◌, ◌<◌, ◌≡◌, refl, ap, sym, ◌∙◌, List, [], ◌∷◌, ◌++◌,
  map, append_assoc, append-nil, some, Bytes, length, take, drop, take-append-drop, get_elem?, All,
  arith,
}
use dousi.Stream.{AsioStream, start, write}
use dousi.Stream.Word.{ByteOrder}
use dousi.Stream.Transport.{AsyncRead}
use dousi.Stream.Loop.{serve}
use dousi.Stream.Loop.RoundTrip.{write_all, Fits, rounds, call_of, serve-write_all}
use dousi.Stream.Writes.{Socket, IsIdle, begin_write, write_some, Sent, nothing, begins, goes_on}

pub write_all-append :
    (o : ByteOrder) (ms : List (ℕ × Bytes)) (m : ℕ × Bytes)
    → write_all o (ms ++ m ∷ []) ≡ write_all o ms ++ write o m.0 m.1
write_all-append o [] m = append-nil _
write_all-append o (x ∷ ms) m =
    ap (◌++◌ (write o x.0 x.1)) (write_all-append o ms m)
    ∙ sym (append_assoc (write o x.0 x.1) (write_all o ms) (write o m.0 m.1))

-- Only the last write has bytes left: these.
abbrev pub left_of : List Bytes → Bytes
left_of [] = []
left_of (left ∷ before) = left

abbrev pub OneAtATime : List Bytes → Type 0
OneAtATime [] = Unit
OneAtATime (left ∷ before) = All (λ done. done ≡ []) before

All-left_of : (xs : List Bytes) → All (λ left. left ≡ []) xs → left_of xs ≡ []
All-left_of [] idle = refl
All-left_of (x ∷ xs) idle = idle.0

record Ordered (o : ByteOrder) (ms : List (ℕ × Bytes)) (s : Socket) : Type 0 where
  one : OneAtATime s.in_flight
  bytes : s.wire ++ left_of s.in_flight ≡ write_all o ms

goes_on-Ordered :
    (o : ByteOrder) (ms : List (ℕ × Bytes)) (wire : Bytes) (in_flight : List Bytes) (i n : ℕ)
    (left : Bytes)
    → Ordered o ms (record { wire = wire; in_flight = in_flight })
    → get_elem? in_flight i ≡ some left
    → 0 < n
    → n ≤ length left
    → Ordered o ms (write_some i n left (record { wire = wire; in_flight = in_flight }))
goes_on-Ordered o ms wire [] i n left h at some_ few = cc
goes_on-Ordered o ms wire (x ∷ xs) zero n left h at some_ few = record {
  one = h.one;
  bytes =
      append_assoc wire (take n left) (drop n left)
      ∙ ap (◌++◌ wire) (take-append-drop n left ∙ sym (some_inj at))
      ∙ h.bytes;
}
goes_on-Ordered o ms wire (x ∷ xs) (suc i) n left h at some_ few =
    absurd (omega (arith, ap length (All-get_elem? (λ done. done ≡ []) xs i h.one at)))

Sent-Ordered :
    (o : ByteOrder) {ms : List (ℕ × Bytes)} {s : Socket} → Sent o IsIdle ms s → Ordered o ms s
unfolding begin_write
Sent-Ordered o nothing = record { one = tt; bytes = refl }
Sent-Ordered o (begins {ms} {s} sent idle m) =
    let before = Sent-Ordered o sent in
    record {
      one = idle;
      bytes =
          ap (λ xs. xs ++ write o m.0 m.1)
            (sym (append-nil s.wire)
              ∙ ap (◌++◌ s.wire) (sym (All-left_of s.in_flight idle))
              ∙ before.bytes)
          ∙ sym (write_all-append o ms m);
    }
Sent-Ordered o (goes_on {ms} {s} sent i n left at some_ few) =
    goes_on-Ordered o ms s.wire s.in_flight i n left (Sent-Ordered o sent) at some_ few

-- If `Write` is called only while each earlier write is done: at every moment, whatever pieces the socket
-- has taken, the wire is a beginning of the frames one after the other, and what is missing are the bytes
-- that the last write has left, the other writes being done.
pub Sent-write_all :
    (o : ByteOrder) {ms : List (ℕ × Bytes)} {s : Socket}
    → Sent o IsIdle ms s
    → (s.wire ++ left_of s.in_flight ≡ write_all o ms) × OneAtATime s.in_flight
Sent-write_all o sent = let h = Sent-Ordered o sent in (h.bytes, h.one)

-- If `Write` is called only while each earlier write is done, then once all is done, whatever pieces
-- the socket has taken: the wire holds the frames one after the other, and the peer's callback is given
-- every message, in order and unchanged up to the object id modulo 2 ^ 32, for bodies below 2 ^ 32
-- bytes.
pub Sent-IsIdle :
    (t : AsyncRead) (o : ByteOrder) (peer : AsioStream) {ms : List (ℕ × Bytes)} {s : Socket}
    → Sent o IsIdle ms s
    → IsIdle s
    → All Fits ms
    → (s.wire ≡ write_all o ms)
      × ((serve t o (rounds ms 1) (start peer) s.wire).calls ≡ map (call_of peer.stream_id) ms)
Sent-IsIdle t o peer {ms} {s} sent idle fits =
    let ordered = Sent-Ordered o sent in
    let whole =
      sym (append-nil s.wire)
      ∙ ap (◌++◌ s.wire) (sym (All-left_of s.in_flight idle))
      ∙ ordered.bytes in
    (
      whole,
      ap (λ wire. (serve t o (rounds ms 1) (start peer) wire).calls)
            (whole ∙ sym (append-nil (write_all o ms)))
          ∙ (serve-write_all t o peer ms [] fits (omega arith)).0,
    )
