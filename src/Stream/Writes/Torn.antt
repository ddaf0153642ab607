-- ===== src/Stream/Writes/Torn.antt =====
-- Two calls of `Write` of src/dousi/core/stream/stream.cc at once: two write threads of the executor with
-- responses for one stream, or two threads that call through one client.
use dousi.Prelude.{
  some, ℕ, suc, ◌%◌, ◌^◌, ◌≤◌, ◌<◌, ◌≡◌, refl, ap, sym, ◌∙◌, [], ◌∷◌, ◌++◌, append_assoc,
  append-nil, Bytes, length, length-append, take, drop, take_of_le, take-append, drop-append,
  take-append-drop, length-take_of_le, arith,
}
use dousi.Stream.{AsioStream, start, write}
use dousi.Stream.Word.{ByteOrder, word_bytes, length-word_bytes}
use dousi.Stream.Transport.{AsyncRead}
use dousi.Stream.Loop.{serve}
use dousi.Stream.Loop.RoundTrip.{write_all, Fits, call_of, then_serve, serve_frames}
use dousi.Stream.Writes.{Socket, IsIdle, begin_write, Sent, nothing, begins, goes_on, Always}

drop-length : (xs : Bytes) → drop (length xs) xs ≡ []
drop-length [] = refl
drop-length (x ∷ xs) = drop-length xs

-- The object id and the size before a body.
abbrev words : ByteOrder → ℕ → Bytes → Bytes
words o oid bytes = word_bytes o (oid % 2 ^ 32) ++ word_bytes o (length bytes % 2 ^ 32)

length-words : (o : ByteOrder) (oid : ℕ) (bytes : Bytes) → 0 < length (words o oid bytes)
length-words o oid bytes = omega (
  arith,
  length-append (word_bytes o (oid % 2 ^ 32)) (word_bytes o (length bytes % 2 ^ 32)),
  length-word_bytes o (oid % 2 ^ 32),
)

write-words : (o : ByteOrder) (m : ℕ × Bytes) → write o m.0 m.1 ≡ words o m.0 m.1 ++ m.1
unfolding write
write-words o (oid, bytes) = sym (append_assoc (word_bytes o (oid % 2 ^ 32)) _ bytes)

frame_some : (o : ByteOrder) (m : ℕ × Bytes) → 0 < length (write o m.0 m.1)
frame_some o m = omega (
  arith,
  ap length (write-words o m),
  length-append (words o m.0 m.1) m.1,
  length-words o m.0 m.1,
)

-- The first write is interrupted after the bytes xs and goes on with ys once the other one is done.
interrupted :
    (o : ByteOrder) (a b : ℕ × Bytes) (xs ys : Bytes)
    → write o a.0 a.1 ≡ xs ++ ys
    → 0 < length xs
    → 0 < length ys
    → (s : Socket) × Sent o Always (a ∷ b ∷ []) s
      × IsIdle s
      × (s.wire ≡ xs ++ (write o b.0 b.1 ++ ys))
unfolding begin_write
interrupted o a b xs ys cut some_ more =
    let frame = write o b.0 b.1 in
    let n = length xs in
    let enough : n ≤ length (write o a.0 a.1) = omega (arith, ap length cut, length-append xs ys) in
    let left = ap (drop n) cut ∙ drop-append xs ys in
    let all_frame : length frame ≤ length frame = omega arith in
    let all_ys : length ys ≤ length ys = omega arith in
    let begun = goes_on (begins nothing tt a) 0 n (write o a.0 a.1) refl some_ enough in
    let other =
      goes_on (begins begun tt b) 0 (length frame) frame refl (frame_some o b) all_frame in
    let done = goes_on other 1 (length ys) ys (ap some left) more all_ys in
    (
      _,
      done,
      (drop-length frame, (drop-length ys, tt)),
      rw
          (
            cut,
            take-append xs ys,
            take_of_le (length frame) frame all_frame,
            take_of_le (length ys) ys all_ys,
          )
          (append_assoc xs frame ys),
    )

-- What follows the size of the first message: the first k bytes of its body, then all of the other
-- message, then the rest of the body.
abbrev pub torn : ByteOrder → ℕ × Bytes → ℕ × Bytes → ℕ → Bytes
torn o a b k = take k a.1 ++ (write o b.0 b.1 ++ drop k a.1)

length-torn :
    (o : ByteOrder) (a b : ℕ × Bytes) (k : ℕ) → k < length a.1 → length a.1 ≤ length (torn o a b k)
length-torn o a b k inside = omega (
  arith,
  ap length (take-append-drop k a.1),
  length-append (take k a.1) (drop k a.1),
  length-append (take k a.1) (write o b.0 b.1 ++ drop k a.1),
  length-append (write o b.0 b.1) (drop k a.1),
)

-- A frame under the header of another body of its length.
words-write_all :
    (o : ByteOrder) (oid : ℕ) (bytes other : Bytes)
    → length bytes ≤ length other
    → words o oid bytes ++ other
      ≡ write_all o ((oid, take (length bytes) other) ∷ []) ++ drop (length bytes) other
words-write_all o oid bytes other enough =
    let size = length bytes in
    let front = take size other in
    ap (◌++◌ (words o oid bytes)) (sym (take-append-drop size other))
    ∙ sym (append_assoc (words o oid bytes) front (drop size other))
    ∙ ap
        (λ n.
          ((word_bytes o (oid % 2 ^ 32) ++ word_bytes o (n % 2 ^ 32)) ++ front) ++ drop size other)
        (sym (length-take_of_le size other enough))
    ∙ ap (λ xs. xs ++ drop size other)
        (sym (write-words o (oid, front)) ∙ sym (append-nil (write o oid front)))

-- Because nothing keeps two calls of `Write` apart, the second can come in after any k bytes of the
-- body of the first that leave some of it: both writes are done, and the peer's callback is given,
-- under the first object id, these k bytes and the beginning of the second frame, header included, up
-- to the size of the first body, and reads on in the middle of what remains.
pub serve-torn :
    (t : AsyncRead) (o : ByteOrder) (peer : AsioStream) (a b : ℕ × Bytes) (k fuel : ℕ)
    → Fits a
    → k < length a.1
    → (s : Socket) × Sent o Always (a ∷ b ∷ []) s
      × IsIdle s
      × (serve t o (suc (suc (suc fuel))) (start peer) s.wire
          ≡ then_serve
              (call_of peer.stream_id (a.0, take (length a.1) (torn o a b k)) ∷ [])
              (serve t o fuel (start peer) (drop (length a.1) (torn o a b k))))
serve-torn t o peer a b k fuel small inside =
    let bytes = torn o a b k in
    let size = length a.1 in
    let header = words o a.0 a.1 in
    let whole = take-append-drop k a.1 in
    let enough = length-torn o a b k inside in
    let cut =
      write-words o a
      ∙ ap (◌++◌ header) (sym whole)
      ∙ sym (append_assoc header (take k a.1) (drop k a.1)) in
    let (s, sent, idle, wire) =
      interrupted o a b (header ++ take k a.1) (drop k a.1) cut
        (omega (arith, length-append header (take k a.1), length-words o a.0 a.1))
        (omega (
          arith,
          ap length whole,
          length-append (take k a.1) (drop k a.1),
          length-take_of_le k a.1 (omega arith),
        )) in
    (
      s,
      sent,
      idle,
      ap (serve t o (suc (suc (suc fuel))) (start peer)) (
            wire
            ∙ append_assoc header (take k a.1) (write o b.0 b.1 ++ drop k a.1)
            ∙ words-write_all o a.0 a.1 bytes enough)
          ∙ serve_frames t o fuel peer ((a.0, take size bytes) ∷ []) (drop size bytes)
              (omega (arith, length-take_of_le size bytes enough), tt),
    )
