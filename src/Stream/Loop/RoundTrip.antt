-- ===== src/Stream/Loop/RoundTrip.antt =====
-- What the reads of one side make of the writes of the other.
use dousi.Prelude.{
  ℕ, suc, ◌%◌, ◌^◌, ◌<◌, ◌≤◌, ◌≡◌, refl, ap, sym, ◌∙◌, subst, List, [], ◌∷◌, ◌++◌, map,
  append_assoc, take, drop, take-append-drop, length-take_of_le, append-nil, some, Bytes, length,
  All, arith,
}
use native.Mathlib.Nat.{mod-eq_of_lt}
use dousi.Stream.{
  start, AsioStream, Invocation, object_id, header, body, stopped, complete, on_object_id,
  on_header, on_body, write, wanted,
}
use dousi.Stream.Word.{ByteOrder, word_bytes, word_size, length-word_bytes, word_of-word_bytes}
use dousi.Stream.Transport.{AsyncRead, received}
use dousi.Stream.Loop.{Served, serve, optional}

-- The callback that a frame leads to: the object id has passed through a uint32_t.
abbrev pub call_of : ℕ → ℕ × Bytes → Invocation
call_of stream_id (oid, bytes) = record {
  stream_id = stream_id;
  object_id = oid % 2 ^ 32;
  body = bytes;
}

-- What a sequence of calls of `Write` puts on the wire.
abbrev pub write_all : ByteOrder → List (ℕ × Bytes) → Bytes
write_all o [] = []
write_all o ((oid, bytes) ∷ ms) = write o oid bytes ++ write_all o ms

-- A body whose size a uint32_t can hold.
abbrev pub Fits : ℕ × Bytes → Type 0
Fits m = length m.1 < 2 ^ 32

-- Three rounds of the loop for each frame, and some more.
abbrev pub rounds : List (ℕ × Bytes) → ℕ → ℕ
rounds [] more = more
rounds (m ∷ ms) more = suc (suc (suc (rounds ms more)))

abbrev pub then_serve : List Invocation → Served → Served
then_serve calls later = record {
  stream = later.stream;
  calls = calls ++ later.calls;
  unread = later.unread;
}

mod-le : (n m : ℕ) → n % m ≤ n
mod-le n m = grind arith

module _ (t : AsyncRead) (o : ByteOrder) where
  read_word :
      (n : ℕ) (rest : Bytes)
      → t.read word_size (word_bytes o n ++ rest) ≡ (received (word_bytes o n), rest)
  read_word n rest =
      subst (λ k. t.read k (word_bytes o n ++ rest) ≡ (received (word_bytes o n), rest))
        (length-word_bytes o n) (t.read_full (word_bytes o n) rest)

  -- One round of the loop, for a read that is filled.
  serve_received :
      (fuel : ℕ) (s : AsioStream) (xs rest : Bytes)
      → wanted s.reading ≡ some (length xs)
      → serve t o (suc fuel) s (xs ++ rest)
        ≡ then_serve
            (optional (complete o s s.reading (received xs)).1)
            (serve t o fuel (complete o s s.reading (received xs)).0 rest)
  unfolding serve
  serve_received fuel s xs rest w = rw (serve, w, t.read_full xs rest)

  serve_object_id :
      (fuel : ℕ) (s : AsioStream) (n : ℕ) (rest : Bytes)
      → n < 2 ^ 32
      → serve t o (suc fuel) (record s { reading = object_id }) (word_bytes o n ++ rest)
        ≡ serve t o fuel (record s { reading = header n }) rest
  unfolding complete on_object_id
  serve_object_id fuel s n rest h = rw (
    serve_received fuel (record s { reading = object_id }) (word_bytes o n) rest
        (ap some (sym (length-word_bytes o n))),
    word_of-word_bytes o n h,
  )

  serve_header :
      (fuel : ℕ) (s : AsioStream) (oid n : ℕ) (rest : Bytes)
      → n < 2 ^ 32
      → serve t o (suc fuel) (record s { reading = header oid }) (word_bytes o n ++ rest)
        ≡ serve t o fuel (record s { reading = body oid n }) rest
  unfolding complete on_header
  serve_header fuel s oid n rest h = rw (
    serve_received fuel (record s { reading = header oid }) (word_bytes o n) rest
        (ap some (sym (length-word_bytes o n))),
    word_of-word_bytes o n h,
  )

  serve_body :
      (fuel : ℕ) (s : AsioStream) (oid : ℕ) (bytes rest : Bytes)
      → serve t o (suc fuel) (record s { reading = body oid (length bytes) }) (bytes ++ rest)
        ≡ then_serve
            (record { stream_id = s.stream_id; object_id = oid; body = bytes } ∷ [])
            (serve t o fuel (record s { reading = object_id }) rest)
  unfolding complete on_body
  serve_body fuel s oid bytes rest =
      serve_received fuel (record s { reading = body oid (length bytes) }) bytes rest refl

  serve_words :
      (fuel : ℕ) (s : AsioStream) (oid size : ℕ) (rest : Bytes)
      → oid < 2 ^ 32
      → size < 2 ^ 32
      → serve t o
          (suc (suc fuel))
          (record s { reading = object_id })
          (word_bytes o oid ++ (word_bytes o size ++ rest))
        ≡ serve t o fuel (record s { reading = body oid size }) rest
  serve_words fuel s oid size rest h k =
      serve_object_id (suc fuel) s oid (word_bytes o size ++ rest) h
      ∙ serve_header fuel s oid size rest k

  write_regroup :
      (oid : ℕ) (bytes rest : Bytes)
      → write o oid bytes ++ rest
        ≡ word_bytes o (oid % 2 ^ 32) ++ (word_bytes o (length bytes % 2 ^ 32) ++ (bytes ++ rest))
  unfolding write
  write_regroup oid bytes rest = simp append_assoc

  -- Three handlers take in a frame, whatever its size n: the call gets the object id modulo 2 ^ 32
  -- and the first n % 2 ^ 32 bytes of the body; the bytes of the body after those are read as the
  -- beginning of the next frame.
  pub serve-write :
      (fuel : ℕ) (s : AsioStream) (oid : ℕ) (bytes rest : Bytes)
      → let size = length bytes % 2 ^ 32 in
        serve t o (suc (suc (suc fuel))) (start s) (write o oid bytes ++ rest)
        ≡ then_serve
            (call_of s.stream_id (oid, take size bytes) ∷ [])
            (serve t o fuel (start s) (drop size bytes ++ rest))
  serve-write fuel s oid bytes rest =
      let size = length bytes % 2 ^ 32 in
      let front = take size bytes in
      let back = drop size bytes ++ rest in
      let n = length-take_of_le size bytes (mod-le (length bytes) (2 ^ 32)) in
      let cut : bytes ++ rest ≡ front ++ back =
        ap (λ xs. xs ++ rest) (sym (take-append-drop size bytes))
        ∙ append_assoc front (drop size bytes) rest in
      ap (serve t o (suc (suc (suc fuel))) (start s)) (write_regroup oid bytes rest)
      ∙ serve_words (suc fuel) s (oid % 2 ^ 32) size (bytes ++ rest) (omega arith) (omega arith)
      ∙ ap (serve t o (suc fuel) (record s { reading = body (oid % 2 ^ 32) size })) cut
      ∙ ap
          (λ k. serve t o (suc fuel) (record s { reading = body (oid % 2 ^ 32) k }) (front ++ back))
          (sym n)
      ∙ serve_body fuel s (oid % 2 ^ 32) front back

  -- The three rounds that take in a frame whose size a uint32_t holds.
  serve_frame :
      (fuel : ℕ) (s : AsioStream) (m : ℕ × Bytes) (rest : Bytes)
      → Fits m
      → serve t o
          (suc (suc (suc fuel)))
          (record s { reading = object_id })
          (write o m.0 m.1 ++ rest)
        ≡ then_serve
            (call_of s.stream_id m ∷ [])
            (serve t o fuel (record s { reading = object_id }) rest)
  serve_frame fuel s (oid, bytes) rest h =
      ap (serve t o (suc (suc (suc fuel))) (start s)) (write_regroup oid bytes rest)
      ∙ ap
          (λ k.
            serve t o (suc (suc (suc fuel))) (start s)
              (word_bytes o (oid % 2 ^ 32) ++ (word_bytes o k ++ (bytes ++ rest))))
          (mod-eq_of_lt h)
      ∙ serve_words (suc fuel) s (oid % 2 ^ 32) (length bytes) (bytes ++ rest) (omega arith) h
      ∙ serve_body fuel s (oid % 2 ^ 32) bytes rest

  -- Every frame in turn, and then whatever follows.
  pub serve_frames :
      (fuel : ℕ) (s : AsioStream) (ms : List (ℕ × Bytes)) (rest : Bytes)
      → All Fits ms
      → serve t o (rounds ms fuel) (record s { reading = object_id }) (write_all o ms ++ rest)
        ≡ then_serve
            (map (call_of s.stream_id) ms)
            (serve t o fuel (record s { reading = object_id }) rest)
  serve_frames fuel s [] rest h = refl
  serve_frames fuel s ((oid, bytes) ∷ ms) rest h = rw (
    append_assoc (write o oid bytes) (write_all o ms) rest,
    serve_frame (rounds ms fuel) s (oid, bytes) (write_all o ms ++ rest) h.0,
    serve_frames fuel s ms rest h.1,
  )

  -- What is left is too short for an object id: the read fails, and no other is posted.
  serve_cut :
      (s : AsioStream) (rest : Bytes)
      → length rest < word_size
      → ((serve t o 1 (record s { reading = object_id }) rest).calls ≡ [])
        × ((serve t o 1 (record s { reading = object_id }) rest).stream
            ≡ record s { reading = stopped })
  unfolding serve complete on_object_id
  serve_cut s rest h = let (e, failure) = t.read_short word_size rest h in (rw failure, rw failure)

  -- A peer that sends whole frames, perhaps up to three bytes more, and closes: the callback is made
  -- once for each frame, in the order of the writes, with the body unchanged and the object id
  -- modulo 2 ^ 32; then the reading stops. Each body is shorter than 2 ^ 32 bytes.
  pub serve-write_all :
      (s : AsioStream) (ms : List (ℕ × Bytes)) (rest : Bytes)
      → All Fits ms
      → length rest < word_size
      → let done = serve t o (rounds ms 1) (start s) (write_all o ms ++ rest) in
        (done.calls ≡ map (call_of s.stream_id) ms) × (done.stream ≡ record s { reading = stopped })
  serve-write_all s ms rest h cut =
      let (calls, stream) = serve_cut s rest cut in
      rw (serve_frames 1 s ms rest h)
        (ap (◌++◌ (map (call_of s.stream_id) ms)) calls ∙ append-nil _, stream)
