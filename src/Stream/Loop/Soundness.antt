-- ===== src/Stream/Loop/Soundness.antt =====
-- Whatever bytes arrive, the reads of src/dousi/core/stream/stream.cc make up no message: the calls
-- are, byte for byte, the frames at the front of what was received.
use dousi.Prelude.{
  ℕ, zero, suc, ◌≡◌, refl, ap, sym, subst, ◌∙◌, ◌⊎◌, inl, inr, List, [], ◌∷◌, ◌++◌, append_assoc,
  Bool, Bytes, length, All,
}
use dousi.Stream.{
  AsioStream, Invocation, Reading, idle, object_id, header, body, stopped, complete, on_object_id,
  on_header, on_body, start,
}
use dousi.Stream.Word.{ByteOrder, word_bytes, word_of, word_size, IsByte, word_bytes-word_of}
use dousi.Stream.Transport.{AsyncRead, Completion, received, failed}
use dousi.Stream.Loop.{serve}

-- The bytes that a message came in.
abbrev pub frame_of : ByteOrder → Invocation → Bytes
frame_of o i = word_bytes o i.object_id ++ (word_bytes o (length i.body) ++ i.body)

abbrev pub frames_of : ByteOrder → List Invocation → Bytes
frames_of o [] = []
frames_of o (i ∷ is) = frame_of o i ++ frames_of o is

-- What the stream has taken in of a frame that is not complete.
abbrev pending : ByteOrder → Reading → Bytes
pending o (header oid) = word_bytes o oid
pending o (body oid size) = word_bytes o oid ++ word_bytes o size
pending o _ = []

Completion-cases :
    (c : Completion) → ((e : ℕ) × (c ≡ failed e)) ⊎ ((xs : Bytes) × (c ≡ received xs))
Completion-cases (failed e) = inl (e, refl)
Completion-cases (received xs) = inr (xs, refl)

IsByte-parts : (xs ys : Bytes) → All IsByte (xs ++ ys) → All IsByte xs × All IsByte ys
IsByte-parts [] ys h = (tt, h)
IsByte-parts (x ∷ xs) ys h = let (hx, hy) = IsByte-parts xs ys h.1 in ((h.0, hx), hy)

module _ (t : AsyncRead) (o : ByteOrder) where
  abbrev at : ℕ → Bool → Reading → AsioStream
  at id b r = record { stream_id = id; reading = r; socket_open = b }

  abbrev Accounted : Bytes → List Invocation → Type 0
  Accounted bytes calls = (left : Bytes) × (bytes ≡ frames_of o calls ++ left)

  -- A word that was read stands in what is pending as its own four bytes.
  word_step :
      (before xs rest wire : Bytes) (calls : List Invocation)
      → length xs ≡ word_size
      → wire ≡ xs ++ rest
      → All IsByte wire
      → Accounted ((before ++ word_bytes o (word_of o xs)) ++ rest) calls
      → Accounted (before ++ wire) calls
  word_step before xs rest wire calls n w h (left, q) =
      let bytes = (IsByte-parts xs rest (subst (All IsByte) w h)).0 in
      (
        left,
        ap (◌++◌ before) w
            ∙ sym (append_assoc before xs rest)
            ∙ ap (λ ys. (before ++ ys) ++ rest) (sym (word_bytes-word_of o xs n bytes))
            ∙ q,
      )

  body_step :
      (id oid size : ℕ) (xs rest wire : Bytes) (calls : List Invocation)
      → length xs ≡ size
      → wire ≡ xs ++ rest
      → Accounted rest calls
      → Accounted
          ((word_bytes o oid ++ word_bytes o size) ++ wire)
          (record { stream_id = id; object_id = oid; body = xs } ∷ calls)
  body_step id oid size xs rest wire calls n w (left, q) =
      (left, rw (w, q, ← n) (simp append_assoc))

  serve_stopped :
      (fuel id : ℕ) (b : Bool) (wire : Bytes) → (serve t o fuel (at id b stopped) wire).calls ≡ []
  unfolding serve
  serve_stopped zero id b wire = refl
  serve_stopped (suc fuel) id b wire = refl

  -- What follows a read that was filled.
  rest-IsByte :
      (n : ℕ) (wire xs : Bytes)
      → (t.read n wire).0 ≡ received xs
      → All IsByte wire
      → All IsByte (t.read n wire).1
  rest-IsByte n wire xs q h =
      (IsByte-parts xs _ (subst (All IsByte) (t.read_exact n wire xs q).1 h)).1

  serve-Accounted :
      (fuel id : ℕ) (b : Bool) (r : Reading) (wire : Bytes)
      → All IsByte wire
      → Accounted (pending o r ++ wire) (serve t o fuel (at id b r) wire).calls
  unfolding serve complete on_object_id on_header on_body
  serve-Accounted zero id b r wire h = (_, refl)
  serve-Accounted (suc fuel) id b idle wire h = (_, refl)
  serve-Accounted (suc fuel) id b stopped wire h = (_, refl)
  serve-Accounted (suc fuel) id b object_id wire h =
      elim (Completion-cases (t.read word_size wire).0) [
        | inl (e, q) ↦ rw (q, serve_stopped fuel id b (t.read word_size wire).1) (_, refl)
        | inr (xs, q) ↦ rw q (
            word_step [] xs _ wire _ (t.read_exact word_size wire xs q).0
              (t.read_exact word_size wire xs q).1 h
              (serve-Accounted fuel id b (header (word_of o xs)) _ (rest-IsByte _ wire xs q h)))
      ]
  serve-Accounted (suc fuel) id b (header oid) wire h =
      elim (Completion-cases (t.read word_size wire).0) [
        | inl (e, q) ↦ rw (q, serve_stopped fuel id b (t.read word_size wire).1) (_, refl)
        | inr (xs, q) ↦ rw q (
            word_step (word_bytes o oid) xs _ wire _ (t.read_exact word_size wire xs q).0
              (t.read_exact word_size wire xs q).1 h
              (serve-Accounted fuel id b (body oid (word_of o xs)) _ (rest-IsByte _ wire xs q h)))
      ]
  serve-Accounted (suc fuel) id b (body oid size) wire h =
      elim (Completion-cases (t.read size wire).0) [
        | inl (e, q) ↦ rw (q, serve_stopped fuel id b (t.read size wire).1) (_, refl)
        | inr (xs, q) ↦ rw q (
            body_step id oid size xs _ wire _ (t.read_exact size wire xs q).0
              (t.read_exact size wire xs q).1
              (serve-Accounted fuel id b object_id _ (rest-IsByte _ wire xs q h)))
      ]

  -- From `Start` on, for any number of handlers and any bytes: what was received is the frames of
  -- the calls made, in order, and a rest. So no call is made for a frame that is cut short, and no
  -- byte of a body is lost, doubled or moved.
  pub start_sound :
      (fuel : ℕ) (s : AsioStream) (wire : Bytes)
      → All IsByte wire
      → (left : Bytes) × (wire ≡ frames_of o (serve t o fuel (start s) wire).calls ++ left)
  start_sound fuel s wire h = serve-Accounted fuel s.stream_id s.socket_open object_id wire h
