-- ===== src/Executor/Threads/Emitted.antt =====
-- What the write threads of src/dousi/core/executor have put on the wire of each connection.
use dousi.Prelude.{
  ℕ, ◌≡◌, inl, inr, refl, sym, ap, ◌∙◌, List, [], ◌∷◌, ◌++◌, Bytes, if◌then◌else◌, ◌==◌, ==_iff,
  Bool-cases, Has, Has-append_left, Has-append_right, All, All-append, append-nil, arith,
}
use dousi.Msgpack.{Msgpack}
use dousi.Stream.{AsioStream, write}
use dousi.Stream.Word.{ByteOrder}
use dousi.Stream.Loop.RoundTrip.{write_all}
use dousi.Stream.Writes.Order.{write_all-append}
use dousi.Queue.LockFree.{LockFree}
use dousi.Executor.{Executor, ok, write_response}
use dousi.Executor.Request.{DousiResponse}
use dousi.Executor.Threads.{
  System, Reach, here, next, accept, arrive, take, finish, fetch, emit, started,
}
use dousi.Executor.Threads.Keys.{Key, tally, tally_cons, tally_nil}
use dousi.Executor.Threads.Invariant.{itself, response_key}
use dousi.Executor.Threads.Log.{Message, taken_in, emitted}

abbrev pub message_key : Message → Key
message_key x = (x.0, x.1.0)

module _ {m : Msgpack} {l : LockFree} {S : Type 0} where
  -- The bytes that went to the socket of a stream, one call of `Write` after the other.
  unfoldable pub wire_to : {o : ByteOrder} {s t : System m l S} → ℕ → Reach o s t → Bytes
  wire_to stream_id here = []
  wire_to stream_id (next r (emit j {r = response} {bytes} holding h)) =
      wire_to stream_id r ++ (if response.stream_id == stream_id then bytes else [])
  wire_to stream_id (next r (accept error h)) = wire_to stream_id r
  wire_to stream_id (next r (arrive from object_id buffer found h)) = wire_to stream_id r
  wire_to stream_id (next r (take i idle popped)) = wire_to stream_id r
  wire_to stream_id (next r (finish i holding h)) = wire_to stream_id r
  wire_to stream_id (next r (fetch j idle popped)) = wire_to stream_id r

-- The answers among the responses that go to a stream, the first one first.
unfoldable pub answers_to : ℕ → List DousiResponse → List (ℕ × Bytes)
answers_to stream_id [] = []
answers_to stream_id (r ∷ rs) =
    answers_to stream_id rs
    ++ (if r.stream_id == stream_id then (r.object_id, r.result) ∷ [] else [])

module _ {m : Msgpack} {l : LockFree} {S : Type 0} where
  write_response-write :
      (o : ByteOrder) (e : Executor m l S) (r : DousiResponse) {p : AsioStream × Bytes}
      → write_response o e r ≡ ok p
      → p.1 ≡ write o r.object_id r.result
  unfolding write_response
  write_response-write o e r h = ground arith

  -- The frames of a stream's answers, one after the other.
  pub wire_to-write_all :
      (stream_id : ℕ) {o : ByteOrder} {s t : System m l S} (reach : Reach o s t)
      → wire_to stream_id reach ≡ write_all o (answers_to stream_id (emitted reach))
  unfolding wire_to emitted answers_to
  wire_to-write_all stream_id here = refl
  wire_to-write_all stream_id {o}
        (next {t} r (emit j {r = response} {t = stream} {bytes} holding h)) =
      let before = wire_to-write_all stream_id r in
      let frame = write_response-write o t.executor response h in
      elim (Bool-cases (response.stream_id == stream_id)) [
        | inl same ↦
            rw (same, before, frame)
              (sym (
                write_all-append o (answers_to stream_id (emitted r))
                  (response.object_id, response.result)))
        | inr other ↦ rw other (
            append-nil (wire_to stream_id r)
            ∙ before
            ∙ ap (write_all o) (sym (append-nil (answers_to stream_id (emitted r)))))
      ]
  wire_to-write_all stream_id (next r (accept error h)) = wire_to-write_all stream_id r
  wire_to-write_all stream_id (next r (arrive from object_id buffer found h)) =
      wire_to-write_all stream_id r
  wire_to-write_all stream_id (next r (take i idle popped)) = wire_to-write_all stream_id r
  wire_to-write_all stream_id (next r (finish i holding h)) = wire_to-write_all stream_id r
  wire_to-write_all stream_id (next r (fetch j idle popped)) = wire_to-write_all stream_id r

  pub tally-emitted :
      (k : Key) {o : ByteOrder} {e : Executor m l S} {t : System m l S}
      (reach : Reach o (started e) t)
      → tally response_key k (emitted reach) ≡ tally itself k t.written
  unfolding emitted
  tally-emitted k here = tally_nil response_key k ∙ sym (tally_nil itself k)
  tally-emitted k (next {t} r (emit j {r = response} holding h)) = omega (
    arith,
    tally-emitted k r,
    tally_cons response_key k response (emitted r),
    tally_cons itself k (response.stream_id, response.object_id) t.written,
  )
  tally-emitted k (next r (accept error h)) = tally-emitted k r
  tally-emitted k (next r (arrive stream_id object_id buffer found h)) = tally-emitted k r
  tally-emitted k (next r (take i idle popped)) = tally-emitted k r
  tally-emitted k (next r (finish i holding h)) = tally-emitted k r
  tally-emitted k (next r (fetch j idle popped)) = tally-emitted k r

  pub tally-taken_in :
      (k : Key) {o : ByteOrder} {e : Executor m l S} {t : System m l S}
      (reach : Reach o (started e) t)
      → tally message_key k (taken_in reach) ≡ tally itself k t.arrived
  unfolding taken_in
  tally-taken_in k here = tally_nil message_key k ∙ sym (tally_nil itself k)
  tally-taken_in k (next {t} r (arrive stream_id object_id buffer found h)) = omega (
    arith,
    tally-taken_in k r,
    tally_cons message_key k (stream_id, (object_id, buffer)) (taken_in r),
    tally_cons itself k (stream_id, object_id) t.arrived,
  )
  tally-taken_in k (next r (accept error h)) = tally-taken_in k r
  tally-taken_in k (next r (emit j holding h)) = tally-taken_in k r
  tally-taken_in k (next r (take i idle popped)) = tally-taken_in k r
  tally-taken_in k (next r (finish i holding h)) = tally-taken_in k r
  tally-taken_in k (next r (fetch j idle popped)) = tally-taken_in k r

-- A response that goes to the stream is among its answers, and there are no others.
pub answers_to-Has :
    (stream_id : ℕ) (r : DousiResponse) (rs : List DousiResponse)
    → r.stream_id ≡ stream_id
    → Has r rs
    → Has (r.object_id, r.result) (answers_to stream_id rs)
unfolding answers_to
answers_to-Has stream_id r [] to h = absurd h
answers_to-Has stream_id r (x ∷ rs) to (inl e) =
    let same = (==_iff x.stream_id stream_id).1 (ap (λ (y : DousiResponse). y.stream_id) e ∙ to) in
    Has-append_right _ (answers_to stream_id rs) _
      (rw same (inl (ap (λ (y : DousiResponse). (y.object_id, y.result)) e)))
answers_to-Has stream_id r (x ∷ rs) to (inr h) =
    Has-append_left _ (answers_to stream_id rs) _ (answers_to-Has stream_id r rs to h)

pub answers_to-All :
    (P : ℕ × Bytes → Type 0) (stream_id : ℕ) (rs : List DousiResponse)
    → ((r : DousiResponse) → Has r rs → r.stream_id ≡ stream_id → P (r.object_id, r.result))
    → All P (answers_to stream_id rs)
unfolding answers_to
answers_to-All P stream_id [] h = tt
answers_to-All P stream_id (x ∷ rs) h =
    All-append P (answers_to stream_id rs) _ (answers_to-All P stream_id rs (λ r m. h r (inr m)))
      (elim (Bool-cases (x.stream_id == stream_id)) [
        | inl same ↦ rw same (h x (inl refl) ((==_iff x.stream_id stream_id).0 same), tt)
        | inr other ↦ rw other tt
      ])
