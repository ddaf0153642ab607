-- ===== src/Rpc/Concurrent/Answers.antt =====
-- The answers that the threads of src/dousi/core/executor write to one client, in any run.
use native.Mathlib.Nat.{mod-eq_of_lt}
use dousi.Prelude.{
  ℕ, ◌^◌, ◌<◌, ◌≡◌, inl, refl, sym, ap, ◌∙◌, subst, ◌∷◌, ◌++◌, some, Bytes, All, Has, Has-All,
  Has-append_right, arith,
}
use dousi.Prelude.Map.{ℕ_eq, Bytes_eq}
use dousi.Msgpack.{Msgpack}
use dousi.Stream.Word.{ByteOrder}
use dousi.Queue.LockFree.{LockFree}
use dousi.Executor.{Executor}
use dousi.Executor.Request.{DousiRequest, DousiResponse}
use dousi.Executor.Threads.{System, Reach, started}
use dousi.Executor.Threads.Keys.{Key, tally}
use dousi.Executor.Threads.Invariant.{itself, request_key, response_key}
use dousi.Executor.Threads.Answers.{IsEmpty, IsQuiet, all_answered}
use dousi.Executor.Threads.Log.{Message, IsSent, taken_in, emitted}
use dousi.Executor.Threads.Serializable.{serial_log, Reach-Logged}
use dousi.Executor.Threads.Emitted.{
  message_key, answers_to, tally-emitted, tally-taken_in, answers_to-All,
}
use dousi.Executor.Threads.Unique.{Has_unique, tally-Has}
use dousi.Executor.Threads.Moments.{Moment, run_serial-Moment, tally-run_serial}
use dousi.Submitter.Pipelined.{IsFor}

module _ {m : Msgpack} {l : LockFree} {S : Type 0} {o : ByteOrder} (e : Executor m l S)
    {s : System m l S} (empty : IsEmpty e) (reach : Reach o (started e) s) where
  -- A response that was written was given at a moment of that order, to a request that was sent.
  emitted-Moment :
      (d : DousiResponse)
      → Has d (emitted reach)
      → (at : Moment e (serial_log e empty reach) e.objects d) × IsSent (taken_in reach) at.request
  emitted-Moment d h =
      let g = Reach-Logged e empty reach in
      let at =
        run_serial-Moment e g.log e.objects (g.done, s.executor.objects) d g.ran.ran
          (Has-All (λ r. Has r g.done) (emitted reach) d g.sent_off h) in
      (
        at,
        Has-All (IsSent (taken_in reach)) (at.before ++ at.request ∷ at.after) at.request
            (subst (All (IsSent (taken_in reach))) at.split g.logged)
            (Has-append_right at.request at.before (at.request ∷ at.after) (inl refl)),
      )

  -- Two responses under one key that arrived once are the same.
  emitted_unique :
      (k : Key) (d d' : DousiResponse)
      → tally itself k s.arrived ≡ 1
      → Has d (emitted reach)
      → response_key d ≡ k
      → Has d' (emitted reach)
      → response_key d' ≡ k
      → d ≡ d'
  emitted_unique k d d' once h hk h' hk' =
      let g = Reach-Logged e empty reach in
      let in_done = Has-All (λ r. Has r g.done) (emitted reach) in
      Has_unique response_key k d d' g.done
        (omega (
          arith,
          g.counted k,
          tally-run_serial k e g.log e.objects (g.done, s.executor.objects) g.ran.ran,
          once,
        ))
        (in_done d g.sent_off h) hk (in_done d' g.sent_off h') hk'

  -- The request of that moment carries what was sent under its key.
  sent_unique :
      (stream_id object_id : ℕ) (buffer : Bytes) (r : DousiRequest m)
      → tally itself (stream_id, object_id) s.arrived ≡ 1
      → Has (stream_id, (object_id, buffer)) (taken_in reach)
      → request_key r ≡ (stream_id, object_id)
      → IsSent (taken_in reach) r
      → m.unpack buffer ≡ some r.unpacked
  sent_unique stream_id object_id buffer r once asked key_ sent =
      let k : Key = (stream_id, object_id) in
      let same =
        Has_unique message_key k (r.stream_id, (r.object_id, sent.buffer))
          (stream_id, (object_id, buffer)) (taken_in reach)
          (omega (arith, tally-taken_in k reach, once)) sent.sent key_ asked refl in
      ap m.unpack (sym (ap (λ (x : Message). x.1.1) same)) ∙ sent.unpacked

  -- The answer to a message is written: its object id, and the result that it is given at its moment.
  pub answered_at :
      (stream_id object_id : ℕ) (buffer : Bytes)
      → IsQuiet s
      → tally itself (stream_id, object_id) s.arrived ≡ 1
      → Has (stream_id, (object_id, buffer)) (taken_in reach)
      → (d : DousiResponse) × Has d (emitted reach)
        × (response_key d ≡ (stream_id, object_id))
        × (at : Moment e (serial_log e empty reach) e.objects d) × IsSent
            (taken_in reach)
            at.request
        × (m.unpack buffer ≡ some at.request.unpacked)
  answered_at stream_id object_id buffer quiet once asked =
      let k : Key = (stream_id, object_id) in
      let (d, written, key_) =
        tally-Has response_key k (emitted reach)
          (omega (arith, tally-emitted k reach, all_answered o e s k empty reach quiet, once)) in
      let (at, sent) = emitted-Moment d written in
      (
        d,
        written,
        key_,
        at,
        sent,
        sent_unique stream_id object_id buffer at.request once asked
            (ap response_key at.gives ∙ key_) sent,
      )

  small_id :
      (d : DousiResponse)
      → All (λ (x : Message). x.1.0 < 2 ^ 32) (taken_in reach)
      → Has d (emitted reach)
      → d.object_id < 2 ^ 32
  small_id d small h =
      let (at, sent) = emitted-Moment d h in
      let below = Has-All (λ (x : Message). x.1.0 < 2 ^ 32) (taken_in reach) _ small sent.sent in
      omega (arith, below, ap (λ (d : DousiResponse). d.object_id) at.gives)

  -- The answers on the wire to the client that are for this object have this body.
  pub answers-IsFor :
      (stream_id object_id : ℕ) (d : DousiResponse)
      → tally itself (stream_id, object_id) s.arrived ≡ 1
      → All (λ (x : Message). x.1.0 < 2 ^ 32) (taken_in reach)
      → Has d (emitted reach)
      → response_key d ≡ (stream_id, object_id)
      → All (IsFor object_id d.result) (answers_to stream_id (emitted reach))
  answers-IsFor stream_id object_id d once small h key_ =
      answers_to-All (IsFor object_id d.result) stream_id (emitted reach) (λ d' h' to same.
        ap (λ (d : DousiResponse). d.result)
          (emitted_unique (stream_id, object_id) d' d once h'
            (λ i. (to i, (sym (mod-eq_of_lt (small_id d' small h')) ∙ same) i)) h key_))
