-- ===== src/Executor/Threads/Answers.antt =====
-- What holds in every state that the threads can reach: no message is lost or answered twice, and the
-- assertion of `LoopToWriteResponse` never fails.
use dousi.Prelude.{ℕ, zero, suc, ◌<◌, ◌≤◌, ◌≡◌, refl, [], Option, none, some, get_elem?, All, arith}
use dousi.Prelude.Map.{lookup, ℕ_eq}
use dousi.Msgpack.{Msgpack}
use dousi.Stream.{AsioStream, write}
use dousi.Stream.Word.{ByteOrder}
use dousi.Queue.LockFree.{LockFree}
use dousi.Executor.{Executor, ok, write_response}
use dousi.Executor.Request.{DousiResponse}
use dousi.Executor.Threads.{System, Reach, here, next, started, spawned, write_thread_num}
use dousi.Executor.Threads.Keys.{
  Key, tally, tally_nil, held, held_idle, weight_self, weight_held-le, tally_pos,
}
use dousi.Executor.Threads.Keeps.{Known}
use dousi.Executor.Threads.Invariant.{Inv, Step-Inv, request_key, response_key, itself}

-- A thread that holds no entry.
abbrev pub IsIdle : {A : Type 0} → Option A → Type 0
IsIdle x = x ≡ none

spawned-IsIdle : (A : Type 0) (n : ℕ) → All (IsIdle {A = A}) (spawned n)
spawned-IsIdle A zero = tt
spawned-IsIdle A (suc n) = (refl, spawned-IsIdle A n)

module _ {m : Msgpack} {l : LockFree} {S : Type 0} where
  -- Nothing is queued.
  pub record IsEmpty (e : Executor m l S) : Type 0 where
    pub no_requests : l.contents e.request_queue ≡ []
    pub no_responses : l.contents e.response_queue ≡ []

  -- Nothing is queued, and no thread holds an entry.
  pub record IsQuiet (s : System m l S) : Type 0 where
    pub queues : IsEmpty s.executor
    pub workers : All IsIdle s.workers
    pub writers : All IsIdle s.writers

  pub started-IsQuiet : (e : Executor m l S) → IsEmpty e → IsQuiet (started e)
  started-IsQuiet e h = record {
    queues = h;
    workers = spawned-IsIdle _ e.executor_options.work_thread_num;
    writers = spawned-IsIdle _ write_thread_num;
  }

  pub quiet_counts :
      (s : System m l S) (k : Key)
      → IsQuiet s
      → (tally request_key k (l.contents s.executor.request_queue) ≡ 0)
        × (tally response_key k (l.contents s.executor.response_queue) ≡ 0)
        × (held request_key k s.workers ≡ 0)
        × (held response_key k s.writers ≡ 0)
  quiet_counts s k q = (
    rw (q.queues.no_requests, tally_nil),
    rw (q.queues.no_responses, tally_nil),
    held_idle request_key k s.workers q.workers,
    held_idle response_key k s.writers q.writers,
  )

  started-Inv : (e : Executor m l S) → IsEmpty e → Inv (started e)
  started-Inv e h = record {
    counted = λ k.
        let counts = quiet_counts (started e) k (started-IsQuiet e h) in
        omega (arith, counts, tally_nil itself k);
    known = tt;
  }

  Reach-Inv :
      (o : ByteOrder) {e : Executor m l S} {s : System m l S}
      → IsEmpty e
      → Reach o (started e) s
      → Inv s
  Reach-Inv o {e} h here = started-Inv e h
  Reach-Inv o h (next r st) = Step-Inv o st (Reach-Inv o h r)

  -- However the threads are scheduled: for every stream and object id, no more responses are written
  -- than messages with these ids have arrived.
  pub answered_at_most_once :
      (o : ByteOrder) (e : Executor m l S) (s : System m l S) (k : Key)
      → IsEmpty e
      → Reach o (started e) s
      → tally itself k s.written ≤ tally itself k s.arrived
  answered_at_most_once o e s k h r = omega (arith, (Reach-Inv o h r).counted k)

  -- However the threads are scheduled: once nothing is queued or held any more, exactly as many
  -- responses are written as messages have arrived, for every stream and object id.
  pub all_answered :
      (o : ByteOrder) (e : Executor m l S) (s : System m l S) (k : Key)
      → IsEmpty e
      → Reach o (started e) s
      → IsQuiet s
      → tally itself k s.written ≡ tally itself k s.arrived
  all_answered o e s k h r q = omega (arith, (Reach-Inv o h r).counted k, quiet_counts s k q)

  -- A write thread that holds a response finds its stream: `assert(it != streams_.end())` holds in
  -- every reachable state, and the frame is written with the ids and the result of the response.
  pub write_response_finds :
      (o : ByteOrder) (e : Executor m l S) (s : System m l S) (j : ℕ) (r : DousiResponse)
      → IsEmpty e
      → Reach o (started e) s
      → get_elem? s.writers j ≡ some (some r)
      → (t : AsioStream) × (lookup r.stream_id s.executor.streams ≡ some t)
        × (write_response o s.executor r ≡ ok (t, write o r.object_id r.result))
  unfolding write_response
  write_response_finds o e s j r h reach holding =
      let v = Reach-Inv o h reach in
      let k = response_key r in
      let pos : 0 < tally itself k s.arrived = omega (
        arith,
        v.counted k,
        weight_self k,
        weight_held-le response_key k s.writers j (some r) holding,
      ) in
      let (t, found) = tally_pos (Known s.executor) k s.arrived v.known pos in (t, found, rw found)
