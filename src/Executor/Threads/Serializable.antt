-- ===== src/Executor/Threads/Serializable.antt =====
-- Every run of the threads of src/dousi/core/executor is as good as a run of one thread.
use dousi.Prelude.{Has, ◌≤◌, ◌≡◌, List, All, arith}
use dousi.Msgpack.{Msgpack}
use dousi.Stream.Word.{ByteOrder}
use dousi.Queue.LockFree.{LockFree}
use dousi.Executor.{Executor, ok}
use dousi.Executor.Request.{DousiRequest, DousiResponse}
use dousi.Executor.Threads.{System, Reach, here, next, started}
use dousi.Executor.Threads.Keys.{Key, tally}
use dousi.Executor.Threads.Invariant.{request_key, itself}
use dousi.Executor.Threads.Answers.{IsEmpty}
use dousi.Executor.Threads.Serial.{run_serial}
use dousi.Executor.Threads.Log.{IsSent, Holds, taken_in, emitted, Logged}
use dousi.Executor.Threads.Performed.{started-Logged}
use dousi.Executor.Threads.Growth.{Step-Grown}

module _ {m : Msgpack} {l : LockFree} {S : Type 0} where
  unfoldable pub Reach-Logged :
      {o : ByteOrder} (e : Executor m l S) {s : System m l S}
      → IsEmpty e
      → (reach : Reach o (started e) s) → Logged e (taken_in reach) (emitted reach) s
  unfolding taken_in emitted
  Reach-Logged e empty here = started-Logged e empty
  Reach-Logged e empty (next reach step) =
      (Step-Grown e step (taken_in reach) (emitted reach) (Reach-Logged e empty reach)).after

  -- The serial order of a run: the order in which one thread would have performed its requests.
  abbrev pub serial_log :
      {o : ByteOrder} (e : Executor m l S) {s : System m l S}
      → IsEmpty e
      → Reach o (started e) s
      → List (DousiRequest m)
  serial_log e empty reach = (Reach-Logged e empty reach).log

  -- However the threads are scheduled, a call of a method being one step, at an executor on which
  -- nothing was queued: there is a log of requests, each made of a message that has arrived and none of
  -- them logged more often than messages with its ids have arrived, such that one thread that performs
  -- the log in its order from the first objects on has no fault, leaves the objects as they are now,
  -- and gives each response that is queued, that a write thread holds or that was written.
  pub run_serial-Reach :
      (o : ByteOrder) (e : Executor m l S) (s : System m l S)
      → IsEmpty e
      → (reach : Reach o (started e) s)
      → (log : List (DousiRequest m)) × (done : List DousiResponse) × (run_serial e log e.objects
          ≡ ok (done, s.executor.objects))
        × All (IsSent (taken_in reach)) log
        × ((k : Key) → tally request_key k log ≤ tally itself k s.arrived)
        × All (Holds (λ r. Has r done)) s.writers
        × All (λ r. Has r done) (l.contents s.executor.response_queue)
        × All (λ r. Has r done) (emitted reach)
  run_serial-Reach o e s empty reach =
      let h = Reach-Logged e empty reach in
      (
        h.log,
        h.done,
        h.ran.ran,
        h.logged,
        (λ k. omega (arith, h.counted k)),
        h.writing,
        h.answers,
        h.sent_off,
      )
