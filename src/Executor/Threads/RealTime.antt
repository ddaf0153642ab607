-- ===== src/Executor/Threads/RealTime.antt =====
-- The order in which requests of src/dousi/core/executor take effect, against the time at which they come and
-- are answered.
use dousi.Prelude.{
  Has, ◌≤◌, ◌≡◌, ap, ◌∙◌, List, [], ◌++◌, append_assoc, append-nil, sym, All, arith,
}
use dousi.Msgpack.{Msgpack}
use dousi.Stream.Word.{ByteOrder}
use dousi.Queue.LockFree.{LockFree}
use dousi.Executor.{Executor, ok}
use dousi.Executor.Request.{DousiRequest, DousiResponse}
use dousi.Executor.Threads.{System, Reach, here, next, started}
use dousi.Executor.Threads.Keys.{Key, tally}
use dousi.Executor.Threads.Invariant.{request_key, itself}
use dousi.Executor.Threads.Answers.{IsEmpty}
use dousi.Executor.Threads.Serial.{run_serial}
use dousi.Executor.Threads.Log.{IsSent, taken_in, emitted}
use dousi.Executor.Threads.Growth.{Step-Grown}
use dousi.Executor.Threads.Serializable.{serial_log, Reach-Logged}
use dousi.Executor.Threads.Drain.{join}

module _ {m : Msgpack} {l : LockFree} {S : Type 0} where
  -- However the run goes on, its serial order grows at its end.
  serial_log-join :
      (o : ByteOrder) (e : Executor m l S) {s t : System m l S} (empty : IsEmpty e)
      (before : Reach o (started e) s) (after : Reach o s t)
      → (later : List (DousiRequest m)) × (serial_log e empty (join o before after)
          ≡ serial_log e empty before ++ later)
  unfolding Reach-Logged join taken_in emitted
  serial_log-join o e empty before here = ([], sym (append-nil (serial_log e empty before)))
  serial_log-join o e empty before (next after step) =
      let (later, longer) = serial_log-join o e empty before after in
      let run = join o before after in
      let g = Step-Grown e step (taken_in run) (emitted run) (Reach-Logged e empty run) in
      (
        later ++ g.later,
        g.longer ∙ ap (◌++ g.later) longer ∙ append_assoc (serial_log e empty before) later g.later,
      )

  -- Every run of the threads is linearizable, a call of a method being one step, at an executor on which
  -- nothing was queued: its one serial order, of requests each made of a message that was taken in and
  -- none of them more often than it arrived, leaves the objects as they are at the end when one thread
  -- performs it, and gives all responses that were written. And wherever the run is cut, that order
  -- begins with the serial order of the part before the cut, which leaves the objects as they are at
  -- the cut and gives all responses written before the cut, of requests taken in before the cut. So a
  -- request that was answered before another one came stands before it, in the one order of the run.
  pub real_time :
      (o : ByteOrder) (e : Executor m l S) (s t : System m l S) (empty : IsEmpty e)
      (before : Reach o (started e) s) (after : Reach o s t)
      → let whole = join o before after in
        (later : List (DousiRequest m)) × (done : List DousiResponse) × (all_done : List
          DousiResponse)
        × (serial_log e empty whole ≡ serial_log e empty before ++ later)
        × (run_serial e (serial_log e empty whole) e.objects ≡ ok (all_done, t.executor.objects))
        × All (IsSent (taken_in whole)) (serial_log e empty whole)
        × ((k : Key) → tally request_key k (serial_log e empty whole) ≤ tally itself k t.arrived)
        × All (λ r. Has r all_done) (emitted whole)
        × (run_serial e (serial_log e empty before) e.objects ≡ ok (done, s.executor.objects))
        × All (IsSent (taken_in before)) (serial_log e empty before)
        × All (λ r. Has r done) (emitted before)
  real_time o e s t empty before after =
      let h = Reach-Logged e empty before in
      let a = Reach-Logged e empty (join o before after) in
      let (later, longer) = serial_log-join o e empty before after in
      (
        later,
        h.done,
        a.done,
        longer,
        a.ran.ran,
        a.logged,
        λ k. omega (arith, a.counted k),
        a.sent_off,
        h.ran.ran,
        h.logged,
        h.sent_off,
      )
