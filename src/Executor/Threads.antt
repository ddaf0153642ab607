-- ===== src/Executor/Threads.antt =====
-- The threads of src/dousi/core/executor: the io threads that accept connections and take messages in,
-- the work threads of `LoopToPerformRequest` and the write threads of `LoopToWriteResponse`, in any
-- order.
--
-- A step is what one thread does between two waits: it pops an entry, performs a request, or writes a
-- response. A method runs as one step; two methods that run on one service object at the same time are
-- not modelled. A step that faults ends the process, so there is no state after it. `arrived` and
-- `written` record, for the statements, which messages were taken in and which responses went to a
-- socket.
pub mod Keys
pub mod Count
pub mod Keeps
pub mod Invariant
pub mod Answers
pub mod Serial
pub mod Log
pub mod Performed
pub mod Growth
pub mod Serializable
pub mod RealTime
pub mod Emitted
pub mod Unique
pub mod Moments
pub mod Load
pub mod Drain
pub mod WentOn
pub mod Overtaking
mod Tests
use dousi.Prelude.{
  ℕ, zero, suc, ◌≡◌, Bool, List, [], ◌∷◌, ◌++◌, Option, none, some, Bytes, get_elem?, set,
}
use dousi.Prelude.Map.{lookup, ℕ_eq}
use dousi.Msgpack.{Msgpack}
use dousi.Queue.LockFree.{LockFree}
use dousi.Stream.{AsioStream}
use dousi.Stream.Word.{ByteOrder}
use dousi.Executor.{
  Executor, Outcome, ok, on_accept, invoke_method, perform_request, write_response, new_executor,
}
use dousi.Executor.Request.{ExecutorOptions, DousiRequest, DousiResponse}
use Keys.{Key}

-- A thread that waits for an entry is `none`; one that has popped an entry holds it.
pub record System (m : Msgpack) (l : LockFree) (S : Type 0) : Type 0 where
  pub executor : Executor m l S
  pub workers : List (Option (DousiRequest m))
  pub writers : List (Option DousiResponse)
  pub arrived : List Key
  pub written : List Key

abbrev pub write_thread_num : ℕ
write_thread_num = 8

-- Threads that have just been started.
abbrev pub spawned : {A : Type 0} → ℕ → List (Option A)
spawned zero = []
spawned (suc n) = none ∷ spawned n

-- An executor whose services and methods are set up, with its threads started.
abbrev pub started : {m : Msgpack} {l : LockFree} {S : Type 0} → Executor m l S → System m l S
started e = record {
  executor = e;
  workers = spawned e.executor_options.work_thread_num;
  writers = spawned write_thread_num;
  arrived = [];
  written = [];
}

pub data Step {m : Msgpack} {l : LockFree} {S : Type 0} (o : ByteOrder) (s : System m l S)
    : System m l S → Type 0 where
  accept :
      (error : Bool) {e : Executor m l S}
      → on_accept error s.executor ≡ ok e
      → Step o s (record s { executor = e })
  arrive :
      (stream_id object_id : ℕ) (buffer : Bytes) {t : AsioStream} {e : Executor m l S}
      → lookup stream_id s.executor.streams ≡ some t
      → invoke_method s.executor stream_id object_id buffer ≡ ok e
      → Step o s (record s { executor = e; arrived = (stream_id, object_id) ∷ s.arrived })
  take :
      (i : ℕ) {r : DousiRequest m} {q : l.Queue (DousiRequest m)}
      → get_elem? s.workers i ≡ some none
      → l.pop s.executor.request_queue ≡ some (r, q)
      → Step o s (record s {
        executor = record (s.executor) { request_queue = q };
        workers = set s.workers i (some r);
      })
  finish :
      (i : ℕ) {r : DousiRequest m} {e : Executor m l S}
      → get_elem? s.workers i ≡ some (some r)
      → perform_request s.executor r ≡ ok e
      → Step o s (record s { executor = e; workers = set s.workers i none })
  fetch :
      (j : ℕ) {r : DousiResponse} {q : l.Queue DousiResponse}
      → get_elem? s.writers j ≡ some none
      → l.pop s.executor.response_queue ≡ some (r, q)
      → Step o s (record s {
        executor = record (s.executor) { response_queue = q };
        writers = set s.writers j (some r);
      })
  emit :
      (j : ℕ) {r : DousiResponse} {t : AsioStream} {bytes : Bytes}
      → get_elem? s.writers j ≡ some (some r)
      → write_response o s.executor r ≡ ok (t, bytes)
      → Step o s (record s {
        writers = set s.writers j none;
        written = (r.stream_id, r.object_id) ∷ s.written;
      })

pub data Reach {m : Msgpack} {l : LockFree} {S : Type 0} (o : ByteOrder) (s : System m l S)
    : System m l S → Type 0 where
  here : Reach o s s
  next : {t u : System m l S} → Reach o s t → Step o t u → Reach o s u
