-- ===== src/Rpc/Exchange.antt =====
-- A whole call: src/dousi/core/submitter at the client, src/dousi/core/executor at the server, and the
-- streams of src/dousi/core/stream between them.
pub mod Whole
use native.Mathlib.Nat.{mod-eq_of_lt}
use dousi.Prelude.{
  ℕ, ◌+◌, ◌%◌, ◌^◌, ◌<◌, ◌≡◌, refl, ap, sym, ◌∙◌, true, false, List, [], ◌∷◌, ◌++◌, append-nil,
  Option, none, some, Bytes, length, get_elem?, set, get_elem?-set_self, ltb, ◌≤◌, ◌>>=◌, arith,
}
use dousi.Prelude.Map.{lookup, insert, lookup-insert_self, lookup-insert_ne, ℕ_eq, Bytes_eq}
use dousi.Msgpack.{Codec, Types, Tuple, Msgpack, pack_args_to_buffer}
use dousi.Traits.{ReturnType, Result, RemoteMethod, with_names, serialize_result}
use dousi.Stream.{AsioStream, Invocation, new_stream, start, write}
use dousi.Stream.Word.{ByteOrder}
use dousi.Stream.Transport.{AsyncRead}
use dousi.Stream.Loop.{serve}
use dousi.Stream.Loop.RoundTrip.{write_all, serve-write_all}
use dousi.Queue.LockFree.{LockFree}
use dousi.Executor.{Executor, Outcome, ok, fault, register_method}
use dousi.Executor.Threads.Answers.{IsEmpty}
use dousi.Submitter.{Submitter, cpp, submit, request_object_id}
use dousi.Submitter.Future.{get, get_object, decode_object}
use dousi.Submitter.Polling.{get_bytes_miss, get_bytes_hit}
use dousi.Submitter.Handle.{ServiceHandle, get_service, FutureType, Called, call, internal_call}
use dousi.Executor.Dispatch.{IsRegistered}
use dousi.Rpc.ServerTurn.{server_turn, server_turn-IsRegistered}

abbrev pub succeeded : {A : Type 0} → Outcome A → Option A
succeeded (ok a) = some a
succeeded (fault e) = none

abbrev pub only : {A : Type 0} → List A → Option A
only (a ∷ []) = some a
only _ = none

module _ (net : AsyncRead) (o : ByteOrder) where
  -- What the stream on the other side makes of one frame; after it the peer closes.
  pub read_one : ℕ → Bytes → Option Invocation
  read_one stream_id wire = only (serve net o 4 (start (new_stream stream_id)) wire).calls

  -- One frame is one message, with the object id modulo 2 ^ 32, if a uint32_t holds its size.
  pub read_one-write :
      (stream_id object_id : ℕ) (bytes : Bytes)
      → length bytes < 2 ^ 32
      → read_one stream_id (write o object_id bytes)
        ≡ some (record { stream_id = stream_id; object_id = object_id % 2 ^ 32; body = bytes })
  unfolding read_one
  read_one-write stream_id object_id bytes fits =
      let (calls, stream) =
        serve-write_all net o (new_stream stream_id) ((object_id, bytes) ∷ []) [] (fits, tt)
          (omega arith) in
      let wire : write_all o ((object_id, bytes) ∷ []) ++ [] ≡ write o object_id bytes =
        append-nil _ ∙ append-nil _ in
      ap only (ap (λ w. (serve net o 4 (start (new_stream stream_id)) w).calls) (sym wire) ∙ calls)

module _ (net : AsyncRead) (o : ByteOrder) (m : Msgpack) {l : LockFree} {S : Type 0} where
  -- `handle.Call(method, args...)` and `Get()` of its future, while nothing else is on its way: the
  -- request goes to the server, which answers, and the answer arrives during the first sleep of
  -- `Get`. `none`: an exception or a fault on the way, or `Get` polls on.
  pub round_trip :
      (s : Submitter)
      → ServiceHandle
      → (rm : RemoteMethod m.Object S) (ts : Types m.Object) → Tuple ts
      → Codec m.Object (FutureType rm.traits.return_type)
      → ℕ
      → Executor m l S
      → Option (Option (FutureType rm.traits.return_type) × Submitter × Executor m l S)
  round_trip s handle rm ts args c stream_id e = do
    called ← call m o s handle rm ts args
    request ← read_one net o stream_id called.wire
    (e', bytes) ← succeeded (server_turn o e request)
    answer ← read_one net o 0 bytes
    got ← get m c called.future called.submitter ((answer ∷ []) ∷ [])
    some (got.pointer, got.submitter, e')

pub bind_twice :
    {A B C : Type 0} (x : Option A) (f : A → B) (g : B → C)
    → ((do a ← x; some (f a)) >>= (λ b. some (g b))) ≡ (do a ← x; some (g (f a)))
bind_twice none f g = refl
bind_twice (some a) f g = refl

-- A C++ client that is connected, has made fewer than 2 ^ 32 calls, and holds no answer to a later one.
pub record IsReady (s : Submitter) : Type 0 where
  pub connected : (t : AsioStream) × (s.stream ≡ some t)
  pub language : s.client_language ≡ cpp
  pub few_calls : s.curr_object_id < 2 ^ 32
  pub unanswered : (k : ℕ) → s.curr_object_id ≤ k → lookup k s.cached_objects ≡ none

-- A server with work threads and nothing on its way, on which the service at `address` is alive, with
-- this object, and the stream is known.
pub record IsServing {m : Msgpack} {l : LockFree} {S : Type 0} (e : Executor m l S)
    (address index : ℕ) (object : S) (stream_id : ℕ) : Type 0 where
  pub live : get_elem? e.services address ≡ some (some index)
  pub object_held : get_elem? e.objects index ≡ some object
  pub nothing_queued : IsEmpty e
  pub threads : ltb 0 e.executor_options.work_thread_num ≡ true
  pub stream : (t : AsioStream) × (lookup stream_id e.streams ≡ some t)

-- The next call of a client that is ready.
abbrev pub called_once : {T : Type 0} → ByteOrder → Submitter → Bytes → Called T
called_once o s packed = record {
  wire = write o s.curr_object_id packed;
  future = record { has_data = false; data_ptr = none; object_id = s.curr_object_id };
  submitter = record s { curr_object_id = (s.curr_object_id + 1) % 2 ^ 64 };
}

-- The client once the answer to that call has arrived.
abbrev pub answered : Submitter → Bytes → Submitter
answered s bytes = record s {
  curr_object_id = (s.curr_object_id + 1) % 2 ^ 64;
  cached_objects = insert s.curr_object_id bytes s.cached_objects;
}

pub answered-IsReady :
    (s : Submitter) (bytes : Bytes)
    → IsReady s
    → s.curr_object_id + 1 < 2 ^ 32
    → IsReady (answered s bytes)
answered-IsReady s bytes ready few = record {
  connected = ready.connected;
  language = ready.language;
  few_calls = omega arith;
  unanswered = λ k later.
      lookup-insert_ne s.curr_object_id k bytes s.cached_objects
        (λ same. absurd (omega (arith, same)))
      ∙ ready.unanswered k (omega arith);
}

module _ (o : ByteOrder) (m : Msgpack) where
  pub call_ready :
      {S : Type 0} (s : Submitter) (handle : ServiceHandle) (rm : RemoteMethod m.Object S)
      (ts : Types m.Object) (args : Tuple ts)
      → IsReady s
      → call m o s handle rm ts args
        ≡ some (
            called_once o s (
              pack_args_to_buffer m
                (with_names m ts)
                (handle.service_name, (rm.method_name, args))))
  unfolding call internal_call submit request_object_id
  call_ready s handle rm ts args ready = rw (ready.connected.1)

module _ (m : Msgpack) where
  -- The answer to a call is decoded as the client asks for it.
  pub get_answer :
      {T : Type 0} (c : Codec m.Object T) (s : Submitter) (bytes : Bytes)
      → IsReady s
      → let k = s.curr_object_id in
        let s1 = record s { curr_object_id = (k + 1) % 2 ^ 64 } in
        get m c
          (record { has_data = false; data_ptr = none; object_id = k })
          s1
          ((record { stream_id = 0; object_id = k; body = bytes } ∷ []) ∷ [])
        ≡ (do
          x ← decode_object m c bytes
          some (record {
            pointer = some x;
            future = record { has_data = true; data_ptr = some x; object_id = k };
            submitter = answered s bytes;
          }))
  unfolding get get_object
  get_answer c s bytes ready =
      let k = s.curr_object_id in
      let s1 = record s { curr_object_id = (k + 1) % 2 ^ 64 } in
      let answer : Invocation = record { stream_id = 0; object_id = k; body = bytes } in
      let s2 = record s1 { cached_objects = insert k bytes s.cached_objects } in
      rw
        (
          get_bytes_miss s1 k (answer ∷ []) [] ready.language (ready.unanswered k (omega arith)),
          get_bytes_hit s2 k bytes [] (lookup-insert_self k bytes s.cached_objects),
        )
        (bind_twice (decode_object m c bytes) _ _)
