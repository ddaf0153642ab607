-- ===== src/Executor.antt =====
-- src/dousi/core/executor/executor.h, executor.cc and dousi_service.h: the server's half of the program.
--
-- The record holds what the threads share. Each function below is what one thread does between two
-- points at which it may wait; Executor/Threads lets the threads run in any order. `objects` are the
-- service objects, kept alive by std::shared_ptr, and `services` the `DousiService` values by their
-- address, of which the owner may end the life. `S` is the type of all service objects. Log lines are
-- left out.
pub mod IoPool
pub mod Request
pub mod Sample
pub mod Dispatch
pub mod Streams
pub mod Threads
pub mod Monitor
pub mod Listening
mod Tests
use dousi.Prelude.{
  ℕ, ◌+◌, ◌%◌, ◌^◌, Bool, true, false, List, [], ◌∷◌, ◌++◌, Option, none, some, Bytes, length,
  get_elem?, set, ltb, if◌then◌else◌, ◌>>=◌,
}
use dousi.Prelude.Map.{Map, lookup, insert, ℕ_eq, Bytes_eq}
use dousi.Msgpack.{Msgpack}
use dousi.Traits.{RemoteMethod, names, invoke}
use dousi.Endpoint.{TcpEndpoint, endpoint, get_tcp_endpoint}
use dousi.Stream.{AsioStream, new_stream, start, write}
use dousi.Stream.Word.{ByteOrder}
use dousi.Queue.LockFree.{LockFree, new_queue, push}
use IoPool.{IoThreadPool, new_pool, get_next_io_service}
use Request.{ExecutorOptions, DousiRequest, DousiResponse}

-- What std::bind makes of `InvokeHelper<R>::Invoke`, a method and the address of a service.
pub record Bound (m : Msgpack) (S : Type 0) : Type 0 where
  pub helper : m.Object → S → Option (Bytes × S)
  pub service_instance : ℕ

pub data Acceptor : Type 0 where
  null : Acceptor
  listening : TcpEndpoint → Acceptor
  closed : Acceptor

pub record Executor (m : Msgpack) (l : LockFree) (S : Type 0) : Type 0 where
  pub executor_options : ExecutorOptions
  pub curr_stream_id : ℕ  -- std::atomic<uint64_t>
  pub created_services : Map Bytes ℕ
  pub registered_methods : Map Bytes (Option (Bound m S))  -- `none`: an empty std::function
  pub acceptor : Acceptor
  pub streams : Map ℕ AsioStream
  pub request_queue : l.Queue (DousiRequest m)
  pub response_queue : l.Queue DousiResponse
  pub io_thread_pool : IoThreadPool
  pub listening_addr : Bytes
  pub objects : List S
  pub services : List (Option ℕ)  -- address ↦ index of `service_object_`; `none`: destroyed

-- How a thread of the executor can fail; no exception is caught, so each ends the process.
pub data Fault : Type 0 where
  msgpack_error bad_function_call dangling_service out_of_range assertion_failed : Fault

pub data Outcome (A : Type 0) : Type 0 where
  ok : A → Outcome A
  fault : Fault → Outcome A

abbrev pub or_fault : {A : Type 0} → Option A → Fault → Outcome A
or_fault none e = fault e
or_fault (some a) e = ok a

abbrev pub and_then : {A B : Type 0} → Outcome A → (A → Outcome B) → Outcome B
and_then (ok a) f = f a
and_then (fault e) f = fault e

module _ {m : Msgpack} {l : LockFree} {S : Type 0} where
  -- The constructor. The threads that it starts are those of Executor/Threads.
  unfoldable pub new_executor : ExecutorOptions → Executor m l S
  new_executor options = record {
    executor_options = options;
    curr_stream_id = 0;
    created_services = [];
    registered_methods = [];
    acceptor = null;
    streams = [];
    request_queue = new_queue l (DousiRequest m);
    response_queue = new_queue l DousiResponse;
    io_thread_pool = new_pool options.io_thread_num;
    listening_addr = [];
    objects = [];
    services = [];
  }

  -- `Init`: `binds` says whether the acceptor can listen at an endpoint; otherwise its constructor
  -- throws. `none` is an exception, also that of the address.
  unfoldable pub init : (TcpEndpoint → Bool) → Bytes → Executor m l S → Option (Executor m l S)
  init binds listening_address e = do
    parsed ← endpoint listening_address
    if binds (get_tcp_endpoint parsed)
        then some (record e {
          listening_addr = listening_address;
          acceptor = listening (get_tcp_endpoint parsed);
        })
        else none

  unfoldable pub shutdown : Executor m l S → Executor m l S
  shutdown e = record e { acceptor = closed }

  -- `CreateService<S>`: the address of the `DousiService` that is returned.
  unfoldable pub create_service : Bytes → S → Executor m l S → ℕ × Executor m l S
  create_service service_name object e = (
    length e.services,
    record e {
      created_services = insert service_name (length e.objects) e.created_services;
      objects = e.objects ++ (object ∷ []);
      services = e.services ++ (some (length e.objects) ∷ []);
    },
  )

  -- The end of the life of a `DousiService`: what is registered is left as it is.
  unfoldable pub destroy_service : ℕ → Executor m l S → Executor m l S
  destroy_service address e = record e { services = set e.services address none }

  -- `DousiService::RegisterMethod` and `Executor::RegisterMethod`. The key is the method's name alone.
  unfoldable pub register_method : ℕ → RemoteMethod m.Object S → Executor m l S → Executor m l S
  register_method address rm e =
      let bound : Bound m S = record { helper = invoke m rm; service_instance = address } in
      record e { registered_methods = insert rm.method_name (some bound) e.registered_methods }

  -- `RequestStreamID`
  unfoldable pub request_stream_id : Executor m l S → ℕ × Executor m l S
  request_stream_id e =
      (e.curr_stream_id, record e { curr_stream_id = (e.curr_stream_id + 1) % 2 ^ 64 })

  -- `DoAccept`: a socket is made on the next io_service, and an accept is posted for it.
  unfoldable pub do_accept : Executor m l S → Outcome (Executor m l S)
  do_accept e =
      and_then (or_fault (get_next_io_service e.io_thread_pool) out_of_range)
        (λ p. ok (record e { io_thread_pool = p.1 }))

  -- `Loop`, up to `io_service_.run()`, which does not return.
  abbrev pub loop : Executor m l S → Outcome (Executor m l S)
  loop e = do_accept e

  -- A connection gets the next stream id, is put into the map and starts to read.
  unfoldable pub add_stream : Executor m l S → Executor m l S
  unfolding request_stream_id
  add_stream e =
      let (stream_id, e') = request_stream_id e in
      record e' { streams = insert stream_id (start (new_stream stream_id)) e'.streams }

  -- The handler of an accept, `true` for an error code: then nothing is added. Either way the next
  -- accept is posted.
  unfoldable pub on_accept : Bool → Executor m l S → Outcome (Executor m l S)
  unfolding add_stream do_accept
  on_accept error e = do_accept (if error then e else add_stream e)

  -- The call of `method` in `PerformRequest`, on the object of the service that is bound.
  unfoldable pub call_bound :
      Executor m l S → Bound m S → m.Object → Outcome (Bytes × Executor m l S)
  call_bound e bound unpacked = elim (get_elem? e.services bound.service_instance) [
    | some (some index) ↦
        and_then (or_fault (get_elem? e.objects index) dangling_service) (λ object.
          and_then (or_fault (bound.helper unpacked object) msgpack_error)
            (λ r. ok (r.0, record e { objects = set e.objects index r.1 })))
    | _ ↦ fault dangling_service
  ]

  -- `registered_methods_[request.method_name_]`: a name that is missing is inserted with an empty
  -- function, and the call of an empty function throws.
  unfoldable pub call_method : Executor m l S → Bytes → m.Object → Outcome (Bytes × Executor m l S)
  unfolding call_bound
  call_method e method_name unpacked = elim (lookup method_name e.registered_methods) [
    | some (some bound) ↦ call_bound e bound unpacked
    | _ ↦ fault bad_function_call
  ]

  -- `PerformRequest`
  unfoldable pub perform_request : Executor m l S → DousiRequest m → Outcome (Executor m l S)
  unfolding call_method push
  perform_request e request = and_then (call_method e request.method_name request.unpacked) (λ r.
      let response : DousiResponse = record {
        object_id = request.object_id;
        stream_id = request.stream_id;
        result = r.0;
      } in
      let e' = r.1 in ok (record e' { response_queue = push l response e'.response_queue }))

  -- `InvokeMethod`
  unfoldable pub invoke_method : Executor m l S → ℕ → ℕ → Bytes → Outcome (Executor m l S)
  unfolding perform_request push
  invoke_method e stream_id object_id buffer =
      and_then (or_fault (m.unpack buffer) msgpack_error) (λ unpacked.
        and_then (or_fault (m.as_tuple (names m) unpacked) msgpack_error) (λ tuple.
          let request : DousiRequest m = record {
            object_id = object_id;
            stream_id = stream_id;
            unpacked = unpacked;
            method_name = tuple.1.0;
          } in
          if ltb 0 e.executor_options.work_thread_num
          then ok (record e { request_queue = push l request e.request_queue })
          else perform_request e request))

  -- One response in `LoopToWriteResponse`: the stream and the bytes that go to its socket.
  unfoldable pub write_response :
      ByteOrder → Executor m l S → DousiResponse → Outcome (AsioStream × Bytes)
  write_response o e response =
      and_then (or_fault (lookup response.stream_id e.streams) assertion_failed)
        (λ stream. ok (stream, write o response.object_id response.result))
