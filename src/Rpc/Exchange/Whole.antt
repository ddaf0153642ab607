-- ===== src/Rpc/Exchange/Whole.antt =====
-- What becomes of a whole call: the handlers of src/dousi/core/submitter and src/dousi/core/executor together.
use native.Mathlib.Nat.{mod-eq_of_lt}
use dousi.Prelude.{ℕ, ◌^◌, ◌<◌, ◌≡◌, refl, some, Bytes, length, set, get_elem?-set_self, ◌>>=◌}
use dousi.Prelude.Map.{ℕ_eq, Bytes_eq}
use dousi.Msgpack.{Codec, Types, Tuple, Msgpack, pack_args_to_buffer}
use dousi.Traits.{ReturnType, Result, RemoteMethod, with_names, serialize_result}
use dousi.Stream.Word.{ByteOrder}
use dousi.Stream.Transport.{AsyncRead}
use dousi.Queue.LockFree.{LockFree}
use dousi.Executor.{Executor, register_method}
use dousi.Submitter.{Submitter}
use dousi.Submitter.Future.{decode_object}
use dousi.Submitter.Handle.{get_service, FutureType}
use dousi.Executor.Dispatch.{IsRegistered}
use dousi.Rpc.ServerTurn.{server_turn-IsRegistered}
use dousi.Rpc.Exchange.{
  read_one-write, round_trip, bind_twice, IsReady, IsServing, answered, call_ready, get_answer,
}

module _ (net : AsyncRead) (o : ByteOrder) (m : Msgpack) {l : LockFree} {S : Type 0} where
  -- A call of a registered method, up to the decoding of its result at the client; the server goes on
  -- serving the object as the method has left it.
  pub exchange :
      (s : Submitter) (service_name method_name : Bytes) (r : ReturnType m.Object)
      (ts : Types m.Object) (method : Tuple ts → S → Result r × S) (args : Tuple ts)
      (c : Codec m.Object (FutureType r)) (e : Executor m l S) (address index : ℕ) (object : S)
      (stream_id : ℕ)
      → let rm : RemoteMethod m.Object S = record {
        method_name = method_name;
        traits = record { return_type = r; args = ts };
        method = method;
      } in
        let bytes = serialize_result m r (method args object).0 in
        IsReady s
        → IsServing e address index object stream_id
        → IsRegistered e address rm
        → length (pack_args_to_buffer m (with_names m ts) (service_name, (method_name, args)))
          < 2 ^ 32
        → length bytes < 2 ^ 32
        → (e' : Executor m l S) × (round_trip net o m s
              (get_service service_name)
              rm
              ts
              args
              c
              stream_id
              e
            ≡ (do x ← decode_object m c bytes; some (some x, answered s bytes, e')))
          × (e'.objects ≡ set e.objects index (method args object).1)
          × IsServing e' address index (method args object).1 stream_id
          × (e'.registered_methods ≡ e.registered_methods)
          × (e'.services ≡ e.services)
  unfolding round_trip
  exchange s service_name method_name r ts method args c e address index object stream_id ready
        serving registered fits fits' =
      let rm : RemoteMethod m.Object S = record {
        method_name = method_name;
        traits = record { return_type = r; args = ts };
        method = method;
      } in
      let (q, q', turned, left, left') =
        server_turn-IsRegistered o e address index rm object s.curr_object_id stream_id service_name
          args registered serving.live serving.object_held serving.nothing_queued serving.threads
          serving.stream.1 in
      (
        record e {
          objects = set e.objects index (method args object).1;
          request_queue = q;
          response_queue = q';
        },
        rw
            (
              call_ready o m s (get_service service_name) rm ts args ready,
              read_one-write net o stream_id s.curr_object_id _ fits,
              mod-eq_of_lt ready.few_calls,
              turned,
              read_one-write net o 0 s.curr_object_id _ fits',
              mod-eq_of_lt ready.few_calls,
              get_answer m c s (serialize_result m r (method args object).0) ready,
            )
            (bind_twice (decode_object m c (serialize_result m r (method args object).0)) _ _),
        refl,
        record {
          live = serving.live;
          object_held =
              get_elem?-set_self e.objects index (method args object).1 object serving.object_held;
          nothing_queued = record { no_requests = left; no_responses = left' };
          threads = serving.threads;
          stream = serving.stream;
        },
        refl,
        refl,
      )

  -- Registering a method leaves the server serving.
  pub register_method-IsServing :
      (rm : RemoteMethod m.Object S) (e : Executor m l S) (address index : ℕ) (object : S)
      (stream_id : ℕ)
      → IsServing e address index object stream_id
      → IsServing (register_method address rm e) address index object stream_id
  unfolding register_method
  register_method-IsServing rm e address index object stream_id serving = record {
    live = serving.live;
    object_held = serving.object_held;
    nothing_queued = record {
      no_requests = serving.nothing_queued.no_requests;
      no_responses = serving.nothing_queued.no_responses;
    };
    threads = serving.threads;
    stream = serving.stream;
  }
