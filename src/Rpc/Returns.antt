-- ===== src/Rpc/Returns.antt =====
-- What the caller gets of a whole call, at a method that returns a value and at a void method:
-- src/dousi/core/submitter/dousi_future.h at the end of Rpc/Exchange/Whole.
use native.Mathlib.Nat.{mod-eq_of_lt}
use dousi.Prelude.{
  ℕ, Bool, ◌+◌, ◌%◌, ◌^◌, ◌<◌, ◌≡◌, refl, ap, ◌∙◌, List, [], ◌∷◌, none, some, Bytes, length, set,
  arith,
}
use dousi.Prelude.Map.{ℕ_eq, lookup-insert_self}
use dousi.Msgpack.{Codec, Types, Tuple, Msgpack, pack_args_to_buffer}
use dousi.Traits.{void, value, RemoteMethod, with_names, serialize_result}
use dousi.Stream.{Invocation, write}
use dousi.Stream.Word.{ByteOrder}
use dousi.Stream.Transport.{AsyncRead}
use dousi.Queue.LockFree.{LockFree}
use dousi.Executor.{Executor, ok, register_method}
use dousi.Executor.Threads.Answers.{IsEmpty}
use dousi.Submitter.{Submitter, get_bytes}
use dousi.Submitter.Future.{decode_object, get, get_object, get_if}
use dousi.Submitter.Polling.{get_bytes_miss, get_bytes_hit}
use dousi.Submitter.Handle.{Called, call, get_service}
use dousi.Rpc.ServerTurn.{server_turn, server_turn_lem}
use dousi.Rpc.Exchange.{
  round_trip, IsReady, IsServing, answered, called_once, read_one, read_one-write, call_ready,
}
use dousi.Rpc.Exchange.Whole.{exchange, register_method-IsServing}
use dousi.Executor.Dispatch.{register_method-IsRegistered}

module _ (net : AsyncRead) (o : ByteOrder) (m : Msgpack) {l : LockFree} {S : Type 0} where
  -- At a client that is ready and a server that serves the object at `address`, a call of a method
  -- that was registered last under its name, with arguments of the method's types, returns through
  -- `Get` what the method returns at the arguments and the object. The server's object is changed as
  -- the method says, and nothing is left queued at the server. The packed arguments and the packed
  -- result are each below 2 ^ 32 bytes; the sockets may deliver in whatever pieces.
  pub call_returns :
      (s : Submitter) (service_name method_name : Bytes) (R : Type 0) (c : Codec m.Object R)
      (ts : Types m.Object) (method : Tuple ts → S → R × S) (args : Tuple ts) (e : Executor m l S)
      (address index : ℕ) (object : S) (stream_id : ℕ)
      → let rm : RemoteMethod m.Object S = record {
        method_name = method_name;
        traits = record { return_type = value R c; args = ts };
        method = method;
      } in
        IsReady s
        → IsServing e address index object stream_id
        → length (pack_args_to_buffer m (with_names m ts) (service_name, (method_name, args)))
          < 2 ^ 32
        → length (m.pack (c.encode (method args object).0)) < 2 ^ 32
        → (e' : Executor m l S) × (round_trip net o m s
              (get_service service_name)
              rm
              ts
              args
              c
              stream_id
              (register_method address rm e)
            ≡ some (
              some (method args object).0,
              answered s (m.pack (c.encode (method args object).0)),
              e',
            ))
          × (e'.objects ≡ set e.objects index (method args object).1)
          × IsEmpty e'
  unfolding decode_object serialize_result
  call_returns s service_name method_name R c ts method args e address index object stream_id ready
        serving fits fits' =
      let x = (method args object).0 in
      let rm : RemoteMethod m.Object S = record {
        method_name = method_name;
        traits = record { return_type = value R c; args = ts };
        method = method;
      } in
      let (e', trip, changed, serving', same, alive) =
        exchange net o m s service_name method_name (value R c) ts method args c
          (register_method address rm e) address index object stream_id ready
          (register_method-IsServing net o m rm e address index object stream_id serving)
          (register_method-IsRegistered e address rm) fits fits' in
      (
        e',
        trip ∙ rw (m.unpack-pack (c.encode x), c.decode-encode x) refl,
        changed ∙ unfold register_method in refl,
        serving'.nothing_queued,
      )

  -- At a client that is ready and a server that serves the object, a call of a void method, whose
  -- packed arguments are below 2 ^ 32 bytes: the call is made, the server takes the request in, changes
  -- the object as the method says, and answers with an empty body. When that answer arrives in the
  -- first sleep of `Get`, the polling ends with the empty body, whatever the sleeps after it would have
  -- brought; msgpack refuses to unpack it as the bool of the `DousiFuture<bool>`, so that `Get` throws.
  pub void_call_throws :
      (s : Submitter) (service_name method_name : Bytes) (c : Codec m.Object Bool)
      (ts : Types m.Object) (method : Tuple ts → S → Unit × S) (args : Tuple ts)
      (e : Executor m l S) (address index : ℕ) (object : S) (stream_id : ℕ)
      (later : List (List Invocation))
      → let rm : RemoteMethod m.Object S = record {
        method_name = method_name;
        traits = record { return_type = void; args = ts };
        method = method;
      } in
        let packed = pack_args_to_buffer m (with_names m ts) (service_name, (method_name, args)) in
        let k = s.curr_object_id in
        let called : Called Bool = called_once o s packed in
        let request : Invocation = record { stream_id = stream_id; object_id = k; body = packed } in
        let answer : Invocation = record { stream_id = 0; object_id = k; body = [] } in
        IsReady s
        → IsServing e address index object stream_id
        → length packed < 2 ^ 32
        → (call m o s (get_service service_name) rm ts args ≡ some called)
          × (read_one net o stream_id called.wire ≡ some request)
          × ((e' : Executor m l S) × (server_turn o (register_method address rm e) request
                ≡ ok (e', write o k []))
              × (e'.objects ≡ set e.objects index (method args object).1))
          × (read_one net o 0 (write o k []) ≡ some answer)
          × (get_bytes called.submitter called.future.object_id ((answer ∷ []) ∷ later)
              ≡ some ([], answered s []))
          × (decode_object m c [] ≡ none)
          × (get m c called.future called.submitter ((answer ∷ []) ∷ later) ≡ none)
  unfolding decode_object get get_object get_if serialize_result
  void_call_throws s service_name method_name c ts method args e address index object stream_id
        later ready serving fits =
      let rm : RemoteMethod m.Object S = record {
        method_name = method_name;
        traits = record { return_type = void; args = ts };
        method = method;
      } in
      let k = s.curr_object_id in
      let packed = pack_args_to_buffer m (with_names m ts) (service_name, (method_name, args)) in
      let (e', turned, changed, empty) =
        server_turn_lem o e address index rm object k stream_id service_name args serving.live
          serving.object_held serving.nothing_queued serving.threads serving.stream.1 in
      let asked : Submitter = record s { curr_object_id = (k + 1) % 2 ^ 64 } in
      let answer : Invocation = record { stream_id = 0; object_id = k; body = [] } in
      let polled : get_bytes asked k ((answer ∷ []) ∷ later) ≡ some ([], answered s []) =
        get_bytes_miss asked k (answer ∷ []) later ready.language (ready.unanswered k (omega arith))
        ∙ get_bytes_hit (answered s []) k [] later (lookup-insert_self k [] s.cached_objects) in
      let refused : decode_object m c [] ≡ none = rw (m.unpack_nothing) refl in
      (
        call_ready o m s (get_service service_name) rm ts args ready,
        read_one-write net o stream_id k packed fits
            ∙ ap (λ n. some (record { stream_id = stream_id; object_id = n; body = packed }))
                (mod-eq_of_lt ready.few_calls),
        (e', turned, changed),
        read_one-write net o 0 k [] (omega arith)
            ∙ ap (λ n. some (record { stream_id = 0; object_id = n; body = [] }))
                (mod-eq_of_lt ready.few_calls),
        polled,
        refused,
        rw (polled, m.unpack_nothing) refl,
      )
