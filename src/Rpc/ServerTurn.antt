-- ===== src/Rpc/ServerTurn.antt =====
-- One message through src/dousi/core/executor/executor.cc while no other is on its way: an io thread
-- takes it in, a work thread performs it, and a write thread answers.
use dousi.Prelude.{
  ℕ, ◌≡◌, refl, ap, ◌∙◌, true, inl, inr, Bool-cases, [], ◌∷◌, ◌++◌, some, none, Bytes, get_elem?,
  set, ltb, if◌then◌else◌,
}
use dousi.Prelude.Map.{lookup, ℕ_eq, Bytes_eq}
use dousi.Msgpack.{Msgpack, Types, Tuple, pack_args_to_buffer}
use dousi.Traits.{RemoteMethod, serialize_result, with_names}
use dousi.Stream.{AsioStream, Invocation, write}
use dousi.Stream.Word.{ByteOrder}
use dousi.Queue.LockFree.{LockFree, push}
use dousi.Queue.LockFree.Waiting.{pop_front}
use dousi.Executor.{
  Executor, Outcome, ok, out_of_range, fault, bad_function_call, or_fault, and_then,
  register_method, invoke_method, perform_request, write_response,
}
use dousi.Executor.Request.{DousiRequest, DousiResponse}
use dousi.Traits.Laws.{request_object}
use dousi.Executor.Dispatch.{
  perform_request_unknown, request_for, IsRegistered, register_method-IsRegistered,
  perform_request-IsRegistered, invoke_method-pack_args_to_buffer,
}
use dousi.Executor.Threads.Answers.{IsEmpty}

-- A queue with one entry, pushed onto an empty one.
only_entry :
    (l : LockFree) {A : Type 0} (a : A) (q : l.Queue A)
    → l.contents q ≡ []
    → (q' : l.Queue A) × (l.pop (push l a q) ≡ some (a, q')) × (l.contents q' ≡ [])
unfolding push
only_entry l a q e =
    pop_front l (l.push a q) a [] (l.contents-push a q ∙ ap (λ xs. xs ++ (a ∷ [])) e)

module _ {m : Msgpack} {l : LockFree} {S : Type 0} where
  -- One entry in `LoopToPerformRequest`.
  unfoldable pub perform_next : Executor m l S → Outcome (Executor m l S)
  perform_next e =
      and_then (or_fault (l.pop e.request_queue) out_of_range)
        (λ p. perform_request (record e { request_queue = p.1 }) p.0)

  -- One entry in `LoopToWriteResponse`.
  unfoldable pub write_next : ByteOrder → Executor m l S → Outcome (Executor m l S × Bytes)
  write_next o e = and_then (or_fault (l.pop e.response_queue) out_of_range) (λ p.
      let e' = record e { response_queue = p.1 } in
      and_then (write_response o e' p.0) (λ w. ok (e', w.1)))

  -- Without work threads the io thread has performed the request already, in `invoke_method`.
  unfoldable pub server_turn :
      ByteOrder → Executor m l S → Invocation → Outcome (Executor m l S × Bytes)
  unfolding perform_next write_next
  server_turn o e i = and_then (invoke_method e i.stream_id i.object_id i.body) (λ e1.
      and_then (if ltb 0 e.executor_options.work_thread_num then perform_next e1 else ok e1)
        (λ e2. write_next o e2))

  -- A message for a method that is registered: the executor afterwards, and the answer.
  pub server_turn-IsRegistered :
      (o : ByteOrder) (e : Executor m l S) (address index : ℕ) (rm : RemoteMethod m.Object S)
      (object : S) (object_id stream_id : ℕ) (service_name : Bytes) (args : Tuple rm.traits.args)
      {t : AsioStream}
      → IsRegistered e address rm
      → get_elem? e.services address ≡ some (some index)
      → get_elem? e.objects index ≡ some object
      → IsEmpty e
      → ltb 0 e.executor_options.work_thread_num ≡ true
      → lookup stream_id e.streams ≡ some t
      → let message : Invocation = record {
        stream_id = stream_id;
        object_id = object_id;
        body =
            pack_args_to_buffer m
              (with_names m rm.traits.args)
              (service_name, (rm.method_name, args));
      } in
        (q : l.Queue (DousiRequest m)) × (q' : l.Queue DousiResponse) × (server_turn o e message
          ≡ ok (
            record e {
              objects = set e.objects index (rm.method args object).1;
              request_queue = q;
              response_queue = q';
            },
            write o object_id (serialize_result m rm.traits.return_type (rm.method args object).0),
          ))
        × (l.contents q ≡ [])
        × (l.contents q' ≡ [])
  unfolding server_turn write_response
  server_turn-IsRegistered o e address index rm object object_id stream_id service_name args
        registered live held empty threads stream =
      let r = request_for object_id stream_id service_name rm args in
      let (q, popped, left) = only_entry l r e.request_queue empty.no_requests in
      let response : DousiResponse = record {
        object_id = object_id;
        stream_id = stream_id;
        result = serialize_result m rm.traits.return_type (rm.method args object).0;
      } in
      let (q', popped', left') = only_entry l response e.response_queue empty.no_responses in
      (
        q,
        q',
        rw (
          invoke_method-pack_args_to_buffer e stream_id object_id service_name rm.method_name
              rm.traits.args args,
          threads,
          popped,
          perform_request-IsRegistered (record e { request_queue = q }) address index rm object
              object_id stream_id service_name args registered live held,
          popped',
          stream,
        ),
        left,
        left',
      )

  -- With work threads, and nothing else on its way, a call of a method that was registered last under
  -- its name is answered on the stream that it came from, under its object id, with the serialized
  -- result of the method; the object is changed as the method says, and nothing is left queued.
  pub server_turn_lem :
      (o : ByteOrder) (e : Executor m l S) (address index : ℕ) (rm : RemoteMethod m.Object S)
      (object : S) (object_id stream_id : ℕ) (service_name : Bytes) (args : Tuple rm.traits.args)
      {t : AsioStream}
      → get_elem? e.services address ≡ some (some index)
      → get_elem? e.objects index ≡ some object
      → IsEmpty e
      → ltb 0 e.executor_options.work_thread_num ≡ true
      → lookup stream_id e.streams ≡ some t
      → let message : Invocation = record {
        stream_id = stream_id;
        object_id = object_id;
        body =
            pack_args_to_buffer m
              (with_names m rm.traits.args)
              (service_name, (rm.method_name, args));
      } in
        (e' : Executor m l S) × (server_turn o (register_method address rm e) message
          ≡ ok (
            e',
            write o object_id (serialize_result m rm.traits.return_type (rm.method args object).0),
          ))
        × (e'.objects ≡ set e.objects index (rm.method args object).1)
        × IsEmpty e'
  unfolding register_method
  server_turn_lem o e address index rm object object_id stream_id service_name args live held empty
        threads stream =
      let (q, q', turned, left, left') =
        server_turn-IsRegistered o (register_method address rm e) address index rm object object_id
          stream_id service_name args (register_method-IsRegistered e address rm) live held
          (record { no_requests = empty.no_requests; no_responses = empty.no_responses }) threads
          stream in
      (_, turned, refl, record { no_requests = left; no_responses = left' })

  -- A call of a method that is not registered throws where it is performed, on a work thread or, if
  -- there are none, on the io thread, whatever its arguments; so it ends the server's process.
  pub server_turn_unknown :
      (o : ByteOrder) (e : Executor m l S) (object_id stream_id : ℕ)
      (service_name method_name : Bytes) (ts : Types m.Object) (args : Tuple ts)
      → IsEmpty e
      → lookup method_name e.registered_methods ≡ none
      → server_turn o e (record {
        stream_id = stream_id;
        object_id = object_id;
        body = pack_args_to_buffer m (with_names m ts) (service_name, (method_name, args));
      })
        ≡ fault bad_function_call
  unfolding server_turn
  server_turn_unknown o e object_id stream_id service_name method_name ts args empty unknown =
      let r : DousiRequest m = record {
        object_id = object_id;
        stream_id = stream_id;
        unpacked = request_object m service_name method_name ts args;
        method_name = method_name;
      } in
      let (q, popped, left) = only_entry l r e.request_queue empty.no_requests in
      let taken =
        invoke_method-pack_args_to_buffer e stream_id object_id service_name method_name ts args in
      elim (Bool-cases (ltb 0 e.executor_options.work_thread_num)) [
        | inl t ↦
            rw
              (taken, t, popped, perform_request_unknown (record e { request_queue = q }) r unknown)
              refl
        | inr f ↦ rw (taken, f, perform_request_unknown e r unknown) refl
      ]
