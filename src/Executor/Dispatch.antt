-- ===== src/Executor/Dispatch.antt =====
-- Which method a request reaches, and what becomes of it: `InvokeMethod` and `PerformRequest` of
-- src/dousi/core/executor/executor.cc.
use dousi.Prelude.{
  ◌⊎◌, inl, inr, sym, ◌∙◌, some_inj, Bool, true, false, ℕ, ◌≡◌, Option, none, some, Bytes,
  get_elem?, set, get_elem?-set_self, ltb, if◌then◌else◌,
}
use dousi.Prelude.Map.{lookup, lookup-insert, lookup-insert_self, Bytes_eq}
use dousi.Msgpack.{Types, Tuple, Msgpack, pack_args_to_buffer}
use dousi.Traits.{RemoteMethod, serialize_result, with_names, invoke}
use dousi.Traits.Laws.{request_object, as_tuple-names, invoke-request_object}
use dousi.Queue.LockFree.{LockFree, push}
use dousi.Executor.{
  Executor, Bound, ok, fault, bad_function_call, dangling_service, register_method, destroy_service,
  call_bound, call_method, perform_request, invoke_method,
}
use dousi.Executor.Request.{DousiRequest, DousiResponse}

if_cases : {A : Type 0} (t : Bool) (x y z : A) → (if t then x else y) ≡ z → (x ≡ z) ⊎ (y ≡ z)
if_cases true x y z h = inl h
if_cases false x y z h = inr h

module _ {m : Msgpack} {S : Type 0} where
  -- A request of a client for this method, with arguments of the method's own types.
  abbrev pub request_for :
      (object_id stream_id : ℕ)
      → Bytes
      → (rm : RemoteMethod m.Object S) → Tuple rm.traits.args
      → DousiRequest m
  request_for object_id stream_id service_name rm args = record {
    object_id = object_id;
    stream_id = stream_id;
    unpacked = request_object m service_name rm.method_name rm.traits.args args;
    method_name = rm.method_name;
  }

module _ {m : Msgpack} {l : LockFree} {S : Type 0} where
  -- A request for the name of the method reaches the method, at the service at the address.
  abbrev pub IsRegistered : Executor m l S → ℕ → RemoteMethod m.Object S → Type 0
  IsRegistered e address rm =
      lookup rm.method_name e.registered_methods
      ≡ some (some (record { helper = invoke m rm; service_instance = address }))

  -- What is found after a registration: the method that was registered, or what was found before.
  pub register_method_found :
      (e : Executor m l S) (address : ℕ) (rm : RemoteMethod m.Object S) (name : Bytes)
      (b : Bound m S)
      → lookup name (register_method address rm e).registered_methods ≡ some (some b)
      → (b ≡ record { helper = invoke m rm; service_instance = address })
        ⊎ (lookup name e.registered_methods ≡ some (some b))
  unfolding register_method
  register_method_found e address rm name b found =
      let bound : Bound m S = record { helper = invoke m rm; service_instance = address } in
      elim (if_cases _ (some (some bound)) (lookup name e.registered_methods) (some (some b))
        (sym (lookup-insert rm.method_name name (some bound) e.registered_methods) ∙ found)) [
          | inl it ↦ inl (sym (some_inj (some_inj it)))
          | inr old ↦ inr old
        ]

  pub register_method-IsRegistered :
      (e : Executor m l S) (address : ℕ) (rm : RemoteMethod m.Object S)
      → IsRegistered (register_method address rm e) address rm
  unfolding register_method
  register_method-IsRegistered e address rm =
      lookup-insert_self rm.method_name _ e.registered_methods

  pub perform_request-IsRegistered :
      (e : Executor m l S) (address index : ℕ) (rm : RemoteMethod m.Object S) (object : S)
      (object_id stream_id : ℕ) (service_name : Bytes) (args : Tuple rm.traits.args)
      → IsRegistered e address rm
      → get_elem? e.services address ≡ some (some index)
      → get_elem? e.objects index ≡ some object
      → let response : DousiResponse = record {
        object_id = object_id;
        stream_id = stream_id;
        result = serialize_result m rm.traits.return_type (rm.method args object).0;
      } in
        perform_request e (request_for object_id stream_id service_name rm args)
        ≡ ok (record e {
          objects = set e.objects index (rm.method args object).1;
          response_queue = push l response e.response_queue;
        })
  unfolding perform_request call_method call_bound
  perform_request-IsRegistered e address index rm object object_id stream_id service_name args
        registered live held =
      rw (
        registered,
        call_method,
        live,
        call_bound,
        held,
        invoke-request_object m rm service_name rm.method_name args object,
      )

  -- A method that was registered last under its name, for a service that is alive: a request for it
  -- calls the method on the object of that service with the arguments that were packed, whatever
  -- service the request names and whatever was registered under the name before. The response
  -- carries the ids of the request and the serialized result, only that object changes, and nothing
  -- else of the executor does.
  pub perform_request-register_method :
      (e : Executor m l S) (address index : ℕ) (rm : RemoteMethod m.Object S) (object : S)
      (object_id stream_id : ℕ) (service_name : Bytes) (args : Tuple rm.traits.args)
      → get_elem? e.services address ≡ some (some index)
      → get_elem? e.objects index ≡ some object
      → let registered = register_method address rm e in
        let response : DousiResponse = record {
          object_id = object_id;
          stream_id = stream_id;
          result = serialize_result m rm.traits.return_type (rm.method args object).0;
        } in
        perform_request registered (request_for object_id stream_id service_name rm args)
        ≡ ok (record registered {
          objects = set e.objects index (rm.method args object).1;
          response_queue = push l response e.response_queue;
        })
  unfolding register_method
  perform_request-register_method e address index rm object object_id stream_id service_name args
        live held =
      perform_request-IsRegistered (register_method address rm e) address index rm object object_id
        stream_id service_name args (register_method-IsRegistered e address rm) live held

  -- Once the `DousiService` through which a method was registered is destroyed, a request for the
  -- method uses a dangling pointer.
  pub perform_request-destroy_service :
      (e : Executor m l S) (address : ℕ) (was : Option ℕ) (rm : RemoteMethod m.Object S)
      (request : DousiRequest m)
      → get_elem? e.services address ≡ some was
      → request.method_name ≡ rm.method_name
      → perform_request (destroy_service address (register_method address rm e)) request
        ≡ fault dangling_service
  unfolding perform_request call_method call_bound destroy_service register_method
  perform_request-destroy_service e address was rm request there named = rw (
    named,
    lookup-insert_self rm.method_name
        (some (record { helper = invoke m rm; service_instance = address })) e.registered_methods,
    call_method,
    call_bound,
    get_elem?-set_self e.services address none was there,
  )

  -- What a client packs for a call is taken in whole: with work threads a request with the ids of the
  -- message and the name of the method is queued, and nothing else changes; without, that request is
  -- performed at once.
  pub invoke_method-pack_args_to_buffer :
      (e : Executor m l S) (stream_id object_id : ℕ) (service_name method_name : Bytes)
      (ts : Types m.Object) (args : Tuple ts)
      → let request : DousiRequest m = record {
        object_id = object_id;
        stream_id = stream_id;
        unpacked = request_object m service_name method_name ts args;
        method_name = method_name;
      } in
        invoke_method e stream_id object_id
          (pack_args_to_buffer m (with_names m ts) (service_name, (method_name, args)))
        ≡ (if ltb 0 e.executor_options.work_thread_num
            then ok (record e { request_queue = push l request e.request_queue })
            else perform_request e request)
  unfolding invoke_method pack_args_to_buffer
  invoke_method-pack_args_to_buffer e stream_id object_id service_name method_name ts args = rw (
    m.unpack-pack (request_object m service_name method_name ts args),
    as_tuple-names m service_name method_name ts args,
  )

  -- A request for a method that is not registered throws.
  pub perform_request_unknown :
      (e : Executor m l S) (request : DousiRequest m)
      → lookup request.method_name e.registered_methods ≡ none
      → perform_request e request ≡ fault bad_function_call
  unfolding perform_request call_method
  perform_request_unknown e request missing = rw (missing, call_method)
