-- ===== src/Executor/Threads/Serial.antt =====
-- What the work threads of src/dousi/core/executor do to the service objects, against one thread that
-- performs the same requests one after the other.
use dousi.Prelude.{◌≡◌, refl, sym, ap, ◌∙◌, subst, List, [], ◌∷◌, ◌++◌, Bytes, arith}
use dousi.Prelude.Map.{Bytes_eq}
use dousi.Msgpack.{Msgpack}
use dousi.Queue.LockFree.{LockFree, push}
use dousi.Executor.{
  Executor, Bound, Outcome, ok, and_then, call_bound, call_method, perform_request,
}
use dousi.Executor.Request.{DousiRequest, DousiResponse}
use dousi.Executor.Threads.Keeps.{and_then_ok, call_method_keeps}

abbrev pub response_to : {m : Msgpack} → DousiRequest m → Bytes → DousiResponse
response_to r bytes = record { object_id = r.object_id; stream_id = r.stream_id; result = bytes }

pub ok_inj : {A : Type 0} {a b : A} → ok a ≡ ok b → a ≡ b
ok_inj h = ground arith

module _ {m : Msgpack} {l : LockFree} {S : Type 0} where
  -- The requests one after the other on these objects, with the methods and services of the executor:
  -- the responses in order, and the objects.
  unfoldable pub run_serial :
      Executor m l S → List (DousiRequest m) → List S → Outcome (List DousiResponse × List S)
  run_serial e [] objects = ok ([], objects)
  run_serial e (r ∷ rs) objects =
      and_then (call_method (record e { objects = objects }) r.method_name r.unpacked)
        (λ c. and_then (run_serial e rs c.1.objects) (λ p. ok (response_to r c.0 ∷ p.0, p.1)))

  -- A call depends on the methods, the services and the objects only, and changes only the objects.
  call_bound-same :
      (e f : Executor m l S) (bound : Bound m S) (x : m.Object) (r : Bytes × Executor m l S)
      → f.services ≡ e.services
      → f.objects ≡ e.objects
      → call_bound e bound x ≡ ok r
      → (call_bound f bound x ≡ ok (r.0, record f { objects = r.1.objects }))
        × (r.1.registered_methods ≡ e.registered_methods)
        × (r.1.services ≡ e.services)
  unfolding call_bound
  call_bound-same e f bound x r services objects h = ground (arith, services, objects, h)

  pub call_method-same :
      (e f : Executor m l S) (name : Bytes) (x : m.Object) (r : Bytes × Executor m l S)
      → f.registered_methods ≡ e.registered_methods
      → f.services ≡ e.services
      → f.objects ≡ e.objects
      → call_method e name x ≡ ok r
      → (call_method f name x ≡ ok (r.0, record f { objects = r.1.objects }))
        × (r.1.registered_methods ≡ e.registered_methods)
        × (r.1.services ≡ e.services)
  unfolding call_method
  call_method-same e f name x r methods services objects h =
      ground (arith, methods, λ (b : Bound m S). call_bound-same e f b x r services objects)

  run_serial-last :
      (e : Executor m l S) (log : List (DousiRequest m)) (r : DousiRequest m) (start : List S)
      (p : List DousiResponse × List S) (c : Bytes × Executor m l S)
      → run_serial e log start ≡ ok p
      → call_method (record e { objects = p.1 }) r.method_name r.unpacked ≡ ok c
      → run_serial e (log ++ r ∷ []) start ≡ ok (p.0 ++ response_to r c.0 ∷ [], c.1.objects)
  unfolding run_serial
  run_serial-last e [] r start p c ran called =
      subst
        (λ p.
          call_method (record e { objects = p.1 }) r.method_name r.unpacked ≡ ok c
          → run_serial e (r ∷ []) start ≡ ok (p.0 ++ response_to r c.0 ∷ [], c.1.objects))
        (ok_inj ran) (λ called. rw called refl) called
  run_serial-last e (r' ∷ log) r start p c ran called =
      let (c', first, later) =
        and_then_ok (call_method (record e { objects = start }) r'.method_name r'.unpacked) _ ran in
      let (p', rest, same) = and_then_ok (run_serial e log c'.1.objects) _ later in
      subst
        (λ p.
          call_method (record e { objects = p.1 }) r.method_name r.unpacked ≡ ok c
          → run_serial e (r' ∷ (log ++ r ∷ [])) start
            ≡ ok (p.0 ++ response_to r c.0 ∷ [], c.1.objects))
        (ok_inj same)
        (λ called. rw (first, run_serial-last e log r c'.1.objects p' c rest called) refl) called

  -- The requests of the log, performed one after the other from the executor e, give these responses
  -- and leave the objects as they are now; methods and services are still those of e.
  pub record Ran (e : Executor m l S) (log : List (DousiRequest m)) (done : List DousiResponse)
      (now : Executor m l S) : Type 0 where
    pub ran : run_serial e log e.objects ≡ ok (done, now.objects)
    pub methods : now.registered_methods ≡ e.registered_methods
    pub services : now.services ≡ e.services

  -- A request that is performed now is the next in the log.
  pub record Answered (e : Executor m l S) (log : List (DousiRequest m)) (done : List DousiResponse)
      (r : DousiRequest m) (now now' : Executor m l S) : Type 0 where
    pub result : Bytes
    pub goes_on : Ran e (log ++ r ∷ []) (done ++ response_to r result ∷ []) now'
    pub requests : now'.request_queue ≡ now.request_queue
    pub responses : now'.response_queue ≡ push l (response_to r result) now.response_queue

  pub perform_request-Ran :
      (e now now' : Executor m l S) (log : List (DousiRequest m)) (done : List DousiResponse)
      (r : DousiRequest m)
      → Ran e log done now
      → perform_request now r ≡ ok now'
      → Answered e log done r now now'
  unfolding perform_request
  perform_request-Ran e now now' log done r h performed =
      let (c, called, same) = and_then_ok (call_method now r.method_name r.unpacked) _ performed in
      let kept = call_method_keeps now r.method_name r.unpacked c called in
      let (called', methods, services) =
        call_method-same now (record e { objects = now.objects }) r.method_name r.unpacked c
          (sym h.methods) (sym h.services) refl called in
      let now_ = ok_inj same in
      subst (Answered e log done r now) now_ (record {
        result = c.0;
        goes_on = record {
          ran = run_serial-last e log r e.objects (done, now.objects) _ h.ran called';
          methods = methods ∙ h.methods;
          services = services ∙ h.services;
        };
        requests = kept.requests;
        responses = ap (push l (response_to r c.0)) kept.responses;
      })
