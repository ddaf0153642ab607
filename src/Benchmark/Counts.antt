-- ===== src/Benchmark/Counts.antt =====
-- What the counter of the benchmark server counts.
use dousi.Prelude.{
  none_ne_some, ℕ, ◌+◌, ◌%◌, ◌^◌, ◌<◌, ◌≡◌, inl, inr, refl, sym, ap, ◌∙◌, subst, Bool, List, [],
  ◌∷◌, ◌++◌, Option, none, some, Bytes, codes, length, some_inj, >>=-eq-some, arith,
}
use dousi.Prelude.Map.{lookup, Bytes_eq}
use dousi.Msgpack.{Msgpack}
use dousi.Traits.{RemoteMethod, with_names, invoke, trait_and_call}
use dousi.Endpoint.{TcpEndpoint}
use dousi.Logging.{Spdlog, Logging}
use dousi.Stream.Word.{ByteOrder}
use dousi.Queue.LockFree.{LockFree, new_queue}
use dousi.Executor.{
  Executor, Bound, ok, and_then, or_fault, msgpack_error, call_bound, call_method, register_method,
  create_service, new_executor, init,
}
use dousi.Executor.Dispatch.{register_method_found}
use dousi.Executor.Request.{DousiRequest, DousiResponse, default_options}
use dousi.Executor.Threads.{System, Reach, started}
use dousi.Executor.Threads.Keeps.{fault_ne_ok, and_then_ok}
use dousi.Executor.Threads.Invariant.{request_key, itself}
use dousi.Executor.Threads.Answers.{IsEmpty, IsQuiet, quiet_counts}
use dousi.Executor.Threads.Count.{length-tally}
use dousi.Executor.Threads.Serial.{run_serial, ok_inj}
use dousi.Executor.Threads.Log.{or_fault_ok}
use dousi.Executor.Threads.Serializable.{Reach-Logged}
use dousi.Rpc.{rpc_server, server_create_service}
use dousi.Benchmark.Qps.{Qps, new_qps, increase}
use dousi.Benchmark.Service.{echo, slowly_echo, register_benchmark, benchmark_main}

module _ (m : Msgpack) {S : Type 0} where
  invoke-object :
      (rm : RemoteMethod m.Object S) (f : S → S)
      → ((args : _) (object : S) → (rm.method args object).1 ≡ f object)
      → (x : m.Object) (object : S) (p : Bytes × S) → invoke m rm x object ≡ some p
      → p.1 ≡ f object
  unfolding invoke trait_and_call
  invoke-object rm f changes x object p h =
      let (args, _, done) = >>=-eq-some (m.as_tuple (with_names m rm.traits.args) x) _ h in
      sym (ap (λ (p : Bytes × S). p.1) (some_inj done)) ∙ changes args.1.1 object

module _ {m : Msgpack} where
  -- The method is bound to the first service and increases the counter.
  abbrev Increases : Bound m Qps → Type 0
  Increases b =
      (b.service_instance ≡ 0)
      × ((x : m.Object) (q : Qps) (p : Bytes × Qps) → b.helper x q ≡ some p → p.1 ≡ increase q)

  bound-Increases :
      (rm : RemoteMethod m.Object Qps) (address : ℕ) (b : Bound m Qps)
      → ((args : _) (q : Qps) → (rm.method args q).1 ≡ increase q)
      → address ≡ 0
      → b ≡ record { helper = invoke m rm; service_instance = address }
      → Increases b
  bound-Increases rm address b changes at_0 it =
      subst Increases (sym it) (at_0, invoke-object m rm increase changes)

module _ {m : Msgpack} {l : LockFree} where
  -- Each method that is registered increases the counter, which is the one object.
  record IsCounting (e : Executor m l Qps) : Type 0 where
    empty : IsEmpty e
    objects : e.objects ≡ new_qps ∷ []
    services : e.services ≡ some 0 ∷ []
    methods :
        (name : Bytes) (b : Bound m Qps)
        → lookup name e.registered_methods ≡ some (some b)
        → Increases b

  call_bound-counts :
      (e : Executor m l Qps) (b : Bound m Qps) (x : m.Object) (q : Qps)
      (c : Bytes × Executor m l Qps)
      → e.services ≡ some 0 ∷ []
      → b.service_instance ≡ 0
      → ((p : Bytes × Qps) → b.helper x q ≡ some p → p.1 ≡ increase q)
      → call_bound (record e { objects = q ∷ [] }) b x ≡ ok c
      → c.1.objects ≡ increase q ∷ []
  unfolding call_bound
  call_bound-counts e b x q c services instance_ increases h =
      let opened : call_bound (record e { objects = q ∷ [] }) b x
          ≡ and_then (or_fault (b.helper x q) msgpack_error)
              (λ r. ok (r.0, record e { objects = r.1 ∷ [] })) =
        rw (instance_, services) refl in
      let (p, helped, same) =
        and_then_ok (or_fault (b.helper x q) msgpack_error) _ (sym opened ∙ h) in
      sym (ap (λ (c : Bytes × Executor m l Qps). c.1.objects) (ok_inj same))
      ∙ ap (◌∷ []) (increases p (or_fault_ok (b.helper x q) helped))

  call_method-counts :
      (e : Executor m l Qps) (name : Bytes) (x : m.Object) (q : Qps) (c : Bytes × Executor m l Qps)
      → IsCounting e
      → call_method (record e { objects = q ∷ [] }) name x ≡ ok c
      → c.1.objects ≡ increase q ∷ []
  unfolding call_method
  call_method-counts e name x q c counting = cases (lookup name e.registered_methods) refl
    where
      cases :
          (found : Option (Option (Bound m Qps)))
          → lookup name e.registered_methods ≡ found
          → call_method (record e { objects = q ∷ [] }) name x ≡ ok c
          → c.1.objects ≡ increase q ∷ []
      cases none h called = absurd (fault_ne_ok (rw (h, call_method) at called))
      cases (some none) h called = absurd (fault_ne_ok (rw (h, call_method) at called))
      cases (some (some b)) h called =
          let (instance_, increases) = counting.methods name b h in
          call_bound-counts e b x q c counting.services instance_ (increases x q)
            (rw (h, call_method) at called)

  run_serial-counts :
      (e : Executor m l Qps) (log : List (DousiRequest m)) (q : Qps) (done : List DousiResponse)
      (objects : List Qps)
      → IsCounting e
      → q.counter < 2 ^ 32
      → run_serial e log (q ∷ []) ≡ ok (done, objects)
      → (q' : Qps) × (objects ≡ q' ∷ []) × (q'.counter ≡ (q.counter + length log) % 2 ^ 32)
  unfolding run_serial increase
  run_serial-counts e [] q done objects counting small h =
      (q, sym (ap (λ (p : List DousiResponse × List Qps). p.1) (ok_inj h)), omega (arith, small))
  run_serial-counts e (r ∷ rs) q done objects counting small h =
      let (c, called, later) =
        and_then_ok (call_method (record e { objects = q ∷ [] }) r.method_name r.unpacked) _ h in
      let (p, rest, same) = and_then_ok (run_serial e rs c.1.objects) _ later in
      let counted = call_method-counts e r.method_name r.unpacked q c counting called in
      let (q', left, counter) =
        run_serial-counts e rs (increase q) p.0 p.1 counting (omega arith)
          (ap (run_serial e rs) (sym counted) ∙ rest) in
      (
        q',
        sym (ap (λ (p : List DousiResponse × List Qps). p.1) (ok_inj same)) ∙ left,
        omega (arith, counter),
      )

  -- What `Init` leaves as it was.
  init-same :
      (binds : TcpEndpoint → Bool) (address : Bytes) (e made : Executor m l Qps)
      → init binds address e ≡ some made
      → (made.objects ≡ e.objects)
        × (made.services ≡ e.services)
        × (made.registered_methods ≡ e.registered_methods)
        × (made.request_queue ≡ e.request_queue)
        × (made.response_queue ≡ e.response_queue)
  unfolding init
  init-same binds address e made h = ground arith

  register_benchmark-IsCounting :
      (e : Executor m l Qps)
      → IsEmpty e
      → e.objects ≡ []
      → e.services ≡ []
      → e.registered_methods ≡ []
      → IsCounting (register_benchmark e)
  unfolding register_benchmark server_create_service create_service register_method lookup
  register_benchmark-IsCounting e empty objects services methods =
      let (address, made) = server_create_service (codes "BenchmarkService") new_qps e in
      let first = register_method address (echo m) made in
      let at_0 : address ≡ 0 = ap length services in
      record {
        empty = record { no_requests = empty.no_requests; no_responses = empty.no_responses };
        objects = ap (◌++ new_qps ∷ []) objects;
        services = rw (services, objects) refl;
        methods = λ name b found.
            elim (register_method_found first address (slowly_echo m) name b found) [
              | inl it ↦ bound-Increases (slowly_echo m) address b (λ args q. refl) at_0 it
              | inr before ↦ elim (register_method_found made address (echo m) name b before) [
                | inl it ↦ bound-Increases (echo m) address b (λ args q. refl) at_0 it
                | inr nothing ↦ absurd (none_ne_some (ap (lookup name) (sym methods) ∙ nothing))
              ]
            ];
      }

  -- The benchmark server, whatever its threads do, as long as the thread of its counter does not set it
  -- back: once it has answered all that it took in, its counter is the number of messages that have
  -- arrived modulo 2 ^ 32. A call of a method is one step, and the port can be bound.
  pub benchmark_main-counts :
      (spd : Spdlog) (binds : TcpEndpoint → Bool) (log : Logging) (o : ByteOrder)
      (e : Executor m l Qps) (s : System m l Qps)
      → (benchmark_main spd binds log).1 ≡ some e
      → Reach o (started e) s
      → IsQuiet s
      → (q : Qps) × (s.executor.objects ≡ q ∷ []) × (q.counter ≡ length s.arrived % 2 ^ 32)
  unfolding benchmark_main rpc_server new_executor new_queue new_qps
  benchmark_main-counts spd binds log o e s main reach quiet =
      let (made, listens, registered) =
        >>=-eq-some (rpc_server {m = m} {l = l} {S = Qps} spd binds (codes "127.0.0.1:10002") log).1
          _ main in
      let (objects, services, methods, requests, responses) =
        init-same binds (codes "127.0.0.1:10002") (new_executor default_options) made listens in
      let empty : IsEmpty made = record {
        no_requests = ap l.contents requests ∙ l.contents-reserve _;
        no_responses = ap l.contents responses ∙ l.contents-reserve _;
      } in
      let counting =
        subst IsCounting (some_inj registered)
          (register_benchmark-IsCounting made empty objects services methods) in
      let h = Reach-Logged e counting.empty reach in
      let (q, left, counter) =
        run_serial-counts e h.log new_qps h.done s.executor.objects counting (omega arith)
          (ap (run_serial e h.log) (sym counting.objects) ∙ h.ran.ran) in
      let all_ =
        length-tally request_key itself h.log s.arrived
          (λ k. omega (arith, h.counted k, quiet_counts s k quiet)) in
      (q, left, omega (arith, counter, all_))
