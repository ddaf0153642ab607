-- ===== src/Executor/Threads/WentOn.antt =====
-- What a work thread of src/dousi/core/executor has changed when it has taken or performed a request.
use dousi.Prelude.{
  ℕ, ◌≡◌, refl, sym, ap, ◌∙◌, List, [], ◌∷◌, ◌++◌, append_assoc, append-nil, Option, none, some,
  Bytes, get_elem?, set,
}
use dousi.Msgpack.{Msgpack}
use dousi.Stream.Word.{ByteOrder}
use dousi.Queue.LockFree.{LockFree, push}
use dousi.Queue.LockFree.Waiting.{pop_front}
use dousi.Executor.{Executor, ok, call_method, perform_request}
use dousi.Executor.Request.{DousiRequest, DousiResponse}
use dousi.Executor.Threads.{System, Reach, here, next, take, finish}
use dousi.Executor.Threads.Serial.{response_to, call_method-same}

module _ {m : Msgpack} {l : LockFree} {S : Type 0} where
  -- The threads have gone on: these responses are new, and the objects, the request queue and the
  -- work threads are as given.
  pub record WentOn (s t : System m l S) (done : List DousiResponse) (objects : List S)
      (rs : List (DousiRequest m)) (workers : List (Option (DousiRequest m))) : Type 0 where
    pub objects_now : t.executor.objects ≡ objects
    pub methods : t.executor.registered_methods ≡ s.executor.registered_methods
    pub services : t.executor.services ≡ s.executor.services
    pub requests : l.contents t.executor.request_queue ≡ rs
    pub responses :
        l.contents t.executor.response_queue ≡ l.contents s.executor.response_queue ++ done
    pub workers_now : t.workers ≡ workers

  pub WentOn-join :
      {s t u : System m l S} {done done' : List DousiResponse} {objects objects' : List S}
      {rs rs' : List (DousiRequest m)} {workers workers' : List (Option (DousiRequest m))}
      → WentOn s t done objects rs workers
      → WentOn t u done' objects' rs' workers'
      → WentOn s u (done ++ done') objects' rs' workers'
  WentOn-join {s} {done} {done'} h h' = record {
    objects_now = h'.objects_now;
    methods = h'.methods ∙ h.methods;
    services = h'.services ∙ h.services;
    requests = h'.requests;
    responses =
        h'.responses
        ∙ ap (◌++ done') h.responses
        ∙ append_assoc (l.contents s.executor.response_queue) done done';
    workers_now = h'.workers_now;
  }

  -- A work thread performs the request that it holds.
  pub finish-WentOn :
      (o : ByteOrder) (e : Executor m l S) (s : System m l S) (i : ℕ) (r : DousiRequest m)
      (objects : List S) (c : Bytes × Executor m l S)
      → s.executor.registered_methods ≡ e.registered_methods
      → s.executor.services ≡ e.services
      → s.executor.objects ≡ objects
      → get_elem? s.workers i ≡ some (some r)
      → call_method (record e { objects = objects }) r.method_name r.unpacked ≡ ok c
      → (t : System m l S) × Reach o s t
        × WentOn s t
            (response_to r c.0 ∷ [])
            c.1.objects
            (l.contents s.executor.request_queue)
            (set s.workers i none)
  unfolding perform_request push
  finish-WentOn o e s i r objects c methods services now holding called =
      let (called', methods', services') =
        call_method-same (record e { objects = objects }) s.executor r.method_name r.unpacked c
          methods services now called in
      let after = record (s.executor) {
        objects = c.1.objects;
        response_queue = push l (response_to r c.0) s.executor.response_queue;
      } in
      let performed : perform_request s.executor r ≡ ok after = rw called' refl in
      (
        _,
        next here (finish i holding performed),
        record {
          objects_now = refl;
          methods = refl;
          services = refl;
          requests = refl;
          responses = l.contents-push (response_to r c.0) s.executor.response_queue;
          workers_now = refl;
        },
      )

  -- A work thread that is idle takes the next request.
  pub take-WentOn :
      (o : ByteOrder) (s : System m l S) (i : ℕ) (r : DousiRequest m) (rs : List (DousiRequest m))
      → get_elem? s.workers i ≡ some none
      → l.contents s.executor.request_queue ≡ r ∷ rs
      → (t : System m l S) × Reach o s t
        × WentOn s t [] s.executor.objects rs (set s.workers i (some r))
  take-WentOn o s i r rs idle queued =
      let (q, popped, left) = pop_front l s.executor.request_queue r rs queued in
      (
        _,
        next here (take i idle popped),
        record {
          objects_now = refl;
          methods = refl;
          services = refl;
          requests = left;
          responses = sym (append-nil _);
          workers_now = refl;
        },
      )
