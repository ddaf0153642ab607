-- ===== src/Executor/Threads/Overtaking.antt =====
-- Requests of src/dousi/core/executor that are performed in another order than they were taken in.
use dousi.Prelude.{
  ℕ, ◌≡◌, ◌≢◌, refl, sym, ap, ◌∙◌, List, [], ◌∷◌, ◌++◌, append-nil, none, some, Bytes, get_elem?,
  set, get_elem?-set_self, get_elem?-set_ne, set-set, set-get_elem?,
}
use dousi.Msgpack.{Msgpack}
use dousi.Stream.Word.{ByteOrder}
use dousi.Queue.LockFree.{LockFree}
use dousi.Executor.{Executor, ok, call_method}
use dousi.Executor.Request.{DousiRequest, DousiResponse}
use dousi.Executor.Threads.{System, Reach, here}
use dousi.Executor.Threads.Keeps.{and_then_ok}
use dousi.Executor.Threads.Serial.{run_serial, response_to, ok_inj}
use dousi.Executor.Threads.Drain.{join}
use dousi.Executor.Threads.WentOn.{WentOn, WentOn-join, finish-WentOn, take-WentOn}

module _ {m : Msgpack} {l : LockFree} {S : Type 0} where
  -- One work thread performs all that is queued.
  perform_all :
      (o : ByteOrder) (e : Executor m l S) (s : System m l S) (j : ℕ) (rs : List (DousiRequest m))
      (done : List DousiResponse) (objects : List S)
      → s.executor.registered_methods ≡ e.registered_methods
      → s.executor.services ≡ e.services
      → get_elem? s.workers j ≡ some none
      → l.contents s.executor.request_queue ≡ rs
      → run_serial e rs s.executor.objects ≡ ok (done, objects)
      → (t : System m l S) × Reach o s t × WentOn s t done objects [] s.workers
  unfolding run_serial
  perform_all o e s j [] done objects methods services idle queued ran =
      let same = ok_inj ran in
      (
        s,
        here,
        record {
          objects_now = ap (λ (p : List DousiResponse × List S). p.1) same;
          methods = refl;
          services = refl;
          requests = queued;
          responses =
              sym (append-nil _)
              ∙ ap
                  (λ (p : List DousiResponse × List S). l.contents s.executor.response_queue ++ p.0)
                  same;
          workers_now = refl;
        },
      )
  perform_all o e s j (r ∷ rs) done objects methods services idle queued ran =
      let before = s.executor.objects in
      let (c, called, later) =
        and_then_ok (call_method (record e { objects = before }) r.method_name r.unpacked) _ ran in
      let ((done', objects'), rest, same) = and_then_ok (run_serial e rs c.1.objects) _ later in
      let (s1, reach1, h1) = take-WentOn o s j r rs idle queued in
      let holding =
        ap (λ w. get_elem? w j) h1.workers_now
        ∙ get_elem?-set_self s.workers j (some r) none idle in
      let (s2, reach2, h2) =
        finish-WentOn o e s1 j r before c (h1.methods ∙ methods) (h1.services ∙ services)
          h1.objects_now holding called in
      let h12 = WentOn-join h1 h2 in
      let as_before : s2.workers ≡ s.workers =
        h12.workers_now
        ∙ ap (λ w. set w j none) h1.workers_now
        ∙ set-set s.workers j (some r) none
        ∙ set-get_elem? s.workers j none idle in
      let (t, reach, h) =
        perform_all o e s2 j rs done' objects' (h12.methods ∙ methods) (h12.services ∙ services)
          (ap (λ w. get_elem? w j) as_before ∙ idle) (h12.requests ∙ h1.requests)
          (ap (run_serial e rs) h12.objects_now ∙ rest) in
      let all_ = WentOn-join h12 h in
      let given = ok_inj same in
      (
        t,
        join o reach1 (join o reach2 reach),
        record {
          objects_now = all_.objects_now ∙ ap (λ (p : List DousiResponse × List S). p.1) given;
          methods = all_.methods;
          services = all_.services;
          requests = all_.requests;
          responses =
              all_.responses
              ∙ ap
                  (λ (p : List DousiResponse × List S). l.contents s.executor.response_queue ++ p.0)
                  given;
          workers_now = all_.workers_now ∙ as_before;
        },
      )

  -- A request that a work thread has taken can be overtaken by all that are queued behind it: with two
  -- idle work threads, if one thread could perform the later requests in order from now on, and the
  -- first one after them, then there is a run that does so and queues the responses in that order.
  pub can_be_overtaken :
      (o : ByteOrder) (s : System m l S) (i j : ℕ) (r : DousiRequest m) (rs : List (DousiRequest m))
      (done : List DousiResponse) (objects : List S) (c : Bytes × Executor m l S)
      → i ≢ j
      → get_elem? s.workers i ≡ some none
      → get_elem? s.workers j ≡ some none
      → l.contents s.executor.request_queue ≡ r ∷ rs
      → run_serial s.executor rs s.executor.objects ≡ ok (done, objects)
      → call_method (record (s.executor) { objects = objects }) r.method_name r.unpacked ≡ ok c
      → (t : System m l S) × Reach o s t
        × (t.executor.objects ≡ c.1.objects)
        × (l.contents t.executor.request_queue ≡ [])
        × (l.contents t.executor.response_queue
            ≡ l.contents s.executor.response_queue ++ (done ++ response_to r c.0 ∷ []))
  can_be_overtaken o s i j r rs done objects c differ idle idle' queued ran called =
      let e = s.executor in
      let (s1, reach1, h1) = take-WentOn o s i r rs idle queued in
      let free =
        ap (λ w. get_elem? w j) h1.workers_now
        ∙ get_elem?-set_ne s.workers i j (some r) differ
        ∙ idle' in
      let (s2, reach2, h2) =
        perform_all o e s1 j rs done objects h1.methods h1.services free h1.requests
          (ap (run_serial e rs) h1.objects_now ∙ ran) in
      let holding =
        ap (λ w. get_elem? w i) (h2.workers_now ∙ h1.workers_now)
        ∙ get_elem?-set_self s.workers i (some r) none idle in
      let (t, reach3, h3) =
        finish-WentOn o e s2 i r objects c (h2.methods ∙ h1.methods) (h2.services ∙ h1.services)
          h2.objects_now holding called in
      let h = WentOn-join h1 (WentOn-join h2 h3) in
      (
        t,
        join o reach1 (join o reach2 reach3),
        h.objects_now,
        h3.requests ∙ h2.requests,
        h.responses,
      )
