-- ===== src/Executor/Threads/Keeps.antt =====
-- What each call of the executor leaves as it was, where it succeeds.
use dousi.Prelude.{
  ◌≢◌, ℕ, ◌≡◌, ◌⊎◌, inl, inr, refl, ap, ◌∙◌, Bool, true, false, some, Bytes, ltb, ◌==◌,
  if◌then◌else◌, Bool-cases, arith,
}
use dousi.Prelude.Map.{lookup, lookup-insert, ℕ_eq, Bytes_eq}
use dousi.Msgpack.{Msgpack}
use dousi.Traits.{names}
use dousi.Stream.{AsioStream, new_stream, start}
use dousi.Queue.LockFree.{LockFree, push}
use dousi.Executor.{
  Executor, Bound, Outcome, Fault, ok, fault, msgpack_error, or_fault, and_then, call_bound,
  call_method, perform_request, invoke_method, add_stream, do_accept, on_accept,
}
use dousi.Executor.Request.{DousiRequest}

pub and_then_ok :
    {A B : Type 0} (c : Outcome A) (f : A → Outcome B) {b : B}
    → and_then c f ≡ ok b
    → (a : A) × (c ≡ ok a) × (f a ≡ ok b)
and_then_ok (ok a) f h = (a, refl, h)
and_then_ok (fault e) f h = cc

pub fault_ne_ok : {A : Type 0} {f : Fault} {a : A} → ◌≢◌ {A = Outcome A} (fault f) (ok a)
fault_ne_ok h = cc

module _ {m : Msgpack} {l : LockFree} {S : Type 0} where
  -- `e'` differs from `e` in the service objects at most.
  pub record SameButObjects (e e' : Executor m l S) : Type 0 where
    pub requests : e'.request_queue ≡ e.request_queue
    pub responses : e'.response_queue ≡ e.response_queue
    pub streams : e'.streams ≡ e.streams

  call_bound_keeps :
      (e : Executor m l S) (bound : Bound m S) (x : m.Object) (r : Bytes × Executor m l S)
      → call_bound e bound x ≡ ok r
      → SameButObjects e r.1
  unfolding call_bound
  call_bound_keeps e bound x r h = ground arith

  pub call_method_keeps :
      (e : Executor m l S) (name : Bytes) (x : m.Object) (r : Bytes × Executor m l S)
      → call_method e name x ≡ ok r
      → SameButObjects e r.1
  unfolding call_method
  call_method_keeps e name x r h = ground (arith, λ (b : Bound m S). call_bound_keeps e b x r)

  -- A request that was performed: its response is the last in the queue.
  pub record Performed (e : Executor m l S) (r : DousiRequest m) (e' : Executor m l S)
      : Type 0 where
    pub result : Bytes
    pub requests : e'.request_queue ≡ e.request_queue
    pub streams : e'.streams ≡ e.streams
    pub responses :
        e'.response_queue
        ≡ push l
            (record { object_id = r.object_id; stream_id = r.stream_id; result = result })
            e.response_queue

  pub perform_request-Performed :
      (e e' : Executor m l S) (r : DousiRequest m) → perform_request e r ≡ ok e' → Performed e r e'
  unfolding perform_request
  perform_request-Performed e e' r h =
      let ((bytes, e1), called, done) = and_then_ok (call_method e r.method_name r.unpacked) _ h in
      let same = call_method_keeps e r.method_name r.unpacked (bytes, e1) called in
      record {
        result = bytes;
        requests = ground (arith, same);
        streams = ground (arith, same);
        responses = ground (arith, same);
      }

  queued_or_Performed :
      (e e' : Executor m l S) (r : DousiRequest m)
      → (if ltb 0 e.executor_options.work_thread_num
          then ok (record e { request_queue = push l r e.request_queue })
          else perform_request e r)
        ≡ ok e'
      → (e' ≡ record e { request_queue = push l r e.request_queue }) ⊎ Performed e r e'
  queued_or_Performed e e' r h = elim (Bool-cases (ltb 0 e.executor_options.work_thread_num)) [
    | inl yes' ↦ inl (ground arith)
    | inr no' ↦ inr (perform_request-Performed e e' r (rw no' at h))
  ]

  -- A message that was taken in: its request is the last in its queue, or it was performed.
  pub invoke_method-cases :
      (e e' : Executor m l S) (stream_id object_id : ℕ) (buffer : Bytes)
      → invoke_method e stream_id object_id buffer ≡ ok e'
      → (r : DousiRequest m) × (r.stream_id ≡ stream_id)
        × (r.object_id ≡ object_id)
        × ((e' ≡ record e { request_queue = push l r e.request_queue }) ⊎ Performed e r e')
  unfolding invoke_method
  invoke_method-cases e e' stream_id object_id buffer h =
      let (x, unpacked, h1) = and_then_ok (or_fault (m.unpack buffer) msgpack_error) _ h in
      let (t, names_found, h2) =
        and_then_ok (or_fault (m.as_tuple (names m) x) msgpack_error) _ h1 in
      let r : DousiRequest m = record {
        object_id = object_id;
        stream_id = stream_id;
        unpacked = x;
        method_name = t.1.0;
      } in
      (r, refl, refl, queued_or_Performed e e' r h2)

  -- A stream that is in the map.
  abbrev pub Known : Executor m l S → ℕ → Type 0
  Known e stream_id = (t : AsioStream) × (lookup stream_id e.streams ≡ some t)

  add_stream-Known : (e : Executor m l S) (k : ℕ) → Known e k → Known (add_stream e) k
  unfolding add_stream
  add_stream-Known e k (t, h) =
      let id = e.curr_stream_id in
      elim (Bool-cases (id == k)) [
        | inl same ↦ (
          start (new_stream id),
          ground (arith, lookup-insert id k (start (new_stream id)) e.streams),
        )
        | inr other ↦ (t, ground (arith, lookup-insert id k (start (new_stream id)) e.streams))
      ]

  pub record Accepted (e e' : Executor m l S) : Type 0 where
    pub requests : e'.request_queue ≡ e.request_queue
    pub responses : e'.response_queue ≡ e.response_queue
    pub known : (k : ℕ) → Known e k → Known e' k

  do_accept-streams :
      (e e' : Executor m l S)
      → do_accept e ≡ ok e'
      → (e'.request_queue ≡ e.request_queue)
        × (e'.response_queue ≡ e.response_queue)
        × (e'.streams ≡ e.streams)
  unfolding do_accept
  do_accept-streams e e' h = ground arith

  pub on_accept-Accepted :
      (error : Bool) (e e' : Executor m l S) → on_accept error e ≡ ok e' → Accepted e e'
  unfolding on_accept
  on_accept-Accepted true e e' h =
      let (requests, responses, streams) = do_accept-streams e e' h in
      record {
        requests = requests;
        responses = responses;
        known = λ k h. (h.0, ap (lookup k) streams ∙ h.1);
      }
  on_accept-Accepted false e e' h =
      let (requests, responses, streams) = do_accept-streams (add_stream e) e' h in
      record {
        requests = unfold add_stream in requests;
        responses = unfold add_stream in responses;
        known =
            λ k h. let known = add_stream-Known e k h in (known.0, ap (lookup k) streams ∙ known.1);
      }
