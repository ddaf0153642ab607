-- ===== src/Executor/Threads/Log.antt =====
-- The threads of src/dousi/core/executor against one thread that performs the requests in the order of
-- a log.
use dousi.Prelude.{
  Has, All-append, All-map, sym, subst, ℕ, ◌+◌, ◌≡◌, ◌⊎◌, inl, inr, refl, Bool, true, false, List,
  [], ◌++◌, ◌∷◌, Option, none, some, Bytes, All, ltb, if◌then◌else◌, Bool-cases, arith, zero, suc,
}
use dousi.Msgpack.{Msgpack}
use dousi.Traits.{names}
use dousi.Stream.Word.{ByteOrder}
use dousi.Queue.LockFree.{LockFree, push}
use dousi.Executor.{
  Executor, ok, msgpack_error, or_fault, perform_request, invoke_method, on_accept, do_accept,
  add_stream,
}
use dousi.Executor.Request.{DousiRequest, DousiResponse}
use dousi.Executor.Threads.{
  System, Step, Reach, here, next, accept, arrive, take, finish, fetch, emit, spawned,
}
use dousi.Executor.Threads.Keys.{Key, tally, held}
use dousi.Executor.Threads.Keeps.{and_then_ok}
use dousi.Executor.Threads.Invariant.{request_key, itself}
use dousi.Executor.Threads.Serial.{Ran}

pub or_fault_ok : {A : Type 0} (x : Option A) {a : A} → or_fault x msgpack_error ≡ ok a → x ≡ some a
or_fault_ok none h = cc
or_fault_ok (some b) h = ground arith

-- A message that a client has sent: the stream, the object id and the body.
abbrev pub Message : Type 0
Message = ℕ × (ℕ × Bytes)

module _ {m : Msgpack} where
  -- The request is made of one of these messages: of its stream and object id, of what its body
  -- unpacks to, and of the name of a method that stands there in the second place.
  pub record IsSent (ms : List Message) (r : DousiRequest m) : Type 0 where
    pub buffer : Bytes
    pub sent : Has (r.stream_id, (r.object_id, buffer)) ms
    pub unpacked : m.unpack buffer ≡ some r.unpacked
    pub service_name : Bytes
    pub named : m.as_tuple (names m) r.unpacked ≡ some (service_name, (r.method_name, tt))

  pub IsSent-cons :
      (x : Message) (ms : List Message) (r : DousiRequest m) → IsSent ms r → IsSent (x ∷ ms) r
  IsSent-cons x ms r h = record {
    buffer = h.buffer;
    sent = inr h.sent;
    unpacked = h.unpacked;
    service_name = h.service_name;
    named = h.named;
  }

-- What a thread holds, if it holds something, is such.
abbrev pub Holds : {A : Type 0} → (A → Type 0) → Option A → Type 0
Holds P none = Unit
Holds P (some a) = P a

pub Holds-map :
    {A : Type 0} (P Q : A → Type 0) → ((a : A) → P a → Q a) → (x : Option A) → Holds P x → Holds Q x
Holds-map P Q f none h = tt
Holds-map P Q f (some a) h = f a h

pub spawned-Holds : {A : Type 0} (P : A → Type 0) (n : ℕ) → All (Holds P) (spawned n)
spawned-Holds P zero = tt
spawned-Holds P (suc n) = (tt, spawned-Holds P n)

module _ (l : LockFree) {A : Type 0} (P : A → Type 0) where
  pub All-push :
      (a : A) (q : l.Queue A) → All P (l.contents q) → P a → All P (l.contents (push l a q))
  unfolding push
  All-push a q h ha =
      subst (All P) (sym (l.contents-push a q)) (All-append P (l.contents q) (a ∷ []) h (ha, tt))

  pub All-pop :
      (q q' : l.Queue A) (a : A)
      → l.pop q ≡ some (a, q')
      → All P (l.contents q)
      → P a × All P (l.contents q')
  All-pop q q' a e h = subst (All P) (l.pop_some q q' a e) h

module _ {m : Msgpack} {l : LockFree} {S : Type 0} where
  -- The messages that were taken in, the last one first, after a step and after a run.
  abbrev pub took_in :
      {o : ByteOrder} {s t : System m l S} → Step o s t → List Message → List Message
  took_in (arrive stream_id object_id buffer found h) ms = (stream_id, (object_id, buffer)) ∷ ms
  took_in (accept error h) ms = ms
  took_in (take i idle popped) ms = ms
  took_in (finish i holding h) ms = ms
  took_in (fetch j idle popped) ms = ms
  took_in (emit j holding h) ms = ms

  unfoldable pub taken_in : {o : ByteOrder} {s t : System m l S} → Reach o s t → List Message
  taken_in here = []
  taken_in (next r step) = took_in step (taken_in r)

  -- The responses that were written, the last one first.
  abbrev pub wrote :
      {o : ByteOrder} {s t : System m l S} → Step o s t → List DousiResponse → List DousiResponse
  wrote (emit j {r = response} holding h) es = response ∷ es
  wrote (accept error h) es = es
  wrote (arrive stream_id object_id buffer found h) es = es
  wrote (take i idle popped) es = es
  wrote (finish i holding h) es = es
  wrote (fetch j idle popped) es = es

  unfoldable pub emitted : {o : ByteOrder} {s t : System m l S} → Reach o s t → List DousiResponse
  emitted here = []
  emitted (next r step) = wrote step (emitted r)

  -- The state is that of one thread that has performed the requests of the log in their order: each
  -- was sent, and none is in the log more often than it arrived; and each response, on its way
  -- or written, is one of those of that thread.
  pub record Logged (e : Executor m l S) (ms : List Message) (es : List DousiResponse)
      (s : System m l S) : Type 0 where
    pub log : List (DousiRequest m)
    pub done : List DousiResponse
    pub ran : Ran e log done s.executor
    pub logged : All (IsSent ms) log
    pub queued : All (IsSent ms) (l.contents s.executor.request_queue)
    pub working : All (Holds (IsSent ms)) s.workers
    pub answers : All (λ r. Has r done) (l.contents s.executor.response_queue)
    pub writing : All (Holds (λ r. Has r done)) s.writers
    pub sent_off : All (λ r. Has r done) es
    pub counted :
        (k : Key)
        → tally itself k s.arrived
          ≡ tally request_key k log
            + tally request_key k (l.contents s.executor.request_queue)
            + held request_key k s.workers

  -- The same after some more steps, with a log that has grown at its end.
  pub record Grown (log : List (DousiRequest m)) (e : Executor m l S) (ms : List Message)
      (es : List DousiResponse) (s : System m l S) : Type 0 where
    pub after : Logged e ms es s
    pub later : List (DousiRequest m)
    pub longer : after.log ≡ log ++ later

  pub more_messages :
      (e : Executor m l S) (x : Message) (ms : List Message) (es : List DousiResponse)
      (s : System m l S) (h : Logged e ms es s)
      → (h' : Logged e (x ∷ ms) es s) × (h'.log ≡ h.log)
  more_messages e x ms es s h = (
    record {
      log = h.log;
      done = h.done;
      ran = h.ran;
      logged = All-map (IsSent ms) (IsSent (x ∷ ms)) h.log (IsSent-cons x ms) h.logged;
      queued =
          All-map (IsSent ms) (IsSent (x ∷ ms)) (l.contents s.executor.request_queue)
            (IsSent-cons x ms) h.queued;
      working =
          All-map (Holds (IsSent ms)) (Holds (IsSent (x ∷ ms))) s.workers
            (Holds-map (IsSent ms) (IsSent (x ∷ ms)) (IsSent-cons x ms)) h.working;
      answers = h.answers;
      writing = h.writing;
      sent_off = h.sent_off;
      counted = h.counted;
    },
    refl,
  )

  pub on_accept-same :
      (error : Bool) (e e' : Executor m l S)
      → on_accept error e ≡ ok e'
      → (e'.objects ≡ e.objects)
        × (e'.registered_methods ≡ e.registered_methods)
        × (e'.services ≡ e.services)
  unfolding on_accept do_accept add_stream
  on_accept-same true e e' h = ground arith
  on_accept-same false e e' h = ground arith

  queued_or_performed :
      (e e' : Executor m l S) (r : DousiRequest m)
      → (if ltb 0 e.executor_options.work_thread_num
          then ok (record e { request_queue = push l r e.request_queue })
          else perform_request e r)
        ≡ ok e'
      → (e' ≡ record e { request_queue = push l r e.request_queue }) ⊎ (perform_request e r ≡ ok e')
  queued_or_performed e e' r h = elim (Bool-cases (ltb 0 e.executor_options.work_thread_num)) [
    | inl yes' ↦ inl (ground arith)
    | inr no' ↦ inr (rw no' at h)
  ]

  pub invoke_method-IsSent :
      (e e' : Executor m l S) (stream_id object_id : ℕ) (buffer : Bytes) (ms : List Message)
      → invoke_method e stream_id object_id buffer ≡ ok e'
      → (r : DousiRequest m) × IsSent ((stream_id, (object_id, buffer)) ∷ ms) r
        × (request_key r ≡ (stream_id, object_id))
        × ((e' ≡ record e { request_queue = push l r e.request_queue })
            ⊎ (perform_request e r ≡ ok e'))
  unfolding invoke_method
  invoke_method-IsSent e e' stream_id object_id buffer ms h =
      let (x, unpacks, h1) = and_then_ok (or_fault (m.unpack buffer) msgpack_error) _ h in
      let (t, names_found, h2) =
        and_then_ok (or_fault (m.as_tuple (names m) x) msgpack_error) _ h1 in
      let r : DousiRequest m = record {
        object_id = object_id;
        stream_id = stream_id;
        unpacked = x;
        method_name = t.1.0;
      } in
      (
        r,
        record {
          buffer = buffer;
          sent = inl refl;
          unpacked = or_fault_ok (m.unpack buffer) unpacks;
          service_name = t.0;
          named = or_fault_ok (m.as_tuple (names m) x) names_found;
        },
        refl,
        queued_or_performed e e' r h2,
      )
