-- ===== src/Executor/Threads/Invariant.antt =====
-- The invariant of the threads of src/dousi/core/executor, and that every step keeps it.
use dousi.Prelude.{ℕ, ◌+◌, ◌≡◌, ◌⊎◌, inl, inr, ap, ◌∙◌, List, [], ◌∷◌, none, some, All, arith}
use dousi.Prelude.Map.{lookup, ℕ_eq}
use dousi.Msgpack.{Msgpack}
use dousi.Stream.Word.{ByteOrder}
use dousi.Queue.LockFree.{LockFree, push}
use dousi.Executor.{Executor}
use dousi.Executor.Request.{DousiRequest, DousiResponse}
use dousi.Executor.Threads.{System, Step, accept, arrive, take, finish, fetch, emit}
use dousi.Executor.Threads.Keys.{Key, tally, tally_cons, tally_last, held, held-set, weight}
use dousi.Executor.Threads.Keeps.{
  Performed, perform_request-Performed, invoke_method-cases, Known, on_accept-Accepted,
}

abbrev pub request_key : {m : Msgpack} → DousiRequest m → Key
request_key r = (r.stream_id, r.object_id)

abbrev pub response_key : DousiResponse → Key
response_key r = (r.stream_id, r.object_id)

abbrev pub itself : Key → Key
itself k = k

module _ (l : LockFree) {A : Type 0} (key : A → Key) (k : Key) where
  -- A queue that got one more entry, or lost its first.
  pub queue_push :
      (a : A) (q : l.Queue A)
      → tally key k (l.contents (push l a q)) ≡ tally key k (l.contents q) + weight k (key a)
  unfolding push
  queue_push a q = ap (tally key k) (l.contents-push a q) ∙ tally_last key k (l.contents q) a

  pub queue_pop :
      (q q' : l.Queue A) (a : A)
      → l.pop q ≡ some (a, q')
      → tally key k (l.contents q) ≡ weight k (key a) + tally key k (l.contents q')
  queue_pop q q' a e = ap (tally key k) (l.pop_some q q' a e) ∙ tally_cons key k a (l.contents q')

module _ {m : Msgpack} {l : LockFree} {S : Type 0} where
  -- Messages with the key on their way through the executor.
  abbrev pub in_executor : Key → Executor m l S → ℕ
  in_executor k e =
      tally request_key k (l.contents e.request_queue)
      + tally response_key k (l.contents e.response_queue)

  abbrev pub underway : Key → System m l S → ℕ
  underway k s =
      in_executor k s.executor + held request_key k s.workers + held response_key k s.writers

  pub record Inv (s : System m l S) : Type 0 where
    pub counted : (k : Key) → tally itself k s.arrived ≡ underway k s + tally itself k s.written
    pub known : All (λ (k : Key). Known s.executor k.0) s.arrived

  All-Known :
      (e e' : Executor m l S) (ks : List Key)
      → ((k : ℕ) → Known e k → Known e' k)
      → All (λ (k : Key). Known e k.0) ks
      → All (λ (k : Key). Known e' k.0) ks
  All-Known e e' [] keep h = tt
  All-Known e e' (k ∷ ks) keep h = (keep k.0 h.0, All-Known e e' ks keep h.1)

  same_streams : (e e' : Executor m l S) → e'.streams ≡ e.streams → (k : ℕ) → Known e k → Known e' k
  same_streams e e' same k (t, h) = (t, ap (lookup k) same ∙ h)

  -- A request that was performed is one response more.
  Performed-in_executor :
      (k : Key) (e e' : Executor m l S) (r : DousiRequest m)
      → Performed e r e'
      → in_executor k e' ≡ in_executor k e + weight k (request_key r)
  Performed-in_executor k e e' r p =
      let response : DousiResponse = record {
        object_id = r.object_id;
        stream_id = r.stream_id;
        result = p.result;
      } in
      omega (
        arith,
        ap (λ q. tally request_key k (l.contents q)) p.requests,
        ap (λ q. tally response_key k (l.contents q)) p.responses,
        queue_push l response_key k response e.response_queue,
      )

  arrive-counted :
      (k x : Key) (s : System m l S) (e : Executor m l S)
      → in_executor k e ≡ in_executor k s.executor + weight k x
      → tally itself k s.arrived ≡ underway k s + tally itself k s.written
      → tally itself k (x ∷ s.arrived)
        ≡ underway k (record s { executor = e }) + tally itself k s.written
  arrive-counted k x s e more h = omega (arith, tally_cons itself k x s.arrived)

  -- A message that is taken in is one more on its way, whichever branch takes it.
  invoke-in_executor :
      (k : Key) (s e' : Executor m l S) (r : DousiRequest m)
      → (e' ≡ record s { request_queue = push l r s.request_queue }) ⊎ Performed s r e'
      → in_executor k e' ≡ in_executor k s + weight k (request_key r)
  invoke-in_executor k s e' r (inl queued) =
      rw queued (omega (arith, queue_push l request_key k r s.request_queue))
  invoke-in_executor k s e' r (inr performed) = Performed-in_executor k s e' r performed

  invoke-streams :
      (s e' : Executor m l S) (r : DousiRequest m)
      → (e' ≡ record s { request_queue = push l r s.request_queue }) ⊎ Performed s r e'
      → e'.streams ≡ s.streams
  invoke-streams s e' r (inl queued) = rw queued
  invoke-streams s e' r (inr performed) = performed.streams

  -- Every step keeps the count of each message and the streams of the messages.
  pub Step-Inv : (o : ByteOrder) {s t : System m l S} → Step o s t → Inv s → Inv t
  Step-Inv o {s} (accept error {e} h) v =
      let a = on_accept-Accepted error s.executor e h in
      record {
        counted = λ k. omega (
          arith,
          v.counted k,
          ap (λ q. tally request_key k (l.contents q)) a.requests,
          ap (λ q. tally response_key k (l.contents q)) a.responses,
        );
        known = All-Known s.executor e s.arrived a.known v.known;
      }
  Step-Inv o {s} (arrive stream_id object_id buffer {t} {e} found h) v =
      let (r, stream, object, how) =
        invoke_method-cases s.executor e stream_id object_id buffer h in
      record {
        counted = λ k.
            arrive-counted k (stream_id, object_id) s e
              (invoke-in_executor k s.executor e r how
                ∙ ap (λ x. in_executor k s.executor + weight k x) (λ i. (stream i, object i)))
              (v.counted k);
        known =
            let keep = same_streams s.executor e (invoke-streams s.executor e r how) in
            (keep stream_id (t, found), All-Known s.executor e s.arrived keep v.known);
      }
  Step-Inv o {s} (take i {r} {q} idle popped) v = record {
    counted = λ k. omega (
      arith,
      v.counted k,
      queue_pop l request_key k s.executor.request_queue q r popped,
      held-set request_key k s.workers i none (some r) idle,
    );
    known = v.known;
  }
  Step-Inv o {s} (finish i {r} {e} holding h) v =
      let p = perform_request-Performed s.executor e r h in
      record {
        counted = λ k. omega (
          arith,
          v.counted k,
          Performed-in_executor k s.executor e r p,
          held-set request_key k s.workers i (some r) none holding,
        );
        known = All-Known s.executor e s.arrived (same_streams s.executor e p.streams) v.known;
      }
  Step-Inv o {s} (fetch j {r} {q} idle popped) v = record {
    counted = λ k. omega (
      arith,
      v.counted k,
      queue_pop l response_key k s.executor.response_queue q r popped,
      held-set response_key k s.writers j none (some r) idle,
    );
    known = v.known;
  }
  Step-Inv o {s} (emit j {r} holding h) v = record {
    counted = λ k. omega (
      arith,
      v.counted k,
      held-set response_key k s.writers j (some r) none holding,
      tally_cons itself k (r.stream_id, r.object_id) s.written,
    );
    known = v.known;
  }
