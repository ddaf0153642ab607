-- ===== src/Executor/Threads/Performed.antt =====
-- A message that is queued and a request that is performed, of src/dousi/core/executor, in the order of one
-- thread.
use dousi.Prelude.{
  Has, Has-append_left, Has-append_right, ◌+◌, ◌≡◌, ◌⊎◌, inl, inr, refl, sym, ap, subst, append-nil,
  List, [], ◌∷◌, ◌++◌, Option, All, All-append, All-map, arith,
}
use dousi.Msgpack.{Msgpack}
use dousi.Queue.LockFree.{LockFree, push}
use dousi.Executor.{Executor, ok, perform_request}
use dousi.Executor.Request.{DousiRequest, DousiResponse}
use dousi.Executor.Threads.{System, started, write_thread_num}
use dousi.Executor.Threads.Keys.{Key, tally, tally_cons, tally_last, tally_nil, held, weight}
use dousi.Executor.Threads.Invariant.{request_key, itself, queue_push}
use dousi.Executor.Threads.Answers.{IsEmpty, started-IsQuiet, quiet_counts}
use dousi.Executor.Threads.Serial.{run_serial, response_to, perform_request-Ran}
use dousi.Executor.Threads.Log.{
  All-push, Message, IsSent, Holds, Holds-map, spawned-Holds, Logged, Grown,
}

module _ {m : Msgpack} {l : LockFree} {S : Type 0} where
  -- The next request is performed, by a work thread or by the thread that has taken it in.
  pub performing :
      (e : Executor m l S) (ms : List Message) (es : List DousiResponse) (s : System m l S)
      (now : Executor m l S) (r : DousiRequest m) (workers : List (Option (DousiRequest m)))
      (arrived : List Key) (h : Logged e ms es s)
      → perform_request s.executor r ≡ ok now
      → IsSent ms r
      → All (Holds (IsSent ms)) workers
      → ((k : Key)
          → tally itself k arrived
            ≡ tally request_key k h.log
              + weight k (request_key r)
              + tally request_key k (l.contents s.executor.request_queue)
              + held request_key k workers)
      → Grown h.log e ms es (record s { executor = now; workers = workers; arrived = arrived })
  performing e ms es s now r workers arrived h performed sent working counted =
      let a = perform_request-Ran e s.executor now h.log h.done r h.ran performed in
      let response = response_to r a.result in
      let done = h.done ++ response ∷ [] in
      let kept : (x : DousiResponse) → Has x h.done → Has x done =
        λ x. Has-append_left x h.done (response ∷ []) in
      record {
        after = record {
          log = h.log ++ r ∷ [];
          done = done;
          ran = a.goes_on;
          logged = All-append (IsSent ms) h.log (r ∷ []) h.logged (sent, tt);
          queued = subst (λ q. All (IsSent ms) (l.contents q)) (sym a.requests) h.queued;
          working = working;
          answers =
              subst (λ q. All (λ x. Has x done) (l.contents q)) (sym a.responses)
                (All-push l (λ x. Has x done) response s.executor.response_queue
                  (All-map (λ x. Has x h.done) (λ x. Has x done)
                    (l.contents s.executor.response_queue) kept h.answers)
                  (Has-append_right response h.done (response ∷ []) (inl refl)));
          writing =
              All-map (Holds (λ x. Has x h.done)) (Holds (λ x. Has x done)) s.writers
                (Holds-map (λ x. Has x h.done) (λ x. Has x done) kept) h.writing;
          sent_off = All-map (λ x. Has x h.done) (λ x. Has x done) es kept h.sent_off;
          counted = λ k. omega (
            arith,
            counted k,
            tally_last request_key k h.log r,
            ap (λ q. tally request_key k (l.contents q)) a.requests,
          );
        };
        later = r ∷ [];
        longer = refl;
      }

  pub started-Logged : (e : Executor m l S) → IsEmpty e → Logged e [] [] (started e)
  unfolding run_serial
  started-Logged e h = record {
    log = [];
    done = [];
    ran = record { ran = refl; methods = refl; services = refl };
    logged = tt;
    queued = rw h.no_requests tt;
    working = spawned-Holds {A = DousiRequest m} (IsSent []) e.executor_options.work_thread_num;
    answers = rw h.no_responses tt;
    writing = spawned-Holds {A = DousiResponse} (λ r. Has r []) write_thread_num;
    sent_off = tt;
    counted = λ k. omega (
      arith,
      tally_nil itself k,
      tally_nil request_key k,
      quiet_counts (started e) k (started-IsQuiet e h),
    );
  }

  pub arriving :
      (e : Executor m l S) (ms : List Message) (es : List DousiResponse) (s : System m l S)
      (now : Executor m l S) (x : Key) (r : DousiRequest m) (h : Logged e ms es s)
      → IsSent ms r
      → request_key r ≡ x
      → (now ≡ record (s.executor) { request_queue = push l r s.executor.request_queue })
        ⊎ (perform_request s.executor r ≡ ok now)
      → Grown h.log e ms es (record s { executor = now; arrived = x ∷ s.arrived })
  arriving e ms es s now x r h sent key_ (inl queued) =
      subst (λ now. Grown h.log e ms es (record s { executor = now; arrived = x ∷ s.arrived }))
        (sym queued)
        (record {
          after = record {
            log = h.log;
            done = h.done;
            ran = record { ran = h.ran.ran; methods = h.ran.methods; services = h.ran.services };
            logged = h.logged;
            queued = All-push l (IsSent ms) r s.executor.request_queue h.queued sent;
            working = h.working;
            answers = h.answers;
            writing = h.writing;
            sent_off = h.sent_off;
            counted = λ k. omega (
              arith,
              h.counted k,
              tally_cons itself k x s.arrived,
              queue_push l request_key k r s.executor.request_queue,
              ap (weight k) key_,
            );
          };
          later = [];
          longer = sym (append-nil h.log);
        })
  arriving e ms es s now x r h sent key_ (inr performed) =
      performing e ms es s now r s.workers (x ∷ s.arrived) h performed sent h.working
        (λ k. omega (arith, h.counted k, tally_cons itself k x s.arrived, ap (weight k) key_))
