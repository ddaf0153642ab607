-- ===== src/Executor/Threads/Growth.antt =====
-- Each step of the threads of src/dousi/core/executor, in the order of one thread.
use dousi.Prelude.{
  Has, sym, ap, ◌∙◌, subst, append-nil, List, [], ◌∷◌, none, some, set, All, All-set, All-get_elem?,
  arith,
}
use dousi.Msgpack.{Msgpack}
use dousi.Stream.Word.{ByteOrder}
use dousi.Queue.LockFree.{LockFree}
use dousi.Executor.{Executor, ok}
use dousi.Executor.Request.{DousiResponse}
use dousi.Executor.Threads.{System, Step, accept, arrive, take, finish, fetch, emit}
use dousi.Executor.Threads.Keys.{tally, held-set}
use dousi.Executor.Threads.Keeps.{on_accept-Accepted}
use dousi.Executor.Threads.Invariant.{request_key, queue_pop}
use dousi.Executor.Threads.Log.{
  All-pop, more_messages, Message, IsSent, Holds, Logged, Grown, took_in, wrote, on_accept-same,
  invoke_method-IsSent,
}
use dousi.Executor.Threads.Performed.{performing, arriving}

module _ {m : Msgpack} {l : LockFree} {S : Type 0} where
  pub Step-Grown :
      {o : ByteOrder} (e : Executor m l S) {t u : System m l S} (step : Step o t u)
      (ms : List Message) (es : List DousiResponse) (h : Logged e ms es t)
      → Grown h.log e (took_in step ms) (wrote step es) u
  Step-Grown e {t} (accept error {e = now} accepted) ms es h =
      let a = on_accept-Accepted error t.executor now accepted in
      let (objects, methods, services) = on_accept-same error t.executor now accepted in
      record {
        after = record {
          log = h.log;
          done = h.done;
          ran = record {
            ran = h.ran.ran ∙ ap (λ objects. ok (h.done, objects)) (sym objects);
            methods = methods ∙ h.ran.methods;
            services = services ∙ h.ran.services;
          };
          logged = h.logged;
          queued = subst (λ q. All (IsSent (ms)) (l.contents q)) (sym a.requests) h.queued;
          working = h.working;
          answers = subst (λ q. All (λ r. Has r h.done) (l.contents q)) (sym a.responses) h.answers;
          writing = h.writing;
          sent_off = h.sent_off;
          counted = λ k.
              omega (arith, h.counted k, ap (λ q. tally request_key k (l.contents q)) a.requests);
        };
        later = [];
        longer = sym (append-nil h.log);
      }
  Step-Grown e {t} (arrive stream_id object_id buffer {e = now} found invoked) ms es h =
      let x : Message = (stream_id, (object_id, buffer)) in
      let (r, sent, key_, how) =
        invoke_method-IsSent t.executor now stream_id object_id buffer ms invoked in
      let (h', same) = more_messages e x ms es t h in
      subst (λ log. Grown log e (x ∷ ms) es _) same
        (arriving e (x ∷ ms) es t now (stream_id, object_id) r h' sent key_ how)
  Step-Grown e {t} (take i {r} {q} idle popped) ms es h =
      let P = IsSent (ms) in
      let (taken, left) = All-pop l P t.executor.request_queue q r popped h.queued in
      record {
        after = record {
          log = h.log;
          done = h.done;
          ran = record { ran = h.ran.ran; methods = h.ran.methods; services = h.ran.services };
          logged = h.logged;
          queued = left;
          working = All-set (Holds P) t.workers i (some r) h.working taken;
          answers = h.answers;
          writing = h.writing;
          sent_off = h.sent_off;
          counted = λ k. omega (
            arith,
            h.counted k,
            queue_pop l request_key k t.executor.request_queue q r popped,
            held-set request_key k t.workers i none (some r) idle,
          );
        };
        later = [];
        longer = sym (append-nil h.log);
      }
  Step-Grown e {t} (finish i {r} {e = now} holding performed) ms es h =
      let P = IsSent (ms) in
      performing e (ms) (es) t now r (set t.workers i none) t.arrived h performed
        (All-get_elem? (Holds P) t.workers i h.working holding)
        (All-set (Holds P) t.workers i none h.working tt)
        (λ k. omega (arith, h.counted k, held-set request_key k t.workers i (some r) none holding))
  Step-Grown e {t} (fetch j {r} {q} idle popped) ms es h =
      let P : DousiResponse → Type 0 = λ r. Has r h.done in
      let (fetched, left) = All-pop l P t.executor.response_queue q r popped h.answers in
      record {
        after = record {
          log = h.log;
          done = h.done;
          ran = record { ran = h.ran.ran; methods = h.ran.methods; services = h.ran.services };
          logged = h.logged;
          queued = h.queued;
          working = h.working;
          answers = left;
          writing = All-set (Holds P) t.writers j (some r) h.writing fetched;
          sent_off = h.sent_off;
          counted = h.counted;
        };
        later = [];
        longer = sym (append-nil h.log);
      }
  Step-Grown e {t} (emit j {r} holding written) ms es h =
      let P : DousiResponse → Type 0 = λ r. Has r h.done in
      record {
        after = record {
          log = h.log;
          done = h.done;
          ran = h.ran;
          logged = h.logged;
          queued = h.queued;
          working = h.working;
          answers = h.answers;
          writing = All-set (Holds P) t.writers j none h.writing tt;
          sent_off = (All-get_elem? (Holds P) t.writers j h.writing holding, h.sent_off);
          counted = h.counted;
        };
        later = [];
        longer = sym (append-nil h.log);
      }
