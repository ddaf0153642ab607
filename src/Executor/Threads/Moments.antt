-- ===== src/Executor/Threads/Moments.antt =====
-- The moment of a run of one thread at which a response was given.
use dousi.Prelude.{◌≡◌, inl, inr, refl, sym, ap, ◌∙◌, subst, List, [], ◌∷◌, ◌++◌, Bytes, Has, arith}
use dousi.Msgpack.{Msgpack}
use dousi.Queue.LockFree.{LockFree}
use dousi.Executor.{Executor, ok, call_method}
use dousi.Executor.Request.{DousiRequest, DousiResponse}
use dousi.Executor.Threads.Keys.{Key, tally, tally_cons, tally_nil}
use dousi.Executor.Threads.Keeps.{and_then_ok}
use dousi.Executor.Threads.Invariant.{request_key, response_key}
use dousi.Executor.Threads.Serial.{run_serial, response_to, ok_inj}

module _ {m : Msgpack} {l : LockFree} {S : Type 0} where
  -- The log up to a request, what performing it leaves of the objects, and the call of the request on
  -- them, which gives the response.
  pub record Moment (e : Executor m l S) (log : List (DousiRequest m)) (start : List S)
      (d : DousiResponse) : Type 0 where
    pub before : List (DousiRequest m)
    pub request : DousiRequest m
    pub after : List (DousiRequest m)
    pub split : log ≡ before ++ request ∷ after
    pub done : List DousiResponse
    pub objects : List S
    pub ran : run_serial e before start ≡ ok (done, objects)
    pub called : Bytes × Executor m l S
    pub calls :
        call_method (record e { objects = objects }) request.method_name request.unpacked
        ≡ ok called
    pub gives : response_to request called.0 ≡ d

  later :
      (e : Executor m l S) (r : DousiRequest m) (log : List (DousiRequest m)) (start : List S)
      (c : Bytes × Executor m l S) (d : DousiResponse)
      → call_method (record e { objects = start }) r.method_name r.unpacked ≡ ok c
      → Moment e log c.1.objects d
      → Moment e (r ∷ log) start d
  unfolding run_serial
  later e r log start c d called h = record {
    before = r ∷ h.before;
    request = h.request;
    after = h.after;
    split = ap (◌∷◌ r) h.split;
    done = response_to r c.0 ∷ h.done;
    objects = h.objects;
    ran = rw (called, h.ran) refl;
    called = h.called;
    calls = h.calls;
    gives = h.gives;
  }

  pub run_serial-Moment :
      (e : Executor m l S) (log : List (DousiRequest m)) (start : List S)
      (p : List DousiResponse × List S) (d : DousiResponse)
      → run_serial e log start ≡ ok p
      → Has d p.0
      → Moment e log start d
  unfolding run_serial
  run_serial-Moment e [] start p d ran h = absurd (subst (λ p. Has d p.0) (sym (ok_inj ran)) h)
  run_serial-Moment e (r ∷ log) start p d ran h =
      let (c, first, more) =
        and_then_ok (call_method (record e { objects = start }) r.method_name r.unpacked) _ ran in
      let (p', rest, same) = and_then_ok (run_serial e log c.1.objects) _ more in
      elim (subst (λ p. Has d p.0) (sym (ok_inj same)) h) [
        | inl now ↦ record {
          before = [];
          request = r;
          after = log;
          split = refl;
          done = [];
          objects = start;
          ran = refl;
          called = c;
          calls = first;
          gives = now;
        }
        | inr then_ ↦
            later e r log start c d first (run_serial-Moment e log c.1.objects p' d rest then_)
      ]

  -- One response for each request, under its ids.
  pub tally-run_serial :
      (k : Key) (e : Executor m l S) (log : List (DousiRequest m)) (start : List S)
      (p : List DousiResponse × List S)
      → run_serial e log start ≡ ok p
      → tally response_key k p.0 ≡ tally request_key k log
  unfolding run_serial
  tally-run_serial k e [] start p ran =
      ap (λ (p : List DousiResponse × List S). tally response_key k p.0) (sym (ok_inj ran))
      ∙ tally_nil response_key k
      ∙ sym (tally_nil request_key k)
  tally-run_serial k e (r ∷ log) start p ran =
      let (c, first, more) =
        and_then_ok (call_method (record e { objects = start }) r.method_name r.unpacked) _ ran in
      let (p', rest, same) = and_then_ok (run_serial e log c.1.objects) _ more in
      ap (λ (p : List DousiResponse × List S). tally response_key k p.0) (sym (ok_inj same))
      ∙ omega (
        arith,
        tally_cons response_key k (response_to r c.0) p'.0,
        tally_cons request_key k r log,
        tally-run_serial k e log c.1.objects p' rest,
      )
