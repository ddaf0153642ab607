-- ===== src/Executor/Threads/Drain.antt =====
-- That the threads of src/dousi/core/executor finish what has arrived, unless a request faults.
use dousi.Prelude.{
  ℕ, zero, suc, ◌<◌, ◌≡◌, ◌⊎◌, inl, inr, refl, ap, ◌∙◌, List, [], ◌∷◌, some, get_elem?, All, arith,
}
use dousi.Msgpack.{Msgpack}
use dousi.Stream.Word.{ByteOrder}
use dousi.Queue.LockFree.{LockFree}
use dousi.Executor.{Executor, Outcome, ok, fault, Fault, perform_request}
use dousi.Executor.Request.{DousiRequest, DousiResponse}
use dousi.Executor.Threads.{System, Step, Reach, here, next, started, write_thread_num}
use dousi.Executor.Threads.Keys.{Key, tally}
use dousi.Executor.Threads.Invariant.{itself}
use dousi.Executor.Threads.Answers.{IsIdle, IsEmpty, IsQuiet, all_answered, write_response_finds}
use dousi.Executor.Threads.Load.{
  find_busy, first_idle, length-spawned, load, Staffed, Step-Staffed, Advances, take-Advances,
  fetch-Advances, finish-Advances, emit-Advances,
}

module _ {m : Msgpack} {l : LockFree} {S : Type 0} where
  -- A work thread holds a request that faults: the process is about to end.
  abbrev pub Faults : System m l S → Type 0
  Faults s =
      (i : ℕ) × (r : DousiRequest m) × (f : Fault) × (get_elem? s.workers i ≡ some (some r))
      × (perform_request s.executor r ≡ fault f)

  -- It is about to end with nothing left to write: no response is queued, or held by a write thread.
  pub record Stops (s : System m l S) : Type 0 where
    pub faults : Faults s
    pub no_responses : l.contents s.executor.response_queue ≡ []
    pub writers : All IsIdle s.writers

  perform-Advances :
      (o : ByteOrder) (s : System m l S) (i : ℕ) (r : DousiRequest m) (c : Outcome (Executor m l S))
      → get_elem? s.workers i ≡ some (some r)
      → perform_request s.executor r ≡ c
      → Faults s ⊎ Advances o s
  perform-Advances o s i r (ok e) holding h = inr (finish-Advances o s i r e holding h)
  perform-Advances o s i r (fault f) holding h = inl (i, r, f, holding, h)

  -- With nothing to write and the work threads idle, the request queue decides.
  idle-Advances :
      (o : ByteOrder) (s : System m l S) (requests : List (DousiRequest m))
      → Staffed s
      → All IsIdle s.workers
      → All IsIdle s.writers
      → l.contents s.executor.request_queue ≡ requests
      → l.contents s.executor.response_queue ≡ []
      → IsQuiet s ⊎ Advances o s
  idle-Advances o s (r ∷ rs) v workers writers queued answers =
      inr (take-Advances o s r rs (first_idle s.workers v.work_thread workers) queued)
  idle-Advances o s [] v workers writers queued answers = inl (record {
    queues = record { no_requests = queued; no_responses = answers };
    workers = workers;
    writers = writers;
  })

  -- With the write threads idle: a response that is queued comes first.
  unwritten-Advances :
      (o : ByteOrder) (s : System m l S) (responses : List DousiResponse)
      → Staffed s
      → All IsIdle s.writers
      → l.contents s.executor.response_queue ≡ responses
      → (IsQuiet s ⊎ Stops s) ⊎ Advances o s
  unwritten-Advances o s (r ∷ rs) v writers answers =
      inr (fetch-Advances o s r rs (first_idle s.writers v.write_thread writers) answers)
  unwritten-Advances o s [] v writers answers = elim (find_busy s.workers) [
    | inr (i, r, holding) ↦
        elim (perform-Advances o s i r (perform_request s.executor r) holding refl) [
          | inl faults ↦
              inl (inr (record { faults = faults; no_responses = answers; writers = writers }))
          | inr advances ↦ inr advances
        ]
    | inl workers ↦ elim (idle-Advances o s _ v workers writers refl answers) [
      | inl quiet ↦ inl (inl quiet)
      | inr advances ↦ inr advances
    ]
  ]

  -- No state that can be reached is stuck.
  progress :
      (o : ByteOrder) (e : Executor m l S) (s : System m l S)
      → IsEmpty e
      → Reach o (started e) s
      → Staffed s
      → (IsQuiet s ⊎ Stops s) ⊎ Advances o s
  progress o e s empty reach v = elim (find_busy s.writers) [
    | inr (j, r, holding) ↦
        inr (emit-Advances o s j r holding (write_response_finds o e s j r empty reach holding).2)
    | inl writers ↦ unwritten-Advances o s _ v writers refl
  ]

  Reach-Staffed : (o : ByteOrder) {s t : System m l S} → Reach o s t → Staffed s → Staffed t
  Reach-Staffed o here v = v
  Reach-Staffed o (next r st) v = Step-Staffed o st (Reach-Staffed o r v)

  prepend : (o : ByteOrder) {s t u : System m l S} → Step o s t → Reach o t u → Reach o s u
  prepend o st here = next here st
  prepend o st (next r st') = next (prepend o st r) st'

  -- One run after the other.
  unfoldable pub join :
      (o : ByteOrder) {s t u : System m l S} → Reach o s t → Reach o t u → Reach o s u
  join o r here = r
  join o r (next r' st) = next (join o r r') st

  run_down :
      (o : ByteOrder) (e : Executor m l S) (n : ℕ) (s : System m l S)
      → IsEmpty e
      → Reach o (started e) s
      → Staffed s
      → load s ≡ n
      → (t : System m l S) × Reach o s t × (t.arrived ≡ s.arrived) × (IsQuiet t ⊎ Stops t)
  run_down o e zero s empty reach v h = elim (progress o e s empty reach v) [
    | inl end ↦ (s, here, refl, end)
    | inr (t, st, nearer, same) ↦ absurd (omega (arith, nearer, h))
  ]
  run_down o e (suc n) s empty reach v h = elim (progress o e s empty reach v) [
    | inl end ↦ (s, here, refl, end)
    | inr (t, st, nearer, same) ↦
        let (u, on, kept, end) =
          run_down o e n t empty (next reach st) (Step-Staffed o st v) (omega (arith, nearer, h)) in
        (u, prepend o st on, kept ∙ same, end)
  ]

  -- At a server with work threads, from every state that can be reached: the threads can go on by
  -- themselves, while no further message arrives, until nothing is queued or held and each message that
  -- has arrived is answered, once for each time that it arrived; or until a work thread holds a request
  -- that faults, and then all responses have been written, of which none is queued or held.
  pub finishes :
      (o : ByteOrder) (e : Executor m l S) (s : System m l S)
      → IsEmpty e
      → 0 < e.executor_options.work_thread_num
      → Reach o (started e) s
      → (t : System m l S) × Reach o s t
        × (t.arrived ≡ s.arrived)
        × (Stops t
            ⊎ (IsQuiet t × ((k : Key) → tally itself k t.written ≡ tally itself k s.arrived)))
  finishes o e s empty threads reach =
      let v : Staffed (started e) = record {
        work_thread =
            omega (arith, length-spawned (DousiRequest m) e.executor_options.work_thread_num);
        write_thread = omega (arith, length-spawned DousiResponse write_thread_num);
      } in
      let (t, on, same, end) = run_down o e (load s) s empty reach (Reach-Staffed o reach v) refl in
      (
        t,
        on,
        same,
        elim end [
          | inr faults ↦ inl faults
          | inl quiet ↦ inr (
            quiet,
            λ k. all_answered o e t k empty (join o reach on) quiet ∙ ap (tally itself k) same,
          )
        ],
      )
