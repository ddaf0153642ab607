-- ===== src/Executor/Threads/Load.antt =====
-- How far the threads of src/dousi/core/executor are from the end of their work, and the steps that
-- bring it nearer.
use dousi.Prelude.{
  ℕ, zero, suc, ◌+◌, ◌*◌, ◌<◌, ◌≡◌, ◌⊎◌, inl, inr, refl, ap, List, [], ◌∷◌, Option, none, some,
  Bytes, length, length-append, get_elem?, set, All, arith,
}
use dousi.Msgpack.{Msgpack}
use dousi.Stream.{AsioStream}
use dousi.Stream.Word.{ByteOrder}
use dousi.Queue.LockFree.{LockFree, push}
use dousi.Queue.LockFree.Waiting.{pop_front}
use dousi.Executor.{Executor, ok, perform_request, write_response}
use dousi.Executor.Request.{DousiRequest, DousiResponse}
use dousi.Executor.Threads.{System, Step, accept, arrive, take, finish, fetch, emit, spawned}
use dousi.Executor.Threads.Keeps.{perform_request-Performed}
use dousi.Executor.Threads.Answers.{IsIdle}

abbrev one_if_some : {A : Type 0} → Option A → ℕ
one_if_some none = 0
one_if_some (some a) = 1

-- How many threads hold an entry.
abbrev pub busy : {A : Type 0} → List (Option A) → ℕ
busy [] = 0
busy (x ∷ xs) = one_if_some x + busy xs

busy-set :
    {A : Type 0} (xs : List (Option A)) (i : ℕ) (old new : Option A)
    → get_elem? xs i ≡ some old
    → busy (set xs i new) + one_if_some old ≡ busy xs + one_if_some new
busy-set [] i old new h = cc
busy-set (x ∷ xs) zero old new h = ground arith
busy-set (x ∷ xs) (suc i) old new h = omega (arith, busy-set xs i old new h)

-- A thread that holds an entry, if there is one.
pub find_busy :
    {A : Type 0} (xs : List (Option A))
    → All IsIdle xs ⊎ ((i : ℕ) × (a : A) × (get_elem? xs i ≡ some (some a)))
find_busy [] = inl tt
find_busy (some a ∷ xs) = inr (zero, a, refl)
find_busy (none ∷ xs) = elim (find_busy xs) [
  | inl idle ↦ inl (refl, idle)
  | inr (i, a, h) ↦ inr (suc i, a, h)
]

pub first_idle :
    {A : Type 0} (xs : List (Option A)) → 0 < length xs → All IsIdle xs → get_elem? xs 0 ≡ some none
first_idle [] some_thread idle = absurd (omega arith)
first_idle (x ∷ xs) some_thread idle = ap some idle.0

pub length-spawned : (A : Type 0) (n : ℕ) → length (spawned {A = A} n) ≡ n
length-spawned A zero = refl
length-spawned A (suc n) = ap suc (length-spawned A n)

pub length-set : {A : Type 0} (xs : List A) (i : ℕ) (x : A) → length (set xs i x) ≡ length xs
length-set [] i x = refl
length-set (y ∷ xs) zero x = refl
length-set (y ∷ xs) (suc i) x = ap suc (length-set xs i x)

module _ {m : Msgpack} {l : LockFree} {S : Type 0} where
  -- How many steps the entries that are queued or held have before them.
  abbrev pub load : System m l S → ℕ
  load s =
      4 * length (l.contents s.executor.request_queue)
      + 3 * busy s.workers
      + 2 * length (l.contents s.executor.response_queue)
      + busy s.writers

  pub record Staffed (s : System m l S) : Type 0 where
    pub work_thread : 0 < length s.workers
    pub write_thread : 0 < length s.writers

  pub Step-Staffed : (o : ByteOrder) {s t : System m l S} → Step o s t → Staffed s → Staffed t
  Step-Staffed o {s} (accept error {e} h) v = record {
    work_thread = v.work_thread;
    write_thread = v.write_thread;
  }
  Step-Staffed o {s} (arrive stream_id object_id buffer found h) v = record {
    work_thread = v.work_thread;
    write_thread = v.write_thread;
  }
  Step-Staffed o {s} (take i {r} idle popped) v = record {
    work_thread = omega (arith, length-set s.workers i (some r), v.work_thread);
    write_thread = v.write_thread;
  }
  Step-Staffed o {s} (finish i holding h) v = record {
    work_thread = omega (arith, length-set s.workers i none, v.work_thread);
    write_thread = v.write_thread;
  }
  Step-Staffed o {s} (fetch j {r} idle popped) v = record {
    work_thread = v.work_thread;
    write_thread = omega (arith, length-set s.writers j (some r), v.write_thread);
  }
  Step-Staffed o {s} (emit j holding h) v = record {
    work_thread = v.work_thread;
    write_thread = omega (arith, length-set s.writers j none, v.write_thread);
  }

  -- A step that takes in no message and brings the end nearer by one.
  abbrev pub Advances : ByteOrder → System m l S → Type 0
  Advances o s = (t : System m l S) × Step o s t × (load s ≡ suc (load t)) × (t.arrived ≡ s.arrived)

  pub take-Advances :
      (o : ByteOrder) (s : System m l S) (r : DousiRequest m) (rs : List (DousiRequest m))
      → get_elem? s.workers 0 ≡ some none
      → l.contents s.executor.request_queue ≡ r ∷ rs
      → Advances o s
  take-Advances o s r rs idle queued =
      let (q, popped, left) = pop_front l s.executor.request_queue r rs queued in
      (
        _,
        take 0 idle popped,
        omega (arith, ap length queued, ap length left, busy-set s.workers 0 none (some r) idle),
        refl,
      )

  pub fetch-Advances :
      (o : ByteOrder) (s : System m l S) (r : DousiResponse) (rs : List DousiResponse)
      → get_elem? s.writers 0 ≡ some none
      → l.contents s.executor.response_queue ≡ r ∷ rs
      → Advances o s
  fetch-Advances o s r rs idle queued =
      let (q, popped, left) = pop_front l s.executor.response_queue r rs queued in
      (
        _,
        fetch 0 idle popped,
        omega (arith, ap length queued, ap length left, busy-set s.writers 0 none (some r) idle),
        refl,
      )

  pub finish-Advances :
      (o : ByteOrder) (s : System m l S) (i : ℕ) (r : DousiRequest m) (e : Executor m l S)
      → get_elem? s.workers i ≡ some (some r)
      → perform_request s.executor r ≡ ok e
      → Advances o s
  unfolding push
  finish-Advances o s i r e holding h =
      let p = perform_request-Performed s.executor e r h in
      let response : DousiResponse = record {
        object_id = r.object_id;
        stream_id = r.stream_id;
        result = p.result;
      } in
      let queue = s.executor.response_queue in
      (
        _,
        finish i holding h,
        omega (
          arith,
          ap (λ q. length (l.contents q)) p.requests,
          ap (λ q. length (l.contents q)) p.responses,
          ap length (l.contents-push response queue),
          length-append (l.contents queue) (response ∷ []),
          busy-set s.workers i (some r) none holding,
        ),
        refl,
      )

  pub emit-Advances :
      (o : ByteOrder) (s : System m l S) (j : ℕ) (r : DousiResponse) {t : AsioStream}
      {bytes : Bytes}
      → get_elem? s.writers j ≡ some (some r)
      → write_response o s.executor r ≡ ok (t, bytes)
      → Advances o s
  emit-Advances o s j r holding h =
      (_, emit j holding h, omega (arith, busy-set s.writers j (some r) none holding), refl)
