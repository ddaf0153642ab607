-- ===== src/Queue/StdLocked/Wakeups.antt =====
-- The condition variable of src/dousi/core/common/std_locked_queue.h: many threads in `Push` and
-- `WaitAndPop` of one queue. A step is what a thread does while it holds `mutex_`.
use dousi.Prelude.{
  ℕ, zero, suc, ◌+◌, ◌<◌, ◌≤◌, ◌≡◌, ◌⊎◌, inl, inr, refl, ap, List, [], ◌∷◌, none, some, length,
  length-append, get_elem?, set, arith,
}
use dousi.Queue.StdLocked.{StdLockedQueue, push, wait_and_pop, pop_none, pop_some}

-- Where a thread is: outside of `WaitAndPop`, asleep in `cond_var_.wait`, or woken and about to test
-- the predicate again.
pub data Phase : Type 0 where
  outside asleep woken : Phase

pub record Shared (A : Type 0) : Type 0 where
  pub queue : StdLockedQueue A
  pub threads : List Phase

abbrev pub one_asleep : Phase → ℕ
one_asleep asleep = 1
one_asleep _ = 0

abbrev pub one_woken : Phase → ℕ
one_woken woken = 1
one_woken _ = 0

abbrev pub count : (Phase → ℕ) → List Phase → ℕ
count one [] = 0
count one (p ∷ ps) = one p + count one ps

-- `notify_one` wakes a sleeper, if there is one. A thread comes into `WaitAndPop` from outside, or goes
-- on in it once it is woken; with an entry it pops it and leaves, and without one it sleeps. A
-- sleeper may also wake for no reason.
pub data Step {A : Type 0} (s : Shared A) : Shared A → Type 0 where
  push_waking :
      (a : A) (i : ℕ)
      → get_elem? s.threads i ≡ some asleep
      → Step s (record { queue = push a s.queue; threads = set s.threads i woken })
  push_alone :
      (a : A)
      → count one_asleep s.threads ≡ 0
      → Step s (record { queue = push a s.queue; threads = s.threads })
  pops :
      (i : ℕ) (p : Phase) {a : A} {q : StdLockedQueue A}
      → get_elem? s.threads i ≡ some p
      → one_asleep p ≡ 0
      → wait_and_pop s.queue ≡ some (a, q)
      → Step s (record { queue = q; threads = set s.threads i outside })
  sleeps :
      (i : ℕ) (p : Phase)
      → get_elem? s.threads i ≡ some p
      → one_asleep p ≡ 0
      → wait_and_pop s.queue ≡ none
      → Step s (record { queue = s.queue; threads = set s.threads i asleep })
  wakes :
      (i : ℕ)
      → get_elem? s.threads i ≡ some asleep
      → Step s (record { queue = s.queue; threads = set s.threads i woken })

pub data Reach {A : Type 0} (s : Shared A) : Shared A → Type 0 where
  here : Reach s s
  next : {t u : Shared A} → Reach s t → Step t u → Reach s u

count-set :
    (one : Phase → ℕ) (ps : List Phase) (i : ℕ) (old new : Phase)
    → get_elem? ps i ≡ some old
    → count one (set ps i new) + one old ≡ count one ps + one new
count-set one [] i old new h = cc
count-set one (p ∷ ps) zero old new h = ground arith
count-set one (p ∷ ps) (suc i) old new h = omega (arith, count-set one ps i old new h)

-- If a thread sleeps, each entry has a thread that was woken for it.
abbrev Inv : {A : Type 0} → Shared A → Type 0
Inv s = (count one_asleep s.threads ≡ 0) ⊎ (length s.queue.queued ≤ count one_woken s.threads)

one_le : (p : Phase) → one_woken p ≤ 1
one_le outside = omega arith
one_le asleep = omega arith
one_le woken = omega arith

length-push :
    {A : Type 0} (a : A) (q : StdLockedQueue A) → length (push a q).queued ≡ length q.queued + 1
unfolding push
length-push a q = omega (arith, length-append q.queued (a ∷ []))

length-popped :
    {A : Type 0} (q q' : StdLockedQueue A) (a : A)
    → wait_and_pop q ≡ some (a, q')
    → length q.queued ≡ length q'.queued + 1
length-popped q q' a h = omega (arith, ap length (pop_some q q' a h))

length-empty : {A : Type 0} (q : StdLockedQueue A) → wait_and_pop q ≡ none → length q.queued ≡ 0
length-empty q h = ap length (pop_none q h)

Step-Inv : {A : Type 0} {s t : Shared A} → Step s t → Inv s → Inv t
Step-Inv {A} {s} (push_waking a i h) (inl none_sleeps) =
    absurd (omega (arith, count-set one_asleep s.threads i asleep woken h))
Step-Inv {A} {s} (push_waking a i h) (inr enough) =
    inr (omega (arith, length-push a s.queue, count-set one_woken s.threads i asleep woken h))
Step-Inv {A} {s} (push_alone a h) v = inl h
Step-Inv {A} {s} (pops i p {a} {q} h awake popped) (inl none_sleeps) =
    inl (omega (arith, count-set one_asleep s.threads i p outside h))
Step-Inv {A} {s} (pops i p {a} {q} h awake popped) (inr enough) = inr (
    omega (
      arith,
      one_le p,
      length-popped s.queue q a popped,
      count-set one_woken s.threads i p outside h,
    ))
Step-Inv {A} {s} (sleeps i p h awake empty) v = inr (omega (arith, length-empty s.queue empty))
Step-Inv {A} {s} (wakes i h) (inl none_sleeps) =
    absurd (omega (arith, count-set one_asleep s.threads i asleep woken h))
Step-Inv {A} {s} (wakes i h) (inr enough) =
    inr (omega (arith, count-set one_woken s.threads i asleep woken h))

Reach-Inv : {A : Type 0} {s t : Shared A} → Inv s → Reach s t → Inv t
Reach-Inv v here = v
Reach-Inv v (next r st) = Step-Inv st (Reach-Inv v r)

find_woken : (ps : List Phase) → 0 < count one_woken ps → (j : ℕ) × (get_elem? ps j ≡ some woken)
find_woken [] h = absurd (omega arith)
find_woken (woken ∷ ps) h = (0, refl)
find_woken (outside ∷ ps) h = let (j, found) = find_woken ps (omega arith) in (suc j, found)
find_woken (asleep ∷ ps) h = let (j, found) = find_woken ps (omega arith) in (suc j, found)

asleep_counts : (ps : List Phase) (i : ℕ) → get_elem? ps i ≡ some asleep → 0 < count one_asleep ps
asleep_counts [] i h = cc
asleep_counts (p ∷ ps) zero h = ground arith
asleep_counts (p ∷ ps) (suc i) h = omega (arith, asleep_counts ps i h)

-- However many threads push and pop, from a state on in which none sleeps: while a thread sleeps in
-- `WaitAndPop` and entries are queued, at least as many threads as there are entries were woken and
-- have yet to test the predicate. So no wake-up is lost.
pub woken_for_entries :
    {A : Type 0} (s t : Shared A) (i : ℕ)
    → count one_asleep s.threads ≡ 0
    → Reach s t
    → get_elem? t.threads i ≡ some asleep
    → (length t.queue.queued ≤ count one_woken t.threads)
      × (0 < length t.queue.queued → (j : ℕ) × (get_elem? t.threads j ≡ some woken))
woken_for_entries s t i start reach sleeping = elim (Reach-Inv (inl start) reach) [
  | inl none_sleeps ↦ absurd (omega (arith, asleep_counts t.threads i sleeping))
  | inr enough ↦ (enough, λ some_entry. find_woken t.threads (omega arith))
]
