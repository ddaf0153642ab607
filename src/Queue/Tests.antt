-- ===== src/Queue/Tests.antt =====
-- The queues of src/dousi/core/common at concrete calls; a lock free queue made of a list.
use dousi.Prelude.{
  get_elem?, length, ◌≤◌, ℕ, zero, suc, ◌<◌, ◌≡◌, ◌≢◌, refl, List, [], ◌∷◌, ◌++◌, none, some, arith,
}
use dousi.Queue.Interface.{Call, pushes, pops, run_queue}
use dousi.Queue.StdLocked.{StdLockedQueue, std_locked_queue, push, wait_and_pop, get_size}
use dousi.Queue.StdLocked.Wakeups.{
  Shared, outside, asleep, woken, sleeps, push_waking, Reach, here, next, one_woken, count,
  woken_for_entries,
}
use dousi.Queue.LockFree
use dousi.Queue.LockFree.{LockFree}
use dousi.Queue.LockFree.Waiting.{slept, wait_and_pop_returns}
use dousi.Queue.Sizes.{get_size-mismatch}
use dousi.Queue.Listed.{listed}

abbrev calls : List (Call ℕ)
calls = pops ∷ pushes 4 ∷ pushes 5 ∷ pops ∷ pops ∷ pops ∷ []

abbrev started : StdLockedQueue ℕ
started = record { queued = 3 ∷ [] }

run_queue_test : run_queue (std_locked_queue ℕ) calls started ≡ some 3 ∷ some 4 ∷ some 5 ∷ none ∷ []
unfolding run_queue wait_and_pop push
run_queue_test = refl

-- Another thread pushes 7 during the second sleep.
abbrev others : ℕ → List ℕ → List ℕ
others (suc zero) q = q ++ (7 ∷ [])
others i q = q

empty_before : (j : ℕ) → j < 2 → slept listed others 0 j [] ≡ []
empty_before zero h = refl
empty_before (suc zero) h = refl
empty_before (suc (suc j)) h = absurd (omega arith)

wait_and_pop_returns_example :
    (q : List ℕ) × (LockFree.wait_and_pop listed 3 others 0 [] ≡ some (7, q)) × (q ≡ [])
wait_and_pop_returns_example = wait_and_pop_returns listed others 2 0 [] 7 [] empty_before refl

get_size-mismatch_test :
    (get_size started ≡ 1)
    × (LockFree.get_size listed {A = ℕ} (3 ∷ []) ≡ 0)
    × (get_size started ≢ LockFree.get_size listed {A = ℕ} (3 ∷ []))
get_size-mismatch_test = get_size-mismatch listed started (3 ∷ []) refl (omega arith) (omega arith)

-- Two threads have gone to sleep on an empty queue, and one of them was woken by a push.
abbrev idle_threads : Shared ℕ
idle_threads = record { queue = record { queued = [] }; threads = outside ∷ outside ∷ [] }

abbrev one_pushed : Shared ℕ
one_pushed = record { queue = record { queued = 9 ∷ [] }; threads = woken ∷ asleep ∷ [] }

run_to_push : Reach idle_threads one_pushed
unfolding push wait_and_pop
run_to_push =
    next (next (next here (sleeps 0 outside refl refl refl)) (sleeps 1 outside refl refl refl))
      (push_waking 9 0 refl)

woken_for_entries_example :
    (length one_pushed.queue.queued ≤ count one_woken one_pushed.threads)
    × (0 < length one_pushed.queue.queued → (j : ℕ) × (get_elem? one_pushed.threads j ≡ some woken))
woken_for_entries_example = woken_for_entries idle_threads one_pushed 1 refl run_to_push refl
