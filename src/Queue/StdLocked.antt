-- ===== src/Queue/StdLocked.antt =====
-- src/dousi/core/common/std_locked_queue.h. Each method holds `mutex_` from its first line to its
-- last (but while it waits), so it is one step; `notify_one` changes no data. Queue/StdLocked/Wakeups has the
-- threads that wait.
pub mod Wakeups
use dousi.Prelude.{
  ℕ, ◌%◌, ◌^◌, ◌≡◌, refl, Bool, true, false, List, [], ◌∷◌, ◌++◌, ◌↔◌, Option, none, some, length,
  arith,
}
use dousi.Queue.Interface.{ConcurrentQueue}

-- `data_`, its front first.
pub record StdLockedQueue (A : Type 0) : Type 0 where
  pub queued : List A

module _ {A : Type 0} where
  unfoldable pub push : A → StdLockedQueue A → StdLockedQueue A
  push a q = record { queued = q.queued ++ (a ∷ []) }

  take_front : List A → Option (A × StdLockedQueue A)
  take_front [] = none
  take_front (a ∷ rest) = some (a, record { queued = rest })

  -- `none`: `cond_var_.wait` blocks, until another thread has pushed.
  unfoldable pub wait_and_pop : StdLockedQueue A → Option (A × StdLockedQueue A)
  unfolding take_front
  wait_and_pop q = take_front q.queued

  -- size_t is returned as uint32_t.
  unfoldable pub get_size : StdLockedQueue A → ℕ
  get_size q = length q.queued % 2 ^ 32

  no_entry : List A → Bool
  no_entry [] = true
  no_entry (a ∷ rest) = false

  unfoldable pub is_empty : StdLockedQueue A → Bool
  unfolding no_entry
  is_empty q = no_entry q.queued

  pub contents-push : (a : A) (q : StdLockedQueue A) → (push a q).queued ≡ q.queued ++ (a ∷ [])
  unfolding push
  contents-push a q = refl

  pub pop_none : (q : StdLockedQueue A) → wait_and_pop q ≡ none → q.queued ≡ []
  unfolding wait_and_pop
  pop_none q e = ground arith

  pub pop_some :
      (q q' : StdLockedQueue A) (a : A) → wait_and_pop q ≡ some (a, q') → q.queued ≡ a ∷ q'.queued
  unfolding wait_and_pop
  pop_some q q' a e = ground arith

-- The locked queue with the operations of the interface.
abbrev pub std_locked_queue : (A : Type 0) → ConcurrentQueue A
std_locked_queue A = record {
  Queue = StdLockedQueue A;
  push = push;
  pop = wait_and_pop;
  get_size = get_size;
  is_empty = is_empty;
}
