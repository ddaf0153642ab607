-- ===== src/Queue/LockFree.antt =====
-- src/dousi/core/common/boost_lock_free_queue.h over boost::lockfree::queue, a parameter.
pub mod Waiting
use dousi.Prelude.{
  ℕ, zero, suc, ◌*◌, ◌<◌, ◌≡◌, refl, Bool, true, List, [], ◌∷◌, ◌++◌, ◌↔◌, Option, none, some,
  arith,
}
use dousi.Queue.Interface.{ConcurrentQueue}

-- boost::lockfree::queue<T>, whose calls are atomic. `push` stands for a push that finds memory for
-- its node: a queue of no fixed size takes it from the operating system.
pub record LockFree : Type 1 where
  pub Queue : Type 0 → Type 0
  pub reserve : {A : Type 0} → ℕ → Queue A
  pub push : {A : Type 0} → A → Queue A → Queue A
  pub pop : {A : Type 0} → Queue A → Option (A × Queue A)
  pub empty : {A : Type 0} → Queue A → Bool
  pub contents : {A : Type 0} → Queue A → List A
  pub contents-reserve : {A : Type 0} (n : ℕ) → contents (reserve {A = A} n) ≡ []
  pub contents-push :
      {A : Type 0} (a : A) (q : Queue A) → contents (push a q) ≡ contents q ++ (a ∷ [])
  pub pop_none : {A : Type 0} (q : Queue A) → pop q ≡ none → contents q ≡ []
  pub pop_some :
      {A : Type 0} (q q' : Queue A) (a : A) → pop q ≡ some (a, q') → contents q ≡ a ∷ contents q'
  pub empty_iff : {A : Type 0} (q : Queue A) → (empty q ≡ true) ↔ (contents q ≡ [])

module _ (l : LockFree) where
  -- The constructor.
  unfoldable pub new_queue : (A : Type 0) → l.Queue A
  new_queue A = l.reserve (1024 * 1024)

module _ (l : LockFree) {A : Type 0} where
  unfoldable pub push : A → l.Queue A → l.Queue A
  push a q = l.push a q

  -- The loop of `WaitAndPop`, for `fuel` rounds: `others i` is what the other threads do to the queue
  -- during the i-th sleep. `none`: it still loops.
  pub wait_and_pop : ℕ → (ℕ → l.Queue A → l.Queue A) → ℕ → l.Queue A → Option (A × l.Queue A)
  wait_and_pop zero others i q = none
  wait_and_pop (suc fuel) others i q = elim (l.pop q) [
    | some popped ↦ some popped
    | none ↦ wait_and_pop fuel others (suc i) (others i q)
  ]

  -- The real size is not asked for.
  unfoldable pub get_size : l.Queue A → ℕ
  get_size q = 0

  unfoldable pub is_empty : l.Queue A → Bool
  is_empty q = l.empty q
