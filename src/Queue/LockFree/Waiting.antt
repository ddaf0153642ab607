-- ===== src/Queue/LockFree/Waiting.antt =====
-- The waiting of `WaitAndPop`, and the contract of the interface.
use dousi.Prelude.{ℕ, zero, suc, ◌<◌, ◌≡◌, refl, sym, ◌∙◌, List, [], ◌∷◌, Option, none, some, arith}
use dousi.Queue.Interface.{ConcurrentQueue}
use dousi.Queue.LockFree.{LockFree, push, wait_and_pop, get_size, is_empty}

module _ (l : LockFree) {A : Type 0} where
  -- The queue after the sleeps `i`, `i + 1`, … of a thread that found it empty each time.
  abbrev pub slept : (ℕ → l.Queue A → l.Queue A) → ℕ → ℕ → l.Queue A → l.Queue A
  slept others i zero q = q
  slept others i (suc k) q = slept others (suc i) k (others i q)

  pop_empty : (q : l.Queue A) → l.contents q ≡ [] → l.pop q ≡ none
  pop_empty q e = cases (l.pop q) refl
    where
      cases : (o : Option (A × l.Queue A)) → l.pop q ≡ o → l.pop q ≡ none
      cases none p = p
      cases (some (a, q')) p = cc (l.pop_some q q' a p)

  pub pop_front :
      (q : l.Queue A) (a : A) (rest : List A)
      → l.contents q ≡ a ∷ rest
      → (q' : l.Queue A) × (l.pop q ≡ some (a, q')) × (l.contents q' ≡ rest)
  pop_front q a rest e = cases (l.pop q) refl
    where
      cases :
          (o : Option (A × l.Queue A))
          → l.pop q ≡ o
          → (q' : l.Queue A) × (l.pop q ≡ some (a, q')) × (l.contents q' ≡ rest)
      cases none p = cc (l.pop_none q p)
      cases (some (b, q')) p =
          let same : b ∷ l.contents q' ≡ a ∷ rest = sym (l.pop_some q q' b p) ∙ e in
          (q', ground arith, ground arith)

  -- The loop ends in the round in which it first finds the queue not empty, with the entry at the
  -- front, whatever the other threads do during the sleeps.
  pub wait_and_pop_returns :
      (others : ℕ → l.Queue A → l.Queue A) (k i : ℕ) (q : l.Queue A) (a : A) (rest : List A)
      → ((j : ℕ) → j < k → l.contents (slept others i j q) ≡ [])
      → l.contents (slept others i k q) ≡ a ∷ rest
      → (q' : l.Queue A) × (wait_and_pop l (suc k) others i q ≡ some (a, q'))
        × (l.contents q' ≡ rest)
  unfolding wait_and_pop
  wait_and_pop_returns others zero i q a rest empty front =
      let (q', popped, left) = pop_front q a rest front in (q', rw (popped, wait_and_pop), left)
  wait_and_pop_returns others (suc k) i q a rest empty front =
      let (q', popped, left) =
        wait_and_pop_returns others k (suc i) (others i q) a rest
          (λ j h. empty (suc j) (omega arith)) front in
      (q', rw (pop_empty q (empty 0 (omega arith)), wait_and_pop) popped, left)

-- The lock free queue with the operations of the interface.
abbrev pub boost_lock_free_queue : (l : LockFree) (A : Type 0) → ConcurrentQueue A
boost_lock_free_queue l A = record {
  Queue = l.Queue A;
  push = push l;
  pop = l.pop;
  get_size = get_size l;
  is_empty = is_empty l;
}
