-- ===== src/Queue/Interface.antt =====
-- src/dousi/core/common/concurrent_queue.h: the operations of a queue, and any sequence of calls of them.
use dousi.Prelude.{ℕ, ◌≡◌, refl, Bool, List, [], ◌∷◌, ◌++◌, Option, none, some}

-- `pop` is the body of `WaitAndPop`; where it gives `none` the caller has to wait.
pub record ConcurrentQueue (A : Type 0) : Type 1 where
  pub Queue : Type 0
  pub push : A → Queue → Queue
  pub pop : Queue → Option (A × Queue)
  pub get_size : Queue → ℕ
  pub is_empty : Queue → Bool

pub data Call (A : Type 0) : Type 0 where
  pushes : A → Call A
  pops : Call A

-- What a queue promises: first in, first out. A pop of the empty queue gives nothing.
abbrev pub run_list : {A : Type 0} → List (Call A) → List A → List (Option A)
run_list [] xs = []
run_list (pushes a ∷ cs) xs = run_list cs (xs ++ (a ∷ []))
run_list (pops ∷ cs) [] = none ∷ run_list cs []
run_list (pops ∷ cs) (x ∷ xs) = some x ∷ run_list cs xs

module _ {A : Type 0} (i : ConcurrentQueue A) where
  unfoldable pub run_queue : List (Call A) → i.Queue → List (Option A)
  run_queue [] q = []
  run_queue (pushes a ∷ cs) q = run_queue cs (i.push a q)
  run_queue (pops ∷ cs) q = elim (i.pop q) [
    | none ↦ none ∷ run_queue cs q
    | some (a, q') ↦ some a ∷ run_queue cs q'
  ]

  -- The entries of the queue, the first one first, and what the two operations do to them.
  pub record KeepsOrder : Type 0 where
    pub contents : i.Queue → List A
    pub contents-push : (a : A) (q : i.Queue) → contents (i.push a q) ≡ contents q ++ (a ∷ [])
    pub pop_none : (q : i.Queue) → i.pop q ≡ none → contents q ≡ []
    pub pop_some : (q q' : i.Queue) (a : A) → i.pop q ≡ some (a, q') → contents q ≡ a ∷ contents q'

  pub run_queue_lem :
      (h : KeepsOrder) (cs : List (Call A)) (q : i.Queue)
      → run_queue cs q ≡ run_list cs (h.contents q)
  unfolding run_queue
  run_queue_lem h [] q = refl
  run_queue_lem h (pushes a ∷ cs) q = rw (run_queue_lem h cs (i.push a q), h.contents-push a q)
  run_queue_lem h (pops ∷ cs) q = popped (i.pop q) refl (run_queue_lem h cs)
    where
      popped :
          (o : Option (A × i.Queue))
          → i.pop q ≡ o
          → ((q' : i.Queue) → run_queue cs q' ≡ run_list cs (h.contents q'))
          → run_queue (pops ∷ cs) q ≡ run_list (pops ∷ cs) (h.contents q)
      popped none e ih = rw (e, run_queue, ih q, h.pop_none q e)
      popped (some (a, q')) e ih = rw (e, run_queue, ih q', h.pop_some q q' a e)
