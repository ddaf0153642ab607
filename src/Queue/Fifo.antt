-- ===== src/Queue/Fifo.antt =====
-- The two queues of src/dousi/core/common against a first-in first-out list.
use dousi.Queue.Interface.{KeepsOrder}
use dousi.Queue.StdLocked.{std_locked_queue, contents-push, pop_none, pop_some}
use dousi.Queue.LockFree.{LockFree, push}
use dousi.Queue.LockFree.Waiting.{boost_lock_free_queue}

std_locked_queue-KeepsOrder : (A : Type 0) → KeepsOrder (std_locked_queue A)
std_locked_queue-KeepsOrder A = record {
  contents = λ q. q.queued;
  contents-push = contents-push;
  pop_none = pop_none;
  pop_some = pop_some;
}

boost_lock_free_queue-KeepsOrder :
    (l : LockFree) (A : Type 0) → KeepsOrder (boost_lock_free_queue l A)
unfolding push
boost_lock_free_queue-KeepsOrder l A = record {
  contents = l.contents;
  contents-push = l.contents-push;
  pop_none = l.pop_none;
  pop_some = l.pop_some;
}
