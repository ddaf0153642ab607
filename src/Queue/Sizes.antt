-- ===== src/Queue/Sizes.antt =====
-- `GetSize` of the two queues of src/dousi/core/common.
use dousi.Prelude.{◌%◌, ◌^◌, ◌<◌, ◌≡◌, ◌≢◌, refl, ap, ◌∙◌, length, arith}
use dousi.Queue.StdLocked.{StdLockedQueue, get_size}
use dousi.Queue.LockFree
use dousi.Queue.LockFree.{LockFree}

-- With the same entries, at least one and fewer than 2 ^ 32, the two queues report different sizes:
-- the locked one the number of entries, the lock free one 0.
pub get_size-mismatch :
    (l : LockFree) {A : Type 0} (locked : StdLockedQueue A) (free : l.Queue A)
    → locked.queued ≡ l.contents free
    → 0 < length locked.queued
    → length locked.queued < 2 ^ 32
    → (get_size locked ≡ length (l.contents free))
      × (LockFree.get_size l free ≡ 0)
      × (get_size locked ≢ LockFree.get_size l free)
unfolding get_size LockFree.get_size
get_size-mismatch l locked free same pos small =
    let size : length locked.queued % 2 ^ 32 ≡ length locked.queued = omega arith in
    (size ∙ ap length same, refl, λ e. omega arith)
