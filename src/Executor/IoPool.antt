-- ===== src/Executor/IoPool.antt =====
-- src/dousi/core/executor/io_thread_pool.h. An entry of `all_threads_` stands for the thread, its
-- io_service and the work object that keeps it running; it is known by its number.
pub mod RoundRobin
use dousi.Prelude.{
  ℕ, zero, suc, ◌+◌, ◌%◌, ◌^◌, List, [], ◌∷◌, ◌++◌, Option, none, some, get_elem?, ◌>>=◌,
}

pub record IoThreadPool : Type 0 where
  pub pool_size : ℕ  -- uint16_t
  pub next_index : ℕ  -- uint16_t
  pub all_threads : List ℕ

-- The loop of the constructor.
pub spawn : ℕ → List ℕ
spawn zero = []
spawn (suc n) = spawn n ++ (n ∷ [])

unfoldable pub new_pool : ℕ → IoThreadPool
unfolding spawn
new_pool pool_size = record { pool_size = pool_size; next_index = 0; all_threads = spawn pool_size }

-- `GetNextIOService`. `none`: an access past the end of the vector, which is undefined.
unfoldable pub get_next_io_service : IoThreadPool → Option (ℕ × IoThreadPool)
get_next_io_service p = do
  ret ← get_elem? p.all_threads p.next_index
  some (ret, record p { next_index = (p.next_index + 1) % 2 ^ 16 % p.pool_size })
