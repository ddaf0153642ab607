-- ===== src/Executor/IoPool/RoundRobin.antt =====
-- The pool hands out its threads in turn.
use native.Mathlib.Nat.{mod-lt, mod-eq_of_lt, mod-add-mod}
use dousi.Prelude.{
  ℕ, zero, suc, ◌+◌, ◌%◌, ◌^◌, ◌<◌, ◌≡◌, refl, ap, sym, ◌∙◌, [], ◌∷◌, ◌++◌, some, get_elem?,
  get_elem?-append_left, get_elem?-append_length, length, length-append, arith, dec_lt,
}
use dousi.Executor.IoPool.{IoThreadPool, spawn, new_pool, get_next_io_service}

length-spawn : (n : ℕ) → length (spawn n) ≡ n
unfolding spawn
length-spawn zero = refl
length-spawn (suc n) = omega (arith, length-append (spawn n) (n ∷ []), length-spawn n)

get_elem?-spawn : (n i : ℕ) → i < n → get_elem? (spawn n) i ≡ some i
unfolding spawn
get_elem?-spawn zero i h = absurd (omega arith)
get_elem?-spawn (suc n) i h = elim (dec_lt i n) [
  | yes lt ↦ get_elem?-append_left (spawn n) (n ∷ []) i i (get_elem?-spawn n i lt)
  | no ge ↦ last (omega arith)
]
  where
    last : i ≡ n → get_elem? (spawn n ++ (n ∷ [])) i ≡ some i
    last e =
        ap (get_elem? (spawn n ++ (n ∷ []))) (e ∙ sym (length-spawn n))
        ∙ get_elem?-append_length (spawn n) n
        ∙ ap some (sym e)

-- The pool after k calls.
abbrev pub after_calls : ℕ → ℕ → IoThreadPool
after_calls pool_size k = record {
  pool_size = pool_size;
  next_index = k % pool_size;
  all_threads = spawn pool_size;
}

next_index : (n k : ℕ) → 0 < n → n < 2 ^ 16 → (k % n + 1) % 2 ^ 16 % n ≡ suc k % n
next_index n k pos small =
    let fits : k % n + 1 < 2 ^ 16 = omega (arith, mod-lt k pos) in
    ap (λ i. i % n) (mod-eq_of_lt fits) ∙ mod-add-mod k n 1 ∙ ap (λ i. i % n) (omega arith)

-- With at least one thread, the k-th call (from 0 on) returns thread k modulo the size of the pool.
pub get_next_io_service_lem :
    (n k : ℕ)
    → 0 < n
    → n < 2 ^ 16
    → (new_pool n ≡ after_calls n 0)
      × (get_next_io_service (after_calls n k) ≡ some (k % n, after_calls n (suc k)))
unfolding get_next_io_service new_pool
get_next_io_service_lem n k pos small = (
  ap (λ i. record { pool_size = n; next_index = i; all_threads = spawn n }) (omega arith),
  rw (get_elem?-spawn n (k % n) (omega arith), next_index n k pos small),
)
