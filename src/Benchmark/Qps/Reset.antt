-- ===== src/Benchmark/Qps/Reset.antt =====
-- What src/benchmarks/single_node/qps.h prints after it has set the counter back.
use dousi.Prelude.{ℕ, zero, suc, ◌+◌, ◌-◌, ◌%◌, ◌*◌, ◌^◌, ◌<◌, ◌≡◌, refl, ◌∙◌, arith}
use dousi.Benchmark.Qps.{Qps, increase, wake, line}

-- This many calls in a row.
abbrev pub increase_times : ℕ → Qps → Qps
increase_times zero s = s
increase_times (suc n) s = increase (increase_times n s)

increase_times_lem :
    (n : ℕ) (s : Qps)
    → s.counter + n < 2 ^ 32
    → ((increase_times n s).counter ≡ s.counter + n)
      × ((increase_times n s).last_counter ≡ s.last_counter)
unfolding increase
increase_times_lem zero s small = (omega arith, refl)
increase_times_lem (suc n) s small =
    let (counter, last) = increase_times_lem n s (omega (arith, small)) in
    (omega (arith, counter, small), last)

line-eq :
    (s : Qps) (n last : ℕ)
    → s.counter ≡ n
    → s.last_counter ≡ last
    → n < last
    → last < 2 ^ 32
    → line s ≡ record { qps = n + 2 ^ 32 - last; sum = n }
unfolding line
line-eq s n last counter last_ less small =
    let rate : (s.counter + 2 ^ 32 - s.last_counter) % 2 ^ 32 ≡ n + 2 ^ 32 - last =
      omega (arith, counter, last_, less, small) in
    λ i. record { qps = rate i; sum = counter i }

-- When the thread wakes up after it has printed a sum above 10 ^ 8, and `increase` is then called n times,
-- fewer than that sum, before the thread looks again: the next line counts neither the calls that were
-- made while the thread slept nor those before, and the rate that it gives is n + 2 ^ 32 less that sum, where n
-- calls were made.
pub set_back :
    (s : Qps) (read n : ℕ)
    → s.last_counter ≡ read
    → 10000 * 10000 < read
    → read < 2 ^ 32
    → n < read
    → line (increase_times n (wake read s)) ≡ record { qps = n + 2 ^ 32 - read; sum = n }
unfolding wake
set_back s read n same large small fewer =
    let set_to_0 : (wake read s).counter ≡ 0 = ground arith in
    let (counter, last) =
      increase_times_lem n (wake read s) (omega (arith, set_to_0, fewer, small)) in
    line-eq (increase_times n (wake read s)) n read (omega (arith, counter, set_to_0)) (last ∙ same)
      fewer small
