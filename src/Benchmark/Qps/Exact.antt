-- ===== src/Benchmark/Qps/Exact.antt =====
-- What the lines of src/benchmarks/single_node/qps.h say while the counter is not set back.
use dousi.Prelude.{
  ℕ, ◌+◌, ◌-◌, ◌%◌, ◌*◌, ◌^◌, ◌≤◌, ◌<◌, ◌≡◌, refl, sym, ap, ◌∙◌, subst, List, [], ◌∷◌, ltb,
  if◌then◌else◌, arith,
}
use dousi.Benchmark.Qps.{
  Qps, Phase, at_test, asleep, ended, Line, new_qps, increase, report, wake, stop, line, increases,
  reports, wakes, stops, ends, QpsRun, here, next, calls, printed,
}

-- Each line gives the growth since the line before it, the first one since 0.
abbrev pub IsExact : List Line → Type 0
IsExact [] = Unit
IsExact (x ∷ []) = x.qps ≡ x.sum
IsExact (x ∷ (y ∷ ys)) = (x.sum ≡ y.sum + x.qps) × IsExact (y ∷ ys)

abbrev pub last_sum : List Line → ℕ
last_sum [] = 0
last_sum (x ∷ xs) = x.sum

-- The value that a sleeping thread has read is the one that it has stored.
abbrev HasRead : Phase → ℕ → Type 0
HasRead at_test last = Unit
HasRead (asleep read) last = read ≡ last
HasRead ended last = Unit

record Counts (n : ℕ) (lines : List Line) (s : Qps) : Type 0 where
  counted : s.counter ≡ n
  last : s.last_counter ≡ last_sum lines
  before : s.last_counter ≤ s.counter
  read : HasRead s.phase s.last_counter
  exact : IsExact lines

-- A line of the model after another is exact if its rate is.
IsExact-cons :
    (x : Line) (xs : List Line) → x.sum ≡ last_sum xs + x.qps → IsExact xs → IsExact (x ∷ xs)
IsExact-cons x [] h exact = omega (arith, h)
IsExact-cons x (y ∷ ys) h exact = (h, exact)

rate :
    (counter last : ℕ)
    → last ≤ counter
    → counter < 2 ^ 32
    → counter ≡ last + (counter + 2 ^ 32 - last) % 2 ^ 32
rate counter last before small = omega arith

keeps :
    (read counter : ℕ)
    → read ≤ 10000 * 10000
    → (if ltb (10000 * 10000) read then 0 else counter) ≡ counter
keeps read counter small = ground arith

QpsRun-Counts :
    {s : Qps} (run : QpsRun new_qps s)
    → calls run ≤ 10000 * 10000
    → Counts (calls run) (printed run) s
unfolding new_qps calls printed increase report wake stop line
QpsRun-Counts here few = record {
  counted = refl;
  last = refl;
  before = omega arith;
  read = tt;
  exact = tt;
}
QpsRun-Counts (next {t} run increases) few =
    let h = QpsRun-Counts run (omega (arith, few)) in
    record {
      counted = omega (arith, h.counted, few);
      last = h.last;
      before = omega (arith, h.counted, h.before, few);
      read = h.read;
      exact = h.exact;
    }
QpsRun-Counts (next {t} run (reports at going)) few =
    let h = QpsRun-Counts run few in
    record {
      counted = h.counted;
      last = refl;
      before = omega arith;
      read = refl;
      exact =
          IsExact-cons (line t) (printed run)
            (rate t.counter t.last_counter h.before (omega (arith, h.counted, few))
              ∙ ap (◌+ (t.counter + 2 ^ 32 - t.last_counter) % 2 ^ 32) h.last)
            h.exact;
    }
QpsRun-Counts (next {t} run (wakes {read} at)) few =
    let h = QpsRun-Counts run few in
    let same : read ≡ t.last_counter = subst (λ p. HasRead p t.last_counter) at h.read in
    let kept : (if ltb (10000 * 10000) read then 0 else t.counter) ≡ t.counter =
      keeps read t.counter (omega (arith, same, h.before, h.counted, few)) in
    record {
      counted = kept ∙ h.counted;
      last = h.last;
      before = omega (arith, kept, h.before);
      read = tt;
      exact = h.exact;
    }
QpsRun-Counts (next run stops) few =
    let h = QpsRun-Counts run few in
    record { counted = h.counted; last = h.last; before = h.before; read = h.read; exact = h.exact }
QpsRun-Counts (next run (ends at stopped)) few =
    let h = QpsRun-Counts run few in
    record { counted = h.counted; last = h.last; before = h.before; read = tt; exact = h.exact }

-- As long as `increase` was called 10 ^ 8 times at most, whatever the order of the calls, the reports and
-- the sleeps: the counter is the number of calls, each line that was printed says by how much the counter
-- has grown since the line before it, and the sum on the last line is what the thread keeps as its last
-- value, at most the number of calls.
pub printed-IsExact :
    (s : Qps) (run : QpsRun new_qps s)
    → calls run ≤ 10000 * 10000
    → (s.counter ≡ calls run)
      × IsExact (printed run)
      × (last_sum (printed run) ≡ s.last_counter)
      × (s.last_counter ≤ calls run)
printed-IsExact s run few =
    let h = QpsRun-Counts run few in
    (h.counted, h.exact, sym h.last, omega (arith, h.before, h.counted))
