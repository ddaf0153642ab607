-- ===== src/Benchmark/Qps/Tests.antt =====
-- Two calls around a report, and a counter that is set back.
use dousi.Prelude.{◌≤◌, ◌≡◌, refl, false, [], ◌∷◌, arith}
use dousi.Benchmark.Qps.{
  Qps, asleep, new_qps, increase, report, wake, line, increases, reports, wakes, QpsRun, here, next,
  calls, printed,
}
use dousi.Benchmark.Qps.Exact.{IsExact, last_sum, printed-IsExact}
use dousi.Benchmark.Qps.Reset.{increase_times, set_back}

abbrev two_lines : (s : Qps) × QpsRun new_qps s
unfolding new_qps increase report wake
two_lines = (
  _,
  next (next (next (next (next here increases) (reports refl refl)) increases) (wakes refl))
      (reports refl refl),
)

printed_test : printed two_lines.1 ≡ record { qps = 1; sum = 2 } ∷ record { qps = 1; sum = 1 } ∷ []
unfolding two_lines printed line new_qps increase report wake
printed_test = refl

printed-IsExact_example :
    (two_lines.0.counter ≡ calls two_lines.1)
    × IsExact (printed two_lines.1)
    × (last_sum (printed two_lines.1) ≡ two_lines.0.last_counter)
    × (two_lines.0.last_counter ≤ calls two_lines.1)
unfolding two_lines calls
printed-IsExact_example = printed-IsExact two_lines.0 two_lines.1 (omega arith)

-- 100,000,001 calls were counted, and ten more while the thread slept.
abbrev late : Qps
late = record {
  stop_ = false;
  counter = 100000011;
  last_counter = 100000001;
  phase = asleep 100000001;
}

set_back_example :
    line (increase_times 3 (wake 100000001 late)) ≡ record { qps = 4194967298; sum = 3 }
set_back_example = set_back late 100000001 3 refl (omega arith) (omega arith) (omega arith)
