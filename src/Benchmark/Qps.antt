-- ===== src/Benchmark/Qps.antt =====
-- src/benchmarks/single_node/qps.h: a counter that any thread increases, and a thread that prints each second
-- by how much it has grown. The steps are what lies between two accesses of the atomic counter.
pub mod Exact
pub mod Reset
mod Tests
use dousi.Prelude.{
  ℕ, ◌+◌, ◌-◌, ◌%◌, ◌*◌, ◌^◌, ◌≡◌, Bool, true, false, List, [], ◌∷◌, ltb, if◌then◌else◌,
}

-- Where the thread is: before the test of `stop_`, asleep with the value that it has read, or gone.
pub data Phase : Type 0 where
  at_test : Phase
  asleep : ℕ → Phase
  ended : Phase

pub record Qps : Type 0 where
  pub stop_ : Bool
  pub counter : ℕ  -- std::atomic<uint32_t>
  pub last_counter : ℕ  -- uint32_t
  pub phase : Phase

unfoldable pub new_qps : Qps
new_qps = record { stop_ = false; counter = 0; last_counter = 0; phase = at_test }

unfoldable pub increase : Qps → Qps
increase s = record s { counter = (s.counter + 1) % 2 ^ 32 }

-- What a line says: "Current qps is ..., sum = ...".
pub record Line : Type 0 where
  pub qps : ℕ
  pub sum : ℕ

-- The line for the value that was read; the difference is one of uint32_t.
unfoldable pub line : Qps → Line
line s = record { qps = (s.counter + 2 ^ 32 - s.last_counter) % 2 ^ 32; sum = s.counter }

unfoldable pub report : Qps → Qps
report s = record s { last_counter = s.counter; phase = asleep s.counter }

-- The end of a sleep, with the value that was read before it.
unfoldable pub wake : ℕ → Qps → Qps
wake read s = record s {
  counter = if ltb (10000 * 10000) read then 0 else s.counter;
  phase = at_test;
}

-- `~Qps`, up to the join.
unfoldable pub stop : Qps → Qps
stop s = record s { stop_ = true }

pub data QpsStep (s : Qps) : Qps → Type 0 where
  increases : QpsStep s (increase s)
  reports : s.phase ≡ at_test → s.stop_ ≡ false → QpsStep s (report s)
  wakes : {read : ℕ} → s.phase ≡ asleep read → QpsStep s (wake read s)
  stops : QpsStep s (stop s)
  ends : s.phase ≡ at_test → s.stop_ ≡ true → QpsStep s (record s { phase = ended })

pub data QpsRun (s : Qps) : Qps → Type 0 where
  here : QpsRun s s
  next : {t u : Qps} → QpsRun s t → QpsStep t u → QpsRun s u

-- How often `increase` was called.
unfoldable pub calls : {s t : Qps} → QpsRun s t → ℕ
calls here = 0
calls (next run increases) = 1 + calls run
calls (next run (reports h h')) = calls run
calls (next run (wakes h)) = calls run
calls (next run stops) = calls run
calls (next run (ends h h')) = calls run

-- The lines that were printed, the last one first.
unfoldable pub printed : {s t : Qps} → QpsRun s t → List Line
printed here = []
printed (next {t} run (reports h h')) = line t ∷ printed run
printed (next run increases) = printed run
printed (next run (wakes h)) = printed run
printed (next run stops) = printed run
printed (next run (ends h h')) = printed run
