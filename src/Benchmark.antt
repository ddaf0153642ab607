-- ===== src/Benchmark.antt =====
-- src/benchmarks/single_node: the benchmark service with its counter of calls, and the server.
pub mod Qps
pub mod Service
pub mod Counts
mod Tests
