-- ===== src/Benchmark/Service.antt =====
-- src/benchmarks/single_node/benchmark_service.h and benchmark_server.cc. The object of the service is its counter.
-- The 10 ms that `SlowlyEcho` sleeps are left out, and a line that the counter's thread prints changes
-- nothing that a method reads.
use dousi.Prelude.{Bool, Option, some, Bytes, codes, ◌>>=◌}
use dousi.Msgpack.{cons, nil, Msgpack}
use dousi.Traits.{value, RemoteMethod}
use dousi.Endpoint.{TcpEndpoint}
use dousi.Logging.{Spdlog, Logging}
use dousi.Queue.LockFree.{LockFree}
use dousi.Executor.{Executor, register_method}
use dousi.Rpc.{rpc_server, server_create_service}
use dousi.Benchmark.Qps.{Qps, new_qps, increase}

module _ (m : Msgpack) where
  -- Remote(&BenchmarkService::Echo)
  abbrev pub echo : RemoteMethod m.Object Qps
  echo = record {
    method_name = codes "Echo";
    traits = record { return_type = value Bytes m.string; args = cons Bytes m.string nil };
    method = λ args qps_. (args.0, increase qps_);
  }

  -- Remote(&BenchmarkService::SlowlyEcho)
  abbrev pub slowly_echo : RemoteMethod m.Object Qps
  slowly_echo = record {
    method_name = codes "SlowlyEcho";
    traits = record { return_type = value Bytes m.string; args = cons Bytes m.string nil };
    method = λ args qps_. (args.0, increase qps_);
  }

module _ {m : Msgpack} {l : LockFree} where
  unfoldable pub register_benchmark : Executor m l Qps → Executor m l Qps
  register_benchmark e =
      let (bm_service, e') = server_create_service (codes "BenchmarkService") new_qps e in
      register_method bm_service (slowly_echo m) (register_method bm_service (echo m) e')

  -- `main` of benchmark_server.cc, up to the call of `Loop`.
  unfoldable pub benchmark_main :
      Spdlog → (TcpEndpoint → Bool) → Logging → Logging × Option (Executor m l Qps)
  unfolding register_benchmark
  benchmark_main spd binds log =
      let (log', made) = rpc_server spd binds (codes "127.0.0.1:10002") log in
      (log', do rpc_server ← made; some (register_benchmark rpc_server))
