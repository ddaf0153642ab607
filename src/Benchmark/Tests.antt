-- ===== src/Benchmark/Tests.antt =====
-- The benchmark server with one call that it has answered.
use dousi.Prelude.{◌%◌, ◌^◌, ◌≡◌, refl, true, false, [], ◌∷◌, Bytes, codes, length}
use dousi.Prelude.Map.{lookup, insert}
use dousi.Msgpack.{plain, plain_string, cons, nil, pack_args_to_buffer}
use dousi.Traits.{with_names, invoke}
use dousi.Logging.{initial}
use dousi.Stream.Word.{little}
use dousi.Queue.Listed.{listed}
use dousi.Queue.LockFree.{new_queue}
use dousi.Executor.{
  Executor, new_executor, create_service, register_method, on_accept, invoke_method,
  perform_request, write_response, init, listening,
}
use dousi.Executor.Request.{default_options}
use dousi.Executor.IoPool.{new_pool, get_next_io_service}
use dousi.Executor.Threads.{
  System, Reach, here, next, accept, arrive, take, finish, fetch, emit, started,
}
use dousi.Executor.Threads.Answers.{IsQuiet}
use dousi.Rpc.{rpc_server, server_create_service}
use dousi.Endpoint.{endpoint, get_tcp_endpoint, any_address, v4}
use dousi.Examples.Sample.{spdlog}
use dousi.Benchmark.Qps.{Qps, new_qps, increase}
use dousi.Benchmark.Service.{register_benchmark, benchmark_main}
use dousi.Benchmark.Counts.{benchmark_main-counts}

abbrev server : Executor plain listed Qps
server = register_benchmark (record (new_executor default_options) {
  listening_addr = codes "127.0.0.1:10002";
  acceptor = listening (any_address v4 10002);
})

abbrev message : Bytes
message =
    pack_args_to_buffer plain (with_names plain (cons Bytes plain_string nil))
      (codes "BenchmarkService", (codes "Echo", (codes "hello world.", tt)))

abbrev Run : Type 0
Run = (s : System plain listed Qps) × Reach little (started server) s

abbrev answered : Run
unfolding on_accept get_next_io_service register_benchmark server_create_service register_method
    create_service new_executor new_pool lookup insert invoke_method pack_args_to_buffer new_queue
    perform_request invoke write_response new_qps increase
answered = (
  _,
  next
      (next
        (next
          (next (next (next here (accept false refl)) (arrive 0 5 message refl refl))
            (take 0 refl refl))
          (finish 0 refl refl))
        (fetch 2 refl refl))
      (emit 2 refl refl),
)

answered-IsQuiet : IsQuiet answered.0
unfolding answered
answered-IsQuiet = record {
  queues = record { no_requests = refl; no_responses = refl };
  workers = (refl, (refl, (refl, (refl, tt))));
  writers = (refl, (refl, (refl, (refl, (refl, (refl, (refl, (refl, tt))))))));
}

benchmark_main-counts_example :
    (q : Qps) × (answered.0.executor.objects ≡ q ∷ [])
    × (q.counter ≡ length answered.0.arrived % 2 ^ 32)
unfolding benchmark_main rpc_server init endpoint get_tcp_endpoint
benchmark_main-counts_example =
    benchmark_main-counts spdlog (λ port. true) initial little server answered.0 refl answered.1
      answered-IsQuiet
