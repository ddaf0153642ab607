-- ===== src/Executor/Tests.antt =====
-- The executor at the VoidReturnService of Executor/Sample.
use dousi.Prelude.{ℕ, ◌≡◌, refl, [], ◌∷◌, ◌++◌, some, none, codes, arith, ◌==◌}
use dousi.Prelude.Map.{lookup, ℕ_eq, Bytes_eq}
use dousi.Msgpack.{plain, nil, pack_args_to_buffer}
use dousi.Traits.{with_names, serialize_result}
use dousi.Stream.{new_stream, start}
use dousi.Queue.Listed.{listed}
use dousi.Queue.LockFree.{push}
use dousi.Executor.{
  init, listening, ok, fault, dangling_service, new_executor, create_service, register_method,
  destroy_service, add_stream, perform_request, invoke_method,
}
use dousi.Executor.Sample.{perform, get, service, bare, server}
use dousi.Executor.IoPool.{new_pool, get_next_io_service}
use dousi.Executor.IoPool.RoundRobin.{after_calls, get_next_io_service_lem}
use dousi.Executor.Dispatch.{
  request_for, perform_request-register_method, perform_request-destroy_service,
  invoke_method-pack_args_to_buffer,
}
use dousi.Executor.Listening.{init-to_string}
use dousi.Endpoint.{any_address, v4}
use dousi.Endpoint.Text.{to_string}
use dousi.Executor.Streams.{IsNumbered, add_stream-IsNumbered}

-- A request that names another service all the same reaches the method.
perform_request-register_method_example :
    perform_request
      (register_method 0 perform bare)
      (request_for 5 7 (codes "Another") perform (codes "456", tt))
    ≡ ok (record (register_method 0 perform bare) {
      objects = codes "456" ∷ [];
      response_queue =
          push listed (record { object_id = 5; stream_id = 7; result = [] }) bare.response_queue;
    })
unfolding create_service new_executor serialize_result
perform_request-register_method_example =
    perform_request-register_method bare 0 0 perform (codes "123") 5 7 (codes "Another")
      (codes "456", tt) refl refl

perform_request-destroy_service_test :
    perform_request
      (destroy_service 0 (register_method 0 get bare))
      (request_for 5 7 service get tt)
    ≡ fault dangling_service
unfolding create_service new_executor
perform_request-destroy_service_test =
    perform_request-destroy_service bare 0 (some 0) get (request_for 5 7 service get tt) refl refl

invoke_method-pack_args_to_buffer_test :
    invoke_method bare 7 5
      (pack_args_to_buffer plain (with_names plain nil) (service, (codes "Get", tt)))
    ≡ ok (record bare {
      request_queue = push listed (request_for 5 7 service get tt) bare.request_queue;
    })
unfolding create_service new_executor
invoke_method-pack_args_to_buffer_test =
    invoke_method-pack_args_to_buffer bare 7 5 service (codes "Get") nil tt

add_stream-IsNumbered_example :
    (lookup 0 server.streams ≡ none)
    × (lookup 0 (add_stream server).streams ≡ some (start (new_stream 0)))
    × ((k : ℕ)
        → ¬ (◌≡◌ {A = ℕ} 0 k)
        → lookup k (add_stream server).streams ≡ lookup k server.streams)
    × IsNumbered (add_stream server)
unfolding register_method create_service new_executor
add_stream-IsNumbered_example = add_stream-IsNumbered server tt (omega arith)

get_next_io_service_lem_test :
    (new_pool 8 ≡ after_calls 8 0)
    × (get_next_io_service (after_calls 8 11) ≡ some (3, after_calls 8 12))
get_next_io_service_lem_test = get_next_io_service_lem 8 11 (omega arith) (omega arith)

-- A port that no uint16_t holds, on one that is free.
init-to_string_example :
    let text = codes "10.0.0.1" ++ (b':' ∷ to_string 75538) in
    init {m = plain} {l = listed} (λ at. at.port == 10002) text bare
    ≡ some (record bare { listening_addr = text; acceptor = listening (any_address v4 10002) })
init-to_string_example =
    init-to_string (λ at. at.port == 10002) (codes "10.0.0.1") 75538 bare (ground arith)
      (omega arith)
