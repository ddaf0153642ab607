-- ===== src/Rpc/Concurrent/Tests.antt =====
-- Two calls of one client that overtake each other at the server of Executor/Sample.
use dousi.Prelude.{
  ◌≡◌, refl, true, false, inl, inr, List, [], ◌∷◌, ◌++◌, some, codes, Bytes, get_elem?, arith,
}
use dousi.Prelude.Map.{lookup, insert, ℕ_eq, Bytes_eq}
use dousi.Msgpack.{plain, plain_string, nil, cons, pack_args_to_buffer}
use dousi.Traits.{with_names, invoke}
use dousi.Stream.{new_stream, start}
use dousi.Stream.Word.{little}
use dousi.Stream.Transport.{closing}
use dousi.Stream.Loop.{serve}
use dousi.Stream.Loop.RoundTrip.{rounds}
use dousi.Queue.Listed.{listed}
use dousi.Queue.LockFree.{new_queue}
use dousi.Executor.{
  ok, new_executor, create_service, register_method, on_accept, invoke_method, perform_request,
  write_response,
}
use dousi.Executor.Sample.{service, server}
use dousi.Executor.Dispatch.{request_for}
use dousi.Traits.{value}
use dousi.Executor.IoPool.{new_pool, get_next_io_service}
use dousi.Executor.Request.{DousiRequest, DousiResponse}
use dousi.Executor.Threads.{
  System, accept, arrive, take, finish, fetch, emit, Reach, here, next, started,
}
use dousi.Executor.Threads.Keys.{tally}
use dousi.Executor.Threads.Answers.{IsEmpty, IsQuiet}
use dousi.Executor.Threads.Serial.{run_serial}
use dousi.Executor.Threads.Log.{taken_in, emitted}
use dousi.Executor.Threads.Serializable.{serial_log}
use dousi.Executor.Threads.Emitted.{answers_to, wire_to}
use dousi.Submitter.{Submitter, default_submitter}
use dousi.Submitter.Future.{new_future, get}
use dousi.Rpc.Concurrent.Get.{get-serial_log}

abbrev get_call : Bytes
get_call = pack_args_to_buffer plain (with_names plain nil) (service, (codes "Get", tt))

abbrev perform_call : Bytes
perform_call =
    pack_args_to_buffer plain (with_names plain (cons Bytes plain_string nil))
      (service, (codes "Perform", (codes "456", tt)))

abbrev Run : Type 0
Run = (s : System plain listed Bytes) × Reach little (started server) s

-- The call of Get, whose id is 5, arrives first, is performed last and is answered first.
abbrev overtaken : Run
unfolding on_accept get_next_io_service register_method create_service new_executor new_pool lookup
    insert invoke_method pack_args_to_buffer new_queue perform_request invoke write_response
overtaken =
    let taken =
      next
        (next
          (next (next (next here (accept false refl)) (arrive 0 5 get_call refl refl))
            (arrive 0 6 perform_call refl refl))
          (take 0 refl refl))
        (take 1 refl refl) in
    let finished = next (next taken (finish 1 refl refl)) (finish 0 refl refl) in
    let fetched = next (next finished (fetch 0 refl refl)) (fetch 1 refl refl) in
    (_, next (next fetched (emit 1 refl refl)) (emit 0 refl refl))

server-IsEmpty : IsEmpty server
unfolding register_method create_service new_executor new_queue
server-IsEmpty = record { no_requests = refl; no_responses = refl }

overtaken-IsQuiet : IsQuiet overtaken.0
unfolding overtaken
overtaken-IsQuiet = record {
  queues = record { no_requests = refl; no_responses = refl };
  workers = (refl, (refl, (refl, (refl, tt))));
  writers = (refl, (refl, (refl, (refl, (refl, (refl, (refl, (refl, tt))))))));
}

-- What went to the client: the answer 456 to the call 5, and the empty one to the call 6.
wire_to_test : answers_to 0 (emitted overtaken.1) ≡ (5, 1 ∷ codes "456") ∷ (6, []) ∷ []
unfolding overtaken answers_to emitted
wire_to_test = refl

abbrev client : Submitter
client = record default_submitter { stream = some (start (new_stream 0)); curr_object_id = 7 }

get-serial_log_example :
    (before : List (DousiRequest plain)) × (after : List (DousiRequest plain)) × (object : Bytes)
    × (objects : List Bytes) × (done : List DousiResponse) × (all_done : List DousiResponse)
    × (client' : Submitter) × (serial_log server server-IsEmpty overtaken.1
        ≡ before
          ++ request_for 5 0 service
              (record {
                method_name = codes "Get";
                traits = record { return_type = value Bytes plain_string; args = nil };
                method = λ args object. (object, object);
              })
              tt
            ∷ after)
    × (run_serial server (serial_log server server-IsEmpty overtaken.1) server.objects
        ≡ ok (all_done, overtaken.0.executor.objects))
    × (run_serial server before server.objects ≡ ok (done, objects))
    × (get_elem? objects 0 ≡ some object)
    × (get plain plain_string (new_future 5) client (
          (serve closing little
            (rounds (answers_to 0 (emitted overtaken.1)) 1)
            (start (new_stream 0))
            (wire_to 0 overtaken.1)).calls
          ∷ [])
        ≡ some (record {
          pointer = some object;
          future = record { has_data = true; data_ptr = some object; object_id = 5 };
          submitter = client';
        }))
unfolding overtaken taken_in emitted answers_to tally lookup insert register_method create_service
    new_executor
get-serial_log_example =
    get-serial_log server server-IsEmpty overtaken.1 closing client (new_stream 0) 0 5 0 0 service
      (codes "Get") Bytes plain_string nil (λ args object. (object, object)) tt overtaken-IsQuiet
      refl refl refl (inr (inl refl)) (omega arith, (omega arith, tt))
      (omega arith, (omega arith, tt)) refl refl
