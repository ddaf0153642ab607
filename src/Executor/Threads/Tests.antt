-- ===== src/Executor/Threads/Tests.antt =====
-- One message through the threads: accepted, taken in, performed and answered.
use dousi.Prelude.{
  ◌++◌, Has, ℕ, ◌≢◌, [], ◌≤◌, ◌⊎◌, ◌≡◌, refl, false, ◌∷◌, some, List, All, codes, Bytes, arith,
}
use dousi.Prelude.Map.{lookup, insert, ℕ_eq}
use dousi.Msgpack.{plain, plain_string, cons, nil, pack_args_to_buffer}
use dousi.Traits.{with_names, invoke}
use dousi.Traits.Laws.{request_object}
use dousi.Stream.{AsioStream, write}
use dousi.Stream.Word.{little}
use dousi.Queue.Listed.{listed}
use dousi.Queue.LockFree.{new_queue}
use dousi.Executor.{
  ok, new_executor, create_service, register_method, on_accept, invoke_method, perform_request,
  write_response, call_method, call_bound,
}
use dousi.Executor.Sample.{service, server}
use dousi.Executor.IoPool.{new_pool, get_next_io_service}
use dousi.Executor.Request.{DousiRequest, DousiResponse}
use dousi.Executor.Threads.{
  System, accept, arrive, take, finish, fetch, emit, Reach, here, next, started,
}
use dousi.Executor.Threads.Keys.{Key, tally}
use dousi.Executor.Threads.Drain.{Stops, finishes, join}
use dousi.Executor.Threads.Invariant.{itself, request_key}
use dousi.Executor.Threads.Serial.{run_serial, response_to}
use dousi.Executor.Threads.Overtaking.{can_be_overtaken}
use dousi.Executor.Threads.Log.{IsSent, Holds, taken_in, emitted}
use dousi.Executor.Threads.Serializable.{serial_log, run_serial-Reach}
use dousi.Executor.Threads.RealTime.{real_time}
use dousi.Executor.Threads.Answers.{
  IsEmpty, IsQuiet, answered_at_most_once, all_answered, write_response_finds,
}

abbrev message : Bytes
message = pack_args_to_buffer plain (with_names plain nil) (service, (codes "Get", tt))

abbrev Run : Type 0
Run = (s : System plain listed Bytes) × Reach little (started server) s

-- A write thread holds the response.
abbrev half_way : Run
unfolding on_accept get_next_io_service register_method create_service new_executor new_pool lookup
    insert invoke_method pack_args_to_buffer new_queue perform_request invoke
half_way = (
  _,
  next
      (next
        (next (next (next here (accept false refl)) (arrive 0 5 message refl refl))
          (take 0 refl refl))
        (finish 0 refl refl))
      (fetch 2 refl refl),
)

-- And has written it.
abbrev answered : Run
unfolding half_way write_response
answered = (_, next half_way.1 (emit 2 refl refl))

server-IsEmpty : IsEmpty server
unfolding register_method create_service new_executor new_queue
server-IsEmpty = record { no_requests = refl; no_responses = refl }

answered-IsQuiet : IsQuiet answered.0
unfolding answered
answered-IsQuiet = record {
  queues = record { no_requests = refl; no_responses = refl };
  workers = (refl, (refl, (refl, (refl, tt))));
  writers = (refl, (refl, (refl, (refl, (refl, (refl, (refl, (refl, tt))))))));
}

answered_at_most_once_example :
    tally itself (0, 5) half_way.0.written ≤ tally itself (0, 5) half_way.0.arrived
answered_at_most_once_example =
    answered_at_most_once little server half_way.0 (0, 5) server-IsEmpty half_way.1

all_answered_example :
    tally itself (0, 5) answered.0.written ≡ tally itself (0, 5) answered.0.arrived
all_answered_example =
    all_answered little server answered.0 (0, 5) server-IsEmpty answered.1 answered-IsQuiet

-- The response carries the text that the object holds.
abbrev response : DousiResponse
response = record { object_id = 5; stream_id = 0; result = 1 ∷ codes "123" }

write_response_finds_example :
    (t : AsioStream) × (lookup 0 half_way.0.executor.streams ≡ some t)
    × (write_response little half_way.0.executor response
        ≡ ok (t, write little 5 (1 ∷ codes "123")))
unfolding half_way
write_response_finds_example =
    write_response_finds little server half_way.0 2 response server-IsEmpty half_way.1 refl

run_serial-Reach_example :
    (log : List (DousiRequest plain)) × (done : List DousiResponse) × (run_serial server log
        server.objects
      ≡ ok (done, half_way.0.executor.objects))
    × All (IsSent (taken_in half_way.1)) log
    × ((k : Key) → tally request_key k log ≤ tally itself k half_way.0.arrived)
    × All (Holds (λ r. Has r done)) half_way.0.writers
    × All (λ r. Has r done) (listed.contents half_way.0.executor.response_queue)
    × All (λ r. Has r done) (emitted half_way.1)
run_serial-Reach_example = run_serial-Reach little server half_way.0 server-IsEmpty half_way.1

-- The threads go on from where a write thread holds the response.
finishes_example :
    (t : System plain listed Bytes) × Reach little half_way.0 t
    × (t.arrived ≡ half_way.0.arrived)
    × (Stops t
        ⊎ (IsQuiet t × ((k : Key) → tally itself k t.written ≡ tally itself k half_way.0.arrived)))
unfolding register_method create_service new_executor
finishes_example = finishes little server half_way.0 server-IsEmpty (omega arith) half_way.1

-- src/tests/basic_call_test.cc calls Perform("456"), does not wait for it, and calls Get().
abbrev perform_message : Bytes
perform_message =
    pack_args_to_buffer plain (with_names plain (cons Bytes plain_string nil))
      (service, (codes "Perform", (codes "456", tt)))

abbrev both_queued : Run
unfolding on_accept get_next_io_service register_method create_service new_executor new_pool lookup
    insert invoke_method pack_args_to_buffer new_queue
both_queued = (
  _,
  next (next (next here (accept false refl)) (arrive 0 5 perform_message refl refl))
      (arrive 0 6 message refl refl),
)

abbrev perform_request_5 : DousiRequest plain
perform_request_5 = record {
  object_id = 5;
  stream_id = 0;
  unpacked =
      request_object plain service (codes "Perform") (cons Bytes plain_string nil)
        (codes "456", tt);
  method_name = codes "Perform";
}

abbrev get_request_6 : DousiRequest plain
get_request_6 = record {
  object_id = 6;
  stream_id = 0;
  unpacked = request_object plain service (codes "Get") nil tt;
  method_name = codes "Get";
}

one_and_zero_differ : ◌≢◌ {A = ℕ} 0 1
one_and_zero_differ h = omega (arith, h)

-- Get is answered with the text as it was before.
can_be_overtaken_example :
    (t : System plain listed Bytes) × Reach little both_queued.0 t
    × (t.executor.objects ≡ codes "456" ∷ [])
    × (listed.contents t.executor.request_queue ≡ [])
    × (listed.contents t.executor.response_queue
        ≡ response_to get_request_6 (1 ∷ codes "123") ∷ response_to perform_request_5 [] ∷ [])
unfolding both_queued register_method create_service new_executor new_queue lookup insert run_serial
    call_method call_bound invoke pack_args_to_buffer
can_be_overtaken_example =
    can_be_overtaken little both_queued.0 0 1 perform_request_5 (get_request_6 ∷ [])
      (response_to get_request_6 (1 ∷ codes "123") ∷ []) (codes "123" ∷ []) _ one_and_zero_differ
      refl refl refl refl refl

-- After Get is answered, Perform comes and is performed.
abbrev performed_later : (t : System plain listed Bytes) × Reach little answered.0 t
unfolding answered on_accept get_next_io_service register_method create_service new_executor
    new_pool lookup insert invoke_method pack_args_to_buffer new_queue perform_request invoke
    write_response
performed_later = (
  _,
  next (next (next here (arrive 0 6 perform_message refl refl)) (take 1 refl refl))
      (finish 1 refl refl),
)

real_time_example :
    let whole = join little answered.1 performed_later.1 in
    (later : List (DousiRequest plain)) × (done : List DousiResponse) × (all_done : List
      DousiResponse)
    × (serial_log server server-IsEmpty whole
        ≡ serial_log server server-IsEmpty answered.1 ++ later)
    × (run_serial server (serial_log server server-IsEmpty whole) server.objects
        ≡ ok (all_done, performed_later.0.executor.objects))
    × All (IsSent (taken_in whole)) (serial_log server server-IsEmpty whole)
    × ((k : Key)
        → tally request_key k (serial_log server server-IsEmpty whole)
          ≤ tally itself k performed_later.0.arrived)
    × All (λ r. Has r all_done) (emitted whole)
    × (run_serial server (serial_log server server-IsEmpty answered.1) server.objects
        ≡ ok (done, answered.0.executor.objects))
    × All (IsSent (taken_in answered.1)) (serial_log server server-IsEmpty answered.1)
    × All (λ r. Has r done) (emitted answered.1)
real_time_example =
    real_time little server answered.0 performed_later.0 server-IsEmpty answered.1 performed_later.1
