-- ===== src/Rpc/Tests.antt =====
-- A client and the server of Executor/Sample, with one connection.
use dousi.Prelude.{
  zero, suc, ◌≡◌, refl, Bool, true, false, if◌then◌else◌, [], ◌∷◌, ◌++◌, leb, Option, some, none,
  codes, Bytes, set, arith,
}
use dousi.Prelude.Map.{lookup, insert, ℕ_eq, Bytes_eq}
use dousi.Msgpack.{Codec, plain, plain_string, cons, nil, pack_args_to_buffer}
use dousi.Traits.{with_names, serialize_result}
use dousi.Stream.{Invocation, new_stream, start, write}
use dousi.Stream.Word.{little}
use dousi.Stream.Transport.{closing}
use dousi.Queue.Listed.{listed}
use dousi.Queue.LockFree.{new_queue}
use dousi.Executor.{
  Executor, ok, fault, bad_function_call, register_method, create_service, new_executor, add_stream,
}
use dousi.Executor.Sample.{perform, get, service, bare}
use dousi.Executor.Threads.Answers.{IsEmpty}
use dousi.Submitter.{Submitter, default_submitter, get_bytes}
use dousi.Submitter.Future
use dousi.Submitter.Future.{decode_object}
use dousi.Submitter.Handle.{Called, call, get_service}
use dousi.Rpc.ServerTurn.{server_turn, server_turn_lem, server_turn_unknown}
use dousi.Rpc.Exchange.{IsReady, IsServing, answered, round_trip, called_once, read_one}
use dousi.Rpc.{rpc_client}
use dousi.Rpc.Startup.{rpc_client-IsReady}
use dousi.Logging.{Spdlog, severity, initial}
use dousi.Endpoint.Text.{to_string}
use dousi.Rpc.Returns.{call_returns, void_call_throws}

abbrev pub client : Submitter
client = record default_submitter { stream = some (start (new_stream 0)) }

pub client-IsReady : IsReady client
unfolding lookup
client-IsReady = record {
  connected = (start (new_stream 0), refl);
  language = refl;
  few_calls = omega arith;
  unanswered = λ k later. refl;
}

-- With one connection, whose stream has number 0.
abbrev pub connected : Executor plain listed Bytes
connected = add_stream bare

connected-IsServing : IsServing connected 0 0 (codes "123") 0
unfolding create_service new_executor add_stream lookup insert new_queue
connected-IsServing = record {
  live = refl;
  object_held = refl;
  nothing_queued = record { no_requests = refl; no_responses = refl };
  threads = refl;
  stream = (start (new_stream 0), refl);
}

abbrev decode_flag : Bytes → Option Bool
decode_flag (zero ∷ []) = some false
decode_flag (suc zero ∷ []) = some true
decode_flag _ = none

decode_flag-encode : (b : Bool) → decode_flag (if b then 1 ∷ [] else 0 ∷ []) ≡ some b
decode_flag-encode true = refl
decode_flag-encode false = refl

abbrev flag : Codec Bytes Bool
flag = record {
  encode = λ b. if b then 1 ∷ [] else 0 ∷ [];
  decode = decode_flag;
  decode-encode = decode_flag-encode;
}

call_returns_test :
    (e : Executor plain listed Bytes) × (round_trip closing little plain client
        (get_service service)
        get
        nil
        tt
        plain_string
        0
        (register_method 0 get connected)
      ≡ some (some (codes "123"), answered client (1 ∷ codes "123"), e))
    × (e.objects ≡ set connected.objects 0 (codes "123"))
    × IsEmpty e
unfolding pack_args_to_buffer
call_returns_test =
    call_returns closing little plain client service (codes "Get") Bytes plain_string nil
      (λ args object. (object, object)) tt connected 0 0 (codes "123") 0 client-IsReady
      connected-IsServing (omega arith) (omega arith)

abbrev packed_perform : Bytes
packed_perform =
    pack_args_to_buffer plain (with_names plain (cons Bytes plain_string nil))
      (service, (codes "Perform", (codes "456", tt)))

abbrev perform_called : Called Bool
perform_called = called_once little client packed_perform

abbrev perform_answer : Invocation
perform_answer = record { stream_id = 0; object_id = 0; body = [] }

void_call_throws_example :
    let request : Invocation = record { stream_id = 0; object_id = 0; body = packed_perform } in
    (call plain little client
        (get_service service)
        perform
        (cons Bytes plain_string nil)
        (codes "456", tt)
      ≡ some perform_called)
    × (read_one closing little 0 perform_called.wire ≡ some request)
    × ((e : Executor plain listed Bytes) × (server_turn little
            (register_method 0 perform connected)
            request
          ≡ ok (e, write little 0 []))
        × (e.objects ≡ set connected.objects 0 (codes "456")))
    × (read_one closing little 0 (write little 0 []) ≡ some perform_answer)
    × (get_bytes perform_called.submitter 0 ((perform_answer ∷ []) ∷ [])
        ≡ some ([], answered client []))
    × (decode_object plain flag [] ≡ none)
    × (Future.get plain flag perform_called.future perform_called.submitter
          ((perform_answer ∷ []) ∷ [])
        ≡ none)
unfolding pack_args_to_buffer
void_call_throws_example =
    void_call_throws closing little plain client service (codes "Perform") flag
      (cons Bytes plain_string nil) (λ args object. (tt, args.0)) (codes "456", tt) connected 0 0
      (codes "123") 0 [] client-IsReady connected-IsServing (omega arith)

server_turn_lem_test :
    (e : Executor plain listed Bytes) × (server_turn little
        (register_method 0 get connected)
        (record {
          stream_id = 0;
          object_id = 9;
          body = pack_args_to_buffer plain (with_names plain nil) (service, (codes "Get", tt));
        })
      ≡ ok (e, write little 9 (1 ∷ codes "123")))
    × (e.objects ≡ set connected.objects 0 (codes "123"))
    × IsEmpty e
unfolding serialize_result
server_turn_lem_test =
    server_turn_lem little connected 0 0 get (codes "123") 9 0 service tt connected-IsServing.live
      connected-IsServing.object_held connected-IsServing.nothing_queued connected-IsServing.threads
      connected-IsServing.stream.1

abbrev spdlog : Spdlog
spdlog = record {
  rotating_logger = λ size files. true;
  format = λ file line text. text;
  should_log = λ logger message. leb (severity logger) (severity message);
  should_log_lem = λ logger message. refl;
}

rpc_client-IsReady_test :
    (s : Submitter) × ((rpc_client spdlog
        (λ query. true)
        (codes "127.0.0.1" ++ (b':' ∷ to_string 10001))
        initial).1
      ≡ some s)
    × IsReady s
rpc_client-IsReady_test =
    rpc_client-IsReady spdlog (λ query. true) (codes "127.0.0.1") 10001 initial (ground arith)
      (omega arith) refl

server_turn_unknown_example :
    server_turn little (register_method 0 get connected) (record {
      stream_id = 0;
      object_id = 9;
      body = pack_args_to_buffer plain (with_names plain nil) (service, (codes "Got", tt));
    })
    ≡ fault bad_function_call
unfolding register_method create_service new_executor add_stream lookup new_queue insert
server_turn_unknown_example =
    server_turn_unknown little (register_method 0 get connected) 9 0 service (codes "Got") nil tt
      (record { no_requests = refl; no_responses = refl }) refl
