-- ===== src/Examples/Tests.antt =====
-- src/examples/client.cc with its own numbers and text.
use dousi.Prelude.{ℕ, ◌^◌, ◌<◌, ◌≡◌, refl, true, false, some, codes, arith}
use dousi.Msgpack.{plain, pack_args_to_buffer}
use dousi.Logging.{initial}
use dousi.Stream.{new_stream, start}
use dousi.Stream.Word.{little}
use dousi.Stream.Transport.{closing}
use dousi.Queue.Listed.{listed}
use dousi.Executor.{Executor, ok, and_then, on_accept}
use dousi.Submitter.{Submitter, default_submitter}
use dousi.Rpc.{server_loop}
use dousi.Rpc.Exchange.{IsReady}
use dousi.Rpc.Session.{run_remote}
use dousi.Prelude.Map.{lookup, ℕ_eq}
use dousi.Examples.Services.{Int32, add_int, sub_int}
use dousi.Examples.Sample.{int, spdlog}
use dousi.Examples.Server.{server_main}
use dousi.Examples.Client.{client_calls, run_remote-server_main}

abbrev client : Submitter
client = record default_submitter { stream = some (start (new_stream 0)) }

client-IsReady : IsReady client
unfolding lookup
client-IsReady = record {
  connected = (start (new_stream 0), refl);
  language = refl;
  few_calls = omega arith;
  unanswered = λ k later. refl;
}

abbrev int32 : (n : ℕ) → n < 2 ^ 32 → Int32
int32 n small = (n, small)

run_remote-server_main_example :
    let two = int32 2 (omega arith) in
    let three = int32 3 (omega arith) in
    let hundred = int32 100 (omega arith) in
    let twenty_five = int32 25 (omega arith) in
    let text = codes "hello world!" in
    (e e' e'' : Executor plain listed (Unit {0})) × (s' : Submitter) × ((server_main int spdlog
        (λ port. true)
        initial).1
      ≡ some e)
    × (and_then (server_loop e) (on_accept false) ≡ ok e')
    × (run_remote closing little plain 0
          (client_calls plain int two three hundred twenty_five text)
          client
          e'
        ≡ some ((add_int two three, (sub_int hundred twenty_five, (text, tt))), s', e''))
unfolding pack_args_to_buffer
run_remote-server_main_example =
    run_remote-server_main closing little plain listed int spdlog (λ port. true) initial client
      (int32 2 (omega arith)) (int32 3 (omega arith)) (int32 100 (omega arith))
      (int32 25 (omega arith)) (codes "hello world!") refl client-IsReady (omega arith)
      (λ object held. (
        (omega arith, omega arith),
        λ object held.
            ((omega arith, omega arith), λ object held. ((omega arith, omega arith), tt)),
      ))
