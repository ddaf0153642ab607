-- ===== src/Jni/References/Tests.antt =====
-- Two Java clients of one process.
use dousi.Prelude.{◌≡◌, refl, true, [], ◌∷◌, none, some, Bytes, codes, leb, arith}
use dousi.Logging.{Spdlog, Logging, severity, debug, spd_warn, roll_size, start_dousi_log}
use dousi.Stream.{new_stream, start}
use dousi.Stream.Word.{little}
use dousi.Submitter.{Submitter, java, new_submitter, init}
use dousi.Endpoint.{endpoint}
use dousi.Jni.{native_new_rpc_client}
use dousi.Jni.Tests.{env, message}
use dousi.Jni.Arrays.{on_return_value_received}
use dousi.Jni.References.{
  Vm, Native, unloaded, jni_on_load, native_new, on_answer, native_destroy, client_at,
}
use dousi.Jni.References.Clients.{IsJava}
use dousi.Jni.References.Routing.{Used, loaded, made, on_answer-Used, native_destroy-on_answer}

abbrev spdlog : Spdlog
spdlog = record {
  rotating_logger = λ size files. true;
  format = λ file line text. text;
  should_log = λ logger message. leb (severity logger) (severity message);
  should_log_lem = λ logger message. refl;
}

-- A VM that ignores what is no reference. Object 1 is the class.
abbrev vm : Vm
vm = record {
  JavaString = Bytes;
  get_env = true;
  find_class = λ name. some 1;
  get_method_id = λ object name signature. some 77;
  get_string_utf_chars = λ text. text;
  delete_stray = λ stray references. some references;
}

abbrev after_load : Native Bytes
after_load = record unloaded {
  references = some 1 ∷ [];
  java_class = some 0;
  java_method = some 77;
}

abbrev client : Submitter
client = record (new_submitter java true) { stream = some (start (new_stream 0)) }

after_load-Used : Used env vm spdlog (λ query. true) little 77 none after_load
unfolding jni_on_load
after_load-Used = loaded refl refl

-- The log after `nativeNewRpcClient`.
abbrev logging : Logging
logging = record {
  severity_threshold = debug;
  logging_provider = some (record { level = spd_warn; max_size = roll_size 10; max_files = 3 });
  lines = [];
}

abbrev one_client : Native Bytes
one_client = record after_load {
  references = some 1 ∷ some 5 ∷ [];
  java_object = some 1;
  clients = some client ∷ [];
  logging = logging;
}

-- The clients of the objects 5 and 6.
abbrev two_clients : Native Bytes
two_clients = record after_load {
  references = some 1 ∷ some 5 ∷ some 6 ∷ [];
  java_object = some 2;
  clients = some client ∷ some client ∷ [];
  logging = logging;
}

two_clients-Used : Used env vm spdlog (λ query. true) little 77 (some 6) two_clients
unfolding native_new native_new_rpc_client init endpoint start_dousi_log
two_clients-Used =
    let one : Used env vm spdlog (λ query. true) little 77 (some 5) one_client =
      made after_load-Used 5 (codes "127.0.0.1:10001") 0 refl in
    made one 6 (codes "127.0.0.1:10001") 1 refl

-- The answer to a call of the first client goes to the object of the second.
on_answer-Used_example :
    (s' : Native Bytes) × (on_answer env 0 message two_clients ≡ some s')
    × (s'.received ≡ (6, on_return_value_received env message) ∷ [])
on_answer-Used_example =
    on_answer-Used env vm spdlog (λ query. true) little 77 0 message two_clients-Used (omega arith)

abbrev first_destroyed : Native Bytes
first_destroyed = record two_clients {
  references = none ∷ some 5 ∷ none ∷ [];
  clients = none ∷ some client ∷ [];
}

native_destroy-on_answer_example :
    ((c : Submitter) × (client_at 1 first_destroyed ≡ some c) × IsJava c)
    × (on_answer env 1 message first_destroyed ≡ none)
unfolding native_destroy
native_destroy-on_answer_example =
    native_destroy-on_answer env vm spdlog (λ query. true) little 77 0 1 message two_clients-Used
      refl (omega arith) (λ e. cc)
