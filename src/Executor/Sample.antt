-- ===== src/Executor/Sample.antt =====
-- A server for tests: the VoidReturnService of src/tests/test_utils/basic_services.h, whose object is the
-- text that it holds, with both of its methods registered.
use dousi.Prelude.{Bytes, codes}
use dousi.Msgpack.{nil, cons, plain, plain_string}
use dousi.Traits.{void, value, RemoteMethod}
use dousi.Queue.Listed.{listed}
use dousi.Executor.{Executor, new_executor, create_service, register_method}
use dousi.Executor.Request.{default_options}

-- `void Perform(const std::string &str) { data_ = str; }`
abbrev pub perform : RemoteMethod Bytes Bytes
perform = record {
  method_name = codes "Perform";
  traits = record { return_type = void; args = cons Bytes plain_string nil };
  method = λ args object. (tt, args.0);
}

-- `std::string Get() { return data_; }`
abbrev pub get : RemoteMethod Bytes Bytes
get = record {
  method_name = codes "Get";
  traits = record { return_type = value Bytes plain_string; args = nil };
  method = λ args object. (object, object);
}

abbrev pub service : Bytes
service = codes "VoidReturnService"

abbrev pub bare : Executor plain listed Bytes
bare = (create_service service (codes "123") (new_executor default_options)).1

abbrev pub server : Executor plain listed Bytes
server = register_method 0 get (register_method 0 perform bare)
