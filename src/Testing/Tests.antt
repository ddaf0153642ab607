-- ===== src/Testing/Tests.antt =====
-- The server of the tests with one request under way.
use dousi.Prelude.{◌≡◌, refl, false, [], ◌∷◌, Option, none, some, Bytes, codes, ◌>>=◌}
use dousi.Prelude.Map.{lookup, insert}
use dousi.Msgpack.{Codec, plain, nil, pack_args_to_buffer}
use dousi.Traits.{with_names}
use dousi.Stream.Word.{little}
use dousi.Queue.Listed.{listed}
use dousi.Queue.LockFree.{new_queue}
use dousi.Executor.{
  Executor, new_executor, create_service, register_method, destroy_service, on_accept,
  invoke_method, listening,
}
use dousi.Executor.Request.{default_options}
use dousi.Executor.IoPool.{new_pool, get_next_io_service}
use dousi.Executor.Threads.{System, Reach, here, next, accept, arrive, take, started}
use dousi.Rpc.{server_create_service}
use dousi.Endpoint.{any_address, v4}
use dousi.Examples.Sample.{int}
use dousi.Testing.Services.{TestObject, Person}
use dousi.Testing.Server.{register_all, in_block, register_blocks}

-- A person as its age and then its name.
abbrev decode_person : Bytes → Option Person
decode_person [] = none
decode_person (n ∷ name) = do age ← int.decode (n ∷ []); some (record { name = name; age = age })

decode_person-encode : (x : Person) → decode_person (x.age.0 ∷ x.name) ≡ some x
decode_person-encode x = rw (int.decode-encode x.age) refl

abbrev person : Codec Bytes Person
person = record {
  encode = λ x. x.age.0 ∷ x.name;
  decode = decode_person;
  decode-encode = decode_person-encode;
}

abbrev server : Executor plain listed TestObject
server = register_blocks int person (record (new_executor default_options) {
  listening_addr = codes "127.0.0.1:10002";
  acceptor = listening (any_address v4 10002);
})

abbrev message : Bytes
message =
    pack_args_to_buffer plain (with_names plain nil) (codes "VoidReturnService", (codes "Get", tt))

abbrev Run : Type 0
Run = (s : System plain listed TestObject) × Reach little (started server) s

-- A work thread holds the request.
abbrev asked : Run
unfolding on_accept get_next_io_service register_blocks in_block register_all server_create_service
    destroy_service register_method create_service new_executor new_pool lookup insert invoke_method
    pack_args_to_buffer new_queue
asked = (
  _,
  next (next (next here (accept false refl)) (arrive 0 5 message refl refl)) (take 0 refl refl),
)
