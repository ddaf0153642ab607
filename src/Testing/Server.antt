-- ===== src/Testing/Server.antt =====
-- src/tests/test_utils/basic_server_for_test.cc. Each block of `main` ends the life of the `DousiService` that it
-- has made.
use dousi.Prelude.{ℕ, Bool, List, [], ◌∷◌, Option, some, Bytes, codes, ◌>>=◌}
use dousi.Msgpack.{Codec, Msgpack}
use dousi.Traits.{RemoteMethod}
use dousi.Endpoint.{TcpEndpoint}
use dousi.Logging.{Spdlog, Logging}
use dousi.Queue.LockFree.{LockFree}
use dousi.Executor.{Executor, register_method, destroy_service}
use dousi.Rpc.{rpc_server, server_create_service}
use dousi.Examples.Services.{Int32}
use dousi.Testing.Services.{
  TestObject, echoer, calculator, user_defined_class, void_return_service, Person, echo, perform,
  get, add, sub, incr_age_method,
}

module _ {m : Msgpack} {l : LockFree} {S : Type 0} where
  unfoldable pub register_all : ℕ → List (RemoteMethod m.Object S) → Executor m l S → Executor m l S
  register_all address [] e = e
  register_all address (rm ∷ rms) e = register_all address rms (register_method address rm e)

  -- `{ auto service = rpc_server.CreateService<S>(); service.RegisterMethod(...); ... }`
  unfoldable pub in_block :
      Bytes → S → List (RemoteMethod m.Object S) → Executor m l S → Executor m l S
  unfolding register_all
  in_block service_name object rms e =
      let (service, e') = server_create_service service_name object e in
      destroy_service service (register_all service rms e')

module _ {m : Msgpack} {l : LockFree} (int : Codec m.Object Int32)
    (person : Codec m.Object Person) where
  unfoldable pub register_blocks : Executor m l TestObject → Executor m l TestObject
  unfolding in_block
  register_blocks e =
      let e1 = in_block (codes "Echoer") echoer (echo m ∷ []) e in
      let e2 = in_block (codes "Calculator") calculator (add m int ∷ sub m int ∷ []) e1 in
      let e3 =
        in_block (codes "UserDefinedClass") user_defined_class (incr_age_method m int person ∷ [])
          e2 in
      in_block (codes "VoidReturnService") (void_return_service (codes "123"))
        (perform m ∷ get m ∷ []) e3

  -- `main`, up to the call of `Loop`.
  unfoldable pub test_main :
      Spdlog → (TcpEndpoint → Bool) → Logging → Logging × Option (Executor m l TestObject)
  unfolding register_blocks
  test_main spd binds log =
      let (log', made) = rpc_server spd binds (codes "127.0.0.1:10002") log in
      (log', do rpc_server ← made; some (register_blocks rpc_server))
