-- ===== src/Examples/Server.antt =====
-- src/examples/server.cc.
use dousi.Prelude.{Bool, Option, some, codes, ◌>>=◌}
use dousi.Msgpack.{Codec, Msgpack}
use dousi.Endpoint.{TcpEndpoint}
use dousi.Logging.{Spdlog, Logging}
use dousi.Queue.LockFree.{LockFree}
use dousi.Executor.{Executor, register_method}
use dousi.Rpc.{rpc_server, server_create_service}
use dousi.Examples.Services.{Int32, add, sub, echo}

module _ {m : Msgpack} {l : LockFree} (int : Codec m.Object Int32) where
  -- The services and their methods.
  unfoldable pub register_services : Executor m l (Unit {0}) → Executor m l (Unit {0})
  register_services e =
      let (adder_service, e1) = server_create_service (codes "Adder") tt e in
      let e2 = register_method adder_service (add m int) e1 in
      let e3 = register_method adder_service (sub m int) e2 in
      let (echo_service, e4) = server_create_service (codes "Echoer") tt e3 in
      register_method echo_service (echo m) e4

  -- `main`, up to the call of `Loop`.
  unfoldable pub server_main :
      Spdlog → (TcpEndpoint → Bool) → Logging → Logging × Option (Executor m l (Unit {0}))
  unfolding register_services
  server_main spd binds log =
      let (log', made) = rpc_server spd binds (codes "127.0.0.1:10001") log in
      (log', do rpc_server ← made; some (register_services rpc_server))
