-- ===== src/Rpc.antt =====
-- src/dousi/rpc/rpc_server.h and rpc_client.h, and a whole call between the two. `main` of
-- src/examples/client.cc and server.cc goes through these.
pub mod ServerTurn
pub mod Exchange
pub mod Returns
pub mod Session
pub mod Concurrent
pub mod Startup
mod Tests
use dousi.Prelude.{ℕ, Bool, true, false, [], ◌∷◌, Option, none, some, Bytes, codes, ◌>>=◌}
use dousi.Msgpack.{Codec, Msgpack, Tuple}
use dousi.Traits.{RemoteMethod}
use dousi.Logging.{Spdlog, Logging, warning, start_dousi_log}
use dousi.Queue.LockFree.{LockFree}
use dousi.Stream.{Invocation, new_stream, start}
use dousi.Stream.Word.{ByteOrder}
use dousi.Stream.Transport.{AsyncRead}
use dousi.Stream.Loop.{serve}
use dousi.Endpoint.{TcpEndpoint}
use dousi.Executor.{
  Executor, Outcome, ok, fault, new_executor, init, shutdown, create_service, loop,
}
use dousi.Executor.Request.{default_options}
use dousi.Submitter
use dousi.Submitter.{Submitter, default_submitter}
use dousi.Submitter.Future.{get}
use dousi.Submitter.Handle.{ServiceHandle, FutureType, get_service, call}
use ServerTurn.{server_turn}

-- RpcServer: the log is started, and then the executor listens; `none` is an exception of `Init`.
module _ {m : Msgpack} {l : LockFree} {S : Type 0} where
  unfoldable pub rpc_server :
      Spdlog → (TcpEndpoint → Bool) → Bytes → Logging → Logging × Option (Executor m l S)
  rpc_server spd binds listening_address log = (
    start_dousi_log spd warning 10 3 log,
    init binds listening_address (new_executor default_options),
  )

  -- `RpcServer::CreateService<ServiceType>`, where the name is what NAMEOF_TYPE makes of the type.
  unfoldable pub server_create_service : Bytes → S → Executor m l S → ℕ × Executor m l S
  server_create_service nameof_type object e = create_service nameof_type object e

  -- `RpcServer::Loop`
  unfoldable pub server_loop : Executor m l S → Outcome (Executor m l S)
  server_loop e = loop e

  unfoldable pub end_rpc_server : Executor m l S → Executor m l S
  end_rpc_server e = shutdown e

-- RpcClient.
unfoldable pub rpc_client :
    Spdlog → (Bytes × Bytes → Bool) → Bytes → Logging → Logging × Option Submitter
rpc_client spd connects server_address log =
    (start_dousi_log spd warning 10 3 log, Submitter.init connects server_address default_submitter)

unfoldable pub client_get_service : Bytes → ServiceHandle
client_get_service service_name = get_service service_name

-- The end of a client's life, where `Shutdown` does nothing.
abbrev pub end_rpc_client : Submitter → Submitter
end_rpc_client s = Submitter.shutdown s
