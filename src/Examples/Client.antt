-- ===== src/Examples/Client.antt =====
-- src/examples/client.cc against src/examples/server.cc.
use dousi.Prelude.{
  ◌+◌, ◌^◌, ◌<◌, ◌≡◌, refl, All, Bool, true, false, List, [], ◌∷◌, some, Bytes, codes,
}
use dousi.Prelude.Map.{lookup, insert, ℕ_eq, Bytes_eq}
use dousi.Msgpack.{Codec, cons, nil, Msgpack}
use dousi.Endpoint.{TcpEndpoint, endpoint, get_tcp_endpoint, any_address, v4}
use dousi.Logging.{Spdlog, Logging}
use dousi.Stream.{new_stream, start}
use dousi.Stream.Word.{ByteOrder}
use dousi.Stream.Transport.{AsyncRead}
use dousi.Queue.LockFree.{LockFree, new_queue}
use dousi.Executor.{
  Executor, ok, and_then, init, new_executor, create_service, register_method, do_accept,
  add_stream, on_accept, listening,
}
use dousi.Executor.Request.{default_options}
use dousi.Executor.IoPool.{new_pool, get_next_io_service}
use dousi.Submitter.{Submitter}
use dousi.Rpc.{rpc_server, server_create_service, server_loop}
use dousi.Rpc.Exchange.{IsReady}
use dousi.Rpc.Session.{
  MethodCall, FitAll, IsOpen, IsOffered, run_local, run_remote, run_remote-run_local,
}
use dousi.Examples.Services.{Int32, add_int, sub_int}
use dousi.Examples.Server.{register_services, server_main}

-- The calls of `main`, with any arguments.
abbrev pub client_calls :
    (m : Msgpack)
    → Codec m.Object Int32
    → Int32
    → Int32
    → Int32
    → Int32
    → Bytes
    → List (MethodCall m.Object (Unit {0}))
client_calls m int a b u v text =
    record {
      service_name = codes "Adder";
      method_name = codes "add";
      Returned = Int32;
      codec = int;
      types = cons Int32 int (cons Int32 int nil);
      method = λ args object. (add_int args.0 args.1.0, object);
      args = (a, (b, tt));
      address = 0;
      index = 0;
    }
    ∷ record {
      service_name = codes "Adder";
      method_name = codes "sub";
      Returned = Int32;
      codec = int;
      types = cons Int32 int (cons Int32 int nil);
      method = λ args object. (sub_int args.0 args.1.0, object);
      args = (u, (v, tt));
      address = 0;
      index = 0;
    }
    ∷ record {
      service_name = codes "Echoer";
      method_name = codes "echo";
      Returned = Bytes;
      codec = m.string;
      types = cons Bytes m.string nil;
      method = λ args object. (args.0, object);
      args = (text, tt);
      address = 1;
      index = 1;
    }
    ∷ []

example_endpoint :
    endpoint (codes "127.0.0.1:10001") ≡ some (record { host = codes "127.0.0.1"; port = 10001 })
unfolding endpoint
example_endpoint = refl

module _ (m : Msgpack) (l : LockFree) (int : Codec m.Object Int32) where
  -- The server of `main`, and after it has accepted a connection.
  abbrev listening_server : Executor m l (Unit {0})
  unfolding register_services
  listening_server = register_services int (record (new_executor default_options) {
    listening_addr = codes "127.0.0.1:10001";
    acceptor = listening (any_address v4 10001);
  })

  abbrev connected_server : Executor m l (Unit {0})
  unfolding listening_server
  connected_server =
      let served = add_stream listening_server in
      record served { io_thread_pool = record (served.io_thread_pool) { next_index = 2 } }

  connected_server-IsOpen : IsOpen connected_server 0
  unfolding connected_server add_stream server_create_service create_service register_method
      new_executor new_queue lookup insert
  connected_server-IsOpen = record {
    nothing_queued = record {
      no_requests = l.contents-reserve _;
      no_responses = l.contents-reserve _;
    };
    threads = refl;
    stream = (start (new_stream 0), refl);
  }

  offered :
      (a b u v : Int32) (text : Bytes)
      → All (IsOffered connected_server) (client_calls m int a b u v text)
  unfolding connected_server add_stream server_create_service create_service register_method
      new_executor lookup insert
  offered a b u v text = ((refl, refl), ((refl, refl), ((refl, refl), tt)))

-- The example programs: the server of server.cc, if its port can be bound, once it loops and has
-- accepted the connection, gives a client that is ready the sum, the difference and the text that
-- client.cc asks for, whatever the numbers and the text, if each packed call and each packed result
-- is below 2 ^ 32 bytes.
pub run_remote-server_main :
    (net : AsyncRead) (o : ByteOrder) (m : Msgpack) (l : LockFree) (int : Codec m.Object Int32)
    (spd : Spdlog) (binds : TcpEndpoint → Bool) (log : Logging) (s : Submitter) (a b u v : Int32)
    (text : Bytes)
    → binds (any_address v4 10001) ≡ true
    → IsReady s
    → s.curr_object_id + 3 < 2 ^ 32
    → FitAll m (client_calls m int a b u v text) (tt ∷ tt ∷ [])
    → (e e' e'' : Executor m l (Unit {0})) × (s' : Submitter) × ((server_main int spd binds log).1
        ≡ some e)
      × (and_then (server_loop e) (on_accept false) ≡ ok e')
      × (run_remote net o m 0 (client_calls m int a b u v text) s e'
          ≡ some ((add_int a b, (sub_int u v, (text, tt))), s', e''))
unfolding server_main rpc_server init get_tcp_endpoint server_create_service create_service
    register_method server_loop do_accept on_accept add_stream new_pool get_next_io_service
    run_local connected_server new_executor
run_remote-server_main net o m l int spd binds log s a b u v text free ready few fits =
    let cs = client_calls m int a b u v text in
    let e : Executor m l (Unit {0}) = connected_server m l int in
    let (s', e', ran, left, ready', open') =
      run_remote-run_local net o m cs s e 0 (add_int a b, (sub_int u v, (text, tt))) (tt ∷ tt ∷ [])
        ready (connected_server-IsOpen m l int) (offered m l int a b u v text) few fits refl in
    (listening_server m l int, e, e', s', rw (example_endpoint, free) refl, refl, ran)
