-- ===== src/Rpc/Startup.antt =====
-- What src/dousi/rpc/rpc_server.h and rpc_client.h set up is what a call needs.
use dousi.Prelude.{ℕ, ◌%◌, ◌^◌, ◌<◌, ◌≡◌, refl, Bool, true, ◌∷◌, ◌++◌, some, Bytes, arith}
use dousi.Prelude.Map.{lookup, ℕ_eq}
use dousi.Msgpack.{Msgpack}
use dousi.Endpoint.{resolve_query}
use dousi.Endpoint.Text.{to_string}
use dousi.Endpoint.RoundTrip.{Lacks, endpoint-append}
use dousi.Logging.{Spdlog, Logging}
use dousi.Queue.LockFree.{LockFree}
use dousi.Stream.{new_stream, start}
use dousi.Executor.{Executor, init}
use dousi.Submitter
use dousi.Submitter.{Submitter, default_submitter, do_connect}
use dousi.Rpc.{rpc_client}
use dousi.Rpc.Exchange.{IsReady}

-- A client made for "host:n" is ready for a call, if the host has no colon, an int holds the number,
-- and the host can be connected to at the port n modulo 2 ^ 16.
pub rpc_client-IsReady :
    (spd : Spdlog) (connects : Bytes × Bytes → Bool) (host : Bytes) (n : ℕ) (log : Logging)
    → Lacks b':' host
    → n < 2 ^ 31
    → connects (host, to_string (n % 2 ^ 16)) ≡ true
    → (s : Submitter) × ((rpc_client spd connects (host ++ (b':' ∷ to_string n)) log).1 ≡ some s)
      × IsReady s
unfolding rpc_client Submitter.init do_connect resolve_query lookup
rpc_client-IsReady spd connects host n log clear small reached = (
  record default_submitter { stream = some (start (new_stream 0)) },
  rw (endpoint-append host n clear small, reached) refl,
  record {
    connected = (start (new_stream 0), refl);
    language = refl;
    few_calls = omega arith;
    unanswered = λ k later. refl;
  },
)
