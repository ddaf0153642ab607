-- ===== src/Executor/Listening.antt =====
-- Where `Init` of src/dousi/core/executor/executor.h listens.
use dousi.Prelude.{
  ℕ, ◌%◌, ◌^◌, ◌<◌, ◌≡◌, refl, Bool, [], ◌∷◌, ◌++◌, none, some, Bytes, if◌then◌else◌, arith,
}
use dousi.Endpoint.{TcpEndpoint, get_tcp_endpoint, v4}
use dousi.Endpoint.Text.{to_string}
use dousi.Endpoint.RoundTrip.{Lacks, endpoint-append}
use dousi.Msgpack.{Msgpack}
use dousi.Queue.LockFree.{LockFree}
use dousi.Executor.{Executor, listening, init}

-- The host of a listening address has no part in where the server listens: for an address "host:n"
-- whose host has no colon, with n below 2 ^ 31, `Init` asks for every IPv4 address of the machine at
-- the port n modulo 2 ^ 16. If that can be bound, the executor listens there, keeps the text of the
-- address, and is otherwise as it was; if not, `Init` throws.
pub init-to_string :
    {m : Msgpack} {l : LockFree} {S : Type 0} (binds : TcpEndpoint → Bool) (host : Bytes) (n : ℕ)
    (e : Executor m l S)
    → Lacks b':' host
    → n < 2 ^ 31
    → let at : TcpEndpoint = record {
      protocol = v4;
      address = 0 ∷ 0 ∷ 0 ∷ 0 ∷ [];
      port = n % 2 ^ 16;
    } in
      let text = host ++ (b':' ∷ to_string n) in
      init binds text e ≡ (
        if binds at
        then some (record e { listening_addr = text; acceptor = listening at })
        else none)
unfolding init get_tcp_endpoint
init-to_string binds host n e clear small =
    let same : n % 2 ^ 16 % 2 ^ 16 ≡ n % 2 ^ 16 = omega arith in
    rw (endpoint-append host n clear small, same) refl
