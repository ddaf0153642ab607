-- ===== src/Executor/Monitor.antt =====
-- What the monitor thread of src/dousi/core/executor/executor.h prints every five seconds, and the address that
-- the executor says it listens at.
use dousi.Prelude.{◌≡◌, refl, Bool, ◌++◌, some, Bytes, codes, arith}
use dousi.Msgpack.{Msgpack}
use dousi.Endpoint.{TcpEndpoint}
use dousi.Endpoint.Text.{to_string}
use dousi.Queue.LockFree.{LockFree, get_size}
use dousi.Executor.{Executor, init}

module _ {m : Msgpack} {l : LockFree} {S : Type 0} where
  -- The two lines.
  unfoldable pub monitor_text : Executor m l S → Bytes
  unfolding get_size to_string
  monitor_text e =
      codes "request queue size = "
      ++ (to_string (get_size l e.request_queue)
          ++ (codes "\nresponse queue size = "
              ++ (to_string (get_size l e.response_queue) ++ codes "\n")))

  unfoldable pub get_listening_addr : Executor m l S → Bytes
  get_listening_addr e = e.listening_addr

  -- Whatever is queued, the monitor prints that nothing is.
  monitor_text_lem :
      (e : Executor m l S)
      → monitor_text e ≡ codes "request queue size = 0\nresponse queue size = 0\n"
  unfolding monitor_text
  monitor_text_lem e = refl

  -- After `Init` the address is the one that it was given.
  get_listening_addr-init :
      (binds : TcpEndpoint → Bool) (address : Bytes) (e e' : Executor m l S)
      → init binds address e ≡ some e'
      → get_listening_addr e' ≡ address
  unfolding init get_listening_addr
  get_listening_addr-init binds address e e' h = ground arith
