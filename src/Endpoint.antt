-- ===== src/Endpoint.antt =====
-- src/dousi/common/endpoint.h and endpoint.cc: "host:port". The text operations of the C++ library
-- that it uses are in Endpoint/Text.
pub mod Text
pub mod RoundTrip
pub mod Port
mod Tests
use dousi.Prelude.{ℕ, suc, ◌-◌, ◌%◌, ◌^◌, [], ◌∷◌, ◌++◌, Option, none, some, Bytes, length, ◌>>=◌}
use Text.{ℤ, pos, negsuc, find_char, substr, stoi, to_string}

pub record Endpoint : Type 0 where
  pub host : Bytes
  pub port : ℕ  -- uint16_t

-- boost::asio::ip::tcp, the protocol.
pub data Protocol : Type 0 where
  v4 : Protocol
  v6 : Protocol

-- A boost::asio::ip::tcp::endpoint: the address is the bytes of it in network order, as `to_bytes` of
-- the address gives them.
pub record TcpEndpoint : Type 0 where
  pub protocol : Protocol
  pub address : Bytes
  pub port : ℕ

-- The constructor from a protocol and a port, for an endpoint to listen at: any address.
abbrev pub any_address : Protocol → ℕ → TcpEndpoint
any_address v4 port = record { protocol = v4; address = 0 ∷ 0 ∷ 0 ∷ 0 ∷ []; port = port }
any_address v6 port = record {
  protocol = v6;
  address = 0 ∷ 0 ∷ 0 ∷ 0 ∷ 0 ∷ 0 ∷ 0 ∷ 0 ∷ 0 ∷ 0 ∷ 0 ∷ 0 ∷ 0 ∷ 0 ∷ 0 ∷ 0 ∷ [];
  port = port;
}

-- The conversion of an int to uint16_t.
unfoldable pub to_uint16 : ℤ → ℕ
to_uint16 (pos n) = n % 2 ^ 16
to_uint16 (negsuc n) = 2 ^ 16 - 1 - n % 2 ^ 16

-- `index + 1`, where `npos + 1` wraps to 0.
abbrev pub after_index : Option ℕ → ℕ
after_index none = 0
after_index (some i) = suc i

-- The constructor from an address; `none` is an exception of `std::stoi`.
unfoldable pub endpoint : Bytes → Option Endpoint
unfolding to_uint16 find_char substr stoi
endpoint address = do
  let index = find_char b':' address
  port ← stoi (substr (after_index index) (some (length address)) address)
  some (record { host = substr 0 index address; port = to_uint16 port })

-- The constructor from a host and a port, which is converted to uint16_t.
unfoldable pub new_endpoint : Bytes → ℕ → Endpoint
new_endpoint host port = record { host = host; port = port % 2 ^ 16 }

unfoldable pub get_host : Endpoint → Bytes
get_host e = e.host

unfoldable pub get_port : Endpoint → ℕ
get_port e = e.port

-- `Resolve` hands the resolver this host and this service.
unfoldable pub resolve_query : Endpoint → Bytes × Bytes
resolve_query e = (e.host, to_string e.port)

unfoldable pub get_tcp_endpoint : Endpoint → TcpEndpoint
get_tcp_endpoint e = any_address v4 (e.port % 2 ^ 16)

-- `ToString`
unfoldable pub endpoint_to_string : Endpoint → Bytes
unfolding to_string
endpoint_to_string e = e.host ++ (b':' ∷ to_string e.port)
