-- ===== src/Endpoint/Tests.antt =====
-- src/dousi/common/endpoint.h at concrete addresses.
use dousi.Prelude.{◌≡◌, refl, none, some, codes, arith, ◌∷◌, ◌++◌, ◌>>=◌}
use dousi.Endpoint.{Endpoint, endpoint, endpoint_to_string, to_uint16}
use dousi.Endpoint.Text.{stoi, to_string}
use dousi.Endpoint.RoundTrip.{endpoint-append, endpoint-endpoint_to_string}
use dousi.Endpoint.Port.{endpoint_no_colon}

abbrev local : Endpoint
local = record { host = codes "127.0.0.1"; port = 10001 }

endpoint_test : endpoint (codes "127.0.0.1:10001") ≡ some local
unfolding endpoint
endpoint_test = refl

-- The address in README.md.
readme_port : endpoint (codes "127.0.0.1:100001") ≡ some (record local { port = 34465 })
unfolding endpoint
readme_port = refl

sign_and_tail : endpoint (codes "h: -1x") ≡ some (record { host = codes "h"; port = 65535 })
unfolding endpoint
sign_and_tail = refl

refused : endpoint (codes "localhost") ≡ none
unfolding endpoint
refused = refl

endpoint_to_string_test : endpoint_to_string local ≡ codes "127.0.0.1:10001"
unfolding endpoint_to_string
endpoint_to_string_test = refl

endpoint-append_test :
    endpoint (codes "127.0.0.1" ++ (b':' ∷ to_string 100001)) ≡ some (record local { port = 34465 })
endpoint-append_test = endpoint-append (codes "127.0.0.1") 100001 (omega arith) (omega arith)

endpoint-endpoint_to_string_example : endpoint (endpoint_to_string local) ≡ some local
endpoint-endpoint_to_string_example = endpoint-endpoint_to_string local (omega arith) (omega arith)

endpoint_no_colon_test :
    endpoint (codes "8080")
    ≡ (do n ← stoi (codes "8080"); some (record { host = codes "8080"; port = to_uint16 n }))
endpoint_no_colon_test = endpoint_no_colon (codes "8080") (omega arith)
