-- ===== src/Endpoint/RoundTrip.antt =====
-- An address that was printed is read back.
use dousi.Prelude.{
  ℕ, zero, suc, ◌+◌, ◌/◌, ◌%◌, ◌^◌, ◌<◌, ◌≤◌, ◌≡◌, ◌≢◌, refl, ap, ◌∙◌, [], ◌∷◌, ◌++◌, some, Bytes,
  length, length-append, take-append, drop-append_cons, take_of_le, All, arith,
}
use dousi.Endpoint.{new_endpoint, get_host, get_port, Endpoint, endpoint, endpoint_to_string}
use dousi.Endpoint.Text.{pos, find_char, leading, stoi, print, to_string}

abbrev IsDigit : ℕ → Type 0
IsDigit c = (b'0' ≤ c) × (c ≤ b'9')

abbrev pub Lacks : ℕ → Bytes → Type 0
Lacks c = All (λ x. x ≢ c)

leading-print : (fuel n : ℕ) (out : Bytes) → n < fuel → leading 0 (print fuel n out) ≡ leading n out
unfolding leading print
leading-print zero n out h = absurd (omega arith)
leading-print (suc fuel) n out h =
    ground (arith, leading-print fuel (n / 10) ((b'0' + n % 10) ∷ out))

print-IsDigit : (fuel n : ℕ) (out : Bytes) → All IsDigit out → All IsDigit (print fuel n out)
unfolding print
print-IsDigit zero n out h = h
print-IsDigit (suc fuel) n out h =
    ground (arith, print-IsDigit fuel (n / 10) ((b'0' + n % 10) ∷ out))

-- A text of digits is read as the number that they spell.
stoi_digits :
    (s : Bytes) → s ≢ [] → All IsDigit s → leading 0 s < 2 ^ 31 → stoi s ≡ some (pos (leading 0 s))
unfolding stoi
stoi_digits [] ne h k = absurd (ne refl)
stoi_digits (c ∷ s) ne h k = ground arith

print-ne-nil : (fuel n : ℕ) (out : Bytes) → out ≢ [] → print fuel n out ≢ []
unfolding print
print-ne-nil zero n out h = h
print-ne-nil (suc fuel) n out h = ground (arith, print-ne-nil fuel (n / 10) ((b'0' + n % 10) ∷ out))

to_string-ne-nil : (n : ℕ) → to_string n ≢ []
unfolding to_string
to_string-ne-nil n = ground (arith, print-ne-nil n (n / 10) ((b'0' + n % 10) ∷ []))

-- Every number that an int can hold is read back from its decimal print.
pub stoi-to_string : (n : ℕ) → n < 2 ^ 31 → stoi (to_string n) ≡ some (pos n)
unfolding to_string leading
stoi-to_string n h =
    let value : leading 0 (to_string n) ≡ n = leading-print (suc n) n [] (omega arith) in
    stoi_digits (to_string n) (to_string-ne-nil n) (print-IsDigit (suc n) n [] tt)
      (omega (arith, value))
    ∙ ap (λ k. some (pos k)) value

find_char_first :
    (c : ℕ) (s rest : Bytes) → Lacks c s → find_char c (s ++ c ∷ rest) ≡ some (length s)
unfolding find_char
find_char_first c [] rest h = ground arith
find_char_first c (x ∷ s) rest h = ground (arith, find_char_first c s rest h.1)

-- A host with no colon, a colon and the print of any number that an int holds: the host is taken as
-- it is, and the number is cut to a uint16_t, so 100001 becomes port 34465.
pub endpoint-append :
    (host : Bytes) (n : ℕ)
    → Lacks b':' host
    → n < 2 ^ 31
    → endpoint (host ++ (b':' ∷ to_string n)) ≡ some (record { host = host; port = n % 2 ^ 16 })
unfolding endpoint
endpoint-append host n clear small =
    let port = to_string n in
    let fits : length port ≤ length (host ++ b':' ∷ port) =
      omega (arith, length-append host (b':' ∷ port)) in
    rw (
      find_char_first b':' host port clear,
      drop-append_cons host b':' port,
      take_of_le _ port fits,
      stoi-to_string n small,
      take-append host (b':' ∷ port),
    )

-- An endpoint is read back from its print, if its host has no colon and its port is a uint16_t.
pub endpoint-endpoint_to_string :
    (e : Endpoint) → Lacks b':' e.host → e.port < 2 ^ 16 → endpoint (endpoint_to_string e) ≡ some e
unfolding endpoint_to_string
endpoint-endpoint_to_string e clear small =
    endpoint-append e.host e.port clear (omega arith)
    ∙ ap (λ p. some (record { host = e.host; port = p })) (omega arith)

-- An endpoint that is made of a host with no colon and any port, printed and read back, has that host,
-- and the port modulo 2 ^ 16.
endpoint-new_endpoint :
    (host : Bytes) (port : ℕ)
    → Lacks b':' host
    → (e : Endpoint) × (endpoint (endpoint_to_string (new_endpoint host port)) ≡ some e)
      × (get_host e ≡ host)
      × (get_port e ≡ port % 2 ^ 16)
unfolding new_endpoint get_host get_port
endpoint-new_endpoint host port clear = (
  new_endpoint host port,
  endpoint-endpoint_to_string (new_endpoint host port) clear (omega arith),
  refl,
  refl,
)
