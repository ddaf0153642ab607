-- ===== src/Endpoint/Port.antt =====
-- What src/dousi/common/endpoint.h makes of an address with no colon.
use dousi.Prelude.{ℕ, ◌≡◌, refl, [], ◌∷◌, none, some, Bytes, length, take_of_le, ◌>>=◌, arith}
use dousi.Endpoint.{endpoint, to_uint16}
use dousi.Endpoint.Text.{find_char, substr, stoi}
use dousi.Endpoint.RoundTrip.{Lacks}

find_char-none : (c : ℕ) (s : Bytes) → Lacks c s → find_char c s ≡ none
unfolding find_char
find_char-none c [] h = refl
find_char-none c (x ∷ s) h = ground (arith, find_char-none c s h.1)

-- An address with no colon is not refused as such: the whole of it is the host, and is converted to
-- the port too.
pub endpoint_no_colon :
    (address : Bytes)
    → Lacks b':' address
    → endpoint address ≡ (do n ← stoi address; some (record { host = address; port = to_uint16 n }))
unfolding endpoint substr
endpoint_no_colon address clear =
    rw (find_char-none b':' address clear, take_of_le (length address) address (omega arith))
