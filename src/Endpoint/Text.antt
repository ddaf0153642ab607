-- ===== src/Endpoint/Text.antt =====
-- The text operations of the C++ library that src/dousi/common/endpoint.h calls: std::string::find and
-- substr, std::stoi and std::to_string.
use dousi.Prelude.{
  ℕ, zero, suc, ◌+◌, ◌-◌, ◌*◌, ◌/◌, ◌%◌, ◌^◌, Bool, ◌&&◌, ◌||◌, [], ◌∷◌, Option, none, some, Bytes,
  ltb, leb, ◌==◌, if◌then◌else◌, take, drop,
}

-- An `int`: `negsuc n` is -(n + 1).
pub data ℤ : Type 0 where
  pos : ℕ → ℤ
  negsuc : ℕ → ℤ

abbrev pub one_further : Option ℕ → Option ℕ
one_further none = none
one_further (some i) = some (suc i)

-- The index of the first occurrence; `none` is npos.
unfoldable pub find_char : ℕ → Bytes → Option ℕ
find_char c [] = none
find_char c (x ∷ s) = let later = find_char c s in if x == c then some 0 else one_further later

-- `s.substr(from, count)` for `from` at most the size of `s`; a count of npos is `none`.
unfoldable pub substr : ℕ → Option ℕ → Bytes → Bytes
substr from none s = drop from s
substr from (some count) s = take count (drop from s)

abbrev pub is_digit : ℕ → Bool
is_digit c = leb b'0' c && leb c b'9'

-- isspace in the C locale
abbrev pub is_space : ℕ → Bool
is_space c = c == 32 || leb 9 c && leb c 13

-- The number that the digits at the front of the text spell behind `acc`.
unfoldable pub leading : ℕ → Bytes → ℕ
leading acc [] = acc
leading acc (c ∷ s) =
    let more = leading (acc * 10 + (c - b'0')) s in if is_digit c then more else acc

-- Digits, at least one of them.
unfoldable pub magnitude : Bytes → Option ℕ
unfolding leading
magnitude [] = none
magnitude (c ∷ s) = if is_digit c then some (leading 0 (c ∷ s)) else none

-- The conversions that are refused with std::out_of_range are those that no `int` can hold.
unfoldable pub as_positive : Option ℕ → Option ℤ
as_positive none = none
as_positive (some n) = if ltb n (2 ^ 31) then some (pos n) else none

unfoldable pub as_negative : Option ℕ → Option ℤ
as_negative none = none
as_negative (some zero) = some (pos 0)
as_negative (some (suc n)) = if ltb n (2 ^ 31) then some (negsuc n) else none

unfoldable pub signed : Bytes → Option ℤ
unfolding magnitude as_positive as_negative
signed [] = none
signed (c ∷ s) =
    if c == b'-'
    then as_negative (magnitude s)
    else if c == b'+'
    then as_positive (magnitude s)
    else as_positive (magnitude (c ∷ s))

-- `none` is std::invalid_argument or std::out_of_range. What follows the number is not looked at.
unfoldable pub stoi : Bytes → Option ℤ
unfolding signed
stoi [] = none
stoi (c ∷ s) = let rest = stoi s in if is_space c then rest else signed (c ∷ s)

-- The decimal digits of `n` in front of `out`; `fuel` bounds their number.
unfoldable pub print : ℕ → ℕ → Bytes → Bytes
print zero n out = out
print (suc fuel) n out =
    let more = print fuel (n / 10) ((b'0' + n % 10) ∷ out) in
    if ltb n 10 then (b'0' + n) ∷ out else more

-- A number has at most as many digits as it has units, and one.
unfoldable pub to_string : ℕ → Bytes
unfolding print
to_string n = print (suc n) n []
