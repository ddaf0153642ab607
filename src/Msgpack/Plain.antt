-- ===== src/Msgpack/Plain.antt =====
-- A serializer that meets the contract: an object is a list of numbers, an array puts the length of
-- each entry in front of it, and a packed object begins with a mark.
use dousi.Prelude.{
  ℕ, ◌≡◌, refl, List, [], ◌∷◌, ◌++◌, Option, none, some, Bytes, length, take, drop, take-append,
  drop-append, ◌>>=◌,
}
use dousi.Msgpack.Defs.{Codec, Types, nil, cons, Tuple, objects, Msgpack}

abbrev pub plain_array : List Bytes → Bytes
plain_array [] = []
plain_array (x ∷ xs) = length x ∷ (x ++ plain_array xs)

abbrev pub plain_unpack : Bytes → Option Bytes
plain_unpack [] = none
plain_unpack (mark ∷ x) = some x

abbrev pub plain_as_tuple : (ts : Types Bytes) → Bytes → Option (Tuple ts)
plain_as_tuple nil x = some tt
plain_as_tuple (cons A c ts) [] = none
plain_as_tuple (cons A c ts) (n ∷ x) = do
  a ← c.decode (take n x)
  args ← plain_as_tuple ts (drop n x)
  some (a, args)

pub plain_as_tuple-array :
    (ts : Types Bytes) (args : Tuple ts) (extra : List Bytes)
    → plain_as_tuple ts (plain_array (objects ts args ++ extra)) ≡ some args
plain_as_tuple-array nil args extra = refl
plain_as_tuple-array (cons A c ts) (a, args) extra =
    let rest = plain_array (objects ts args ++ extra) in
    rw (
      take-append (c.encode a) rest,
      drop-append (c.encode a) rest,
      c.decode-encode a,
      plain_as_tuple-array ts args extra,
    )

pub plain_unpack-pack : (x : Bytes) → plain_unpack (1 ∷ x) ≡ some x
plain_unpack-pack x = refl

abbrev pub plain_string : Codec Bytes Bytes
plain_string = record { encode = λ s. s; decode = some; decode-encode = λ s. refl }

abbrev pub decode_number : Bytes → Option ℕ
decode_number (n ∷ []) = some n
decode_number _ = none

-- An integer type.
abbrev pub number : Codec Bytes ℕ
number = record { encode = λ n. n ∷ []; decode = decode_number; decode-encode = λ n. refl }

abbrev pub plain : Msgpack
plain = record {
  Object = Bytes;
  array = plain_array;
  string = plain_string;
  pack = ◌∷◌ 1;
  unpack = plain_unpack;
  unpack-pack = plain_unpack-pack;
  unpack_nothing = refl;
  as_tuple = plain_as_tuple;
  as_tuple-array = plain_as_tuple-array;
}
