-- ===== src/Msgpack/Defs.antt =====
-- The contract of msgpack, and src/dousi/common/msgpack_utils.h.
use dousi.Prelude.{◌≡◌, List, [], ◌∷◌, ◌++◌, Option, none, some, Bytes}

-- msgpack's adaptor of a C++ type: how a value becomes a `msgpack::object`, and `as<A>()`, which
-- throws on an object of another type.
pub record Codec (Object A : Type 0) : Type 0 where
  pub encode : A → Object
  pub decode : Object → Option A
  pub decode-encode : (a : A) → decode (encode a) ≡ some a

-- The list of types `Args...` of a function or a std::tuple.
pub data Types (Object : Type 0) : Type 1 where
  nil : Types Object
  cons : (A : Type 0) → Codec Object A → Types Object → Types Object

-- std::tuple<Args...>
abbrev pub Tuple : {Object : Type 0} → Types Object → Type 0
Tuple nil = Unit
Tuple (cons A c ts) = A × Tuple ts

abbrev pub objects : {Object : Type 0} (ts : Types Object) → Tuple ts → List Object
objects nil args = []
objects (cons A c ts) (a, args) = c.encode a ∷ objects ts args

-- `unpack` and `as_tuple` throw where they give `none`. A tuple is packed as an array, and read from
-- an array that has its entries in front: entries past the tuple's size are not looked at.
pub record Msgpack : Type 1 where
  pub Object : Type 0
  pub array : List Object → Object
  pub string : Codec Object Bytes
  pub pack : Object → Bytes
  pub unpack : Bytes → Option Object
  pub unpack-pack : (x : Object) → unpack (pack x) ≡ some x
  pub unpack_nothing : unpack [] ≡ none
  pub as_tuple : (ts : Types Object) → Object → Option (Tuple ts)
  pub as_tuple-array :
      (ts : Types Object) (args : Tuple ts) (extra : List Object)
      → as_tuple ts (array (objects ts args ++ extra)) ≡ some args

-- PackArgsToBuffer
unfoldable pub pack_args_to_buffer : (m : Msgpack) (ts : Types m.Object) → Tuple ts → Bytes
pack_args_to_buffer m ts args = m.pack (m.array (objects ts args))
