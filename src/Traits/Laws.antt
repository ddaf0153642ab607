-- ===== src/Traits/Laws.antt =====
-- What the server makes of the tuple that a client has packed.
use dousi.Prelude.{◌≡◌, subst, [], append-nil, some, Bytes}
use dousi.Msgpack.{Codec, Types, Tuple, Msgpack, objects}
use dousi.Traits.{value, RemoteMethod, with_names, names, serialize_result, invoke}

-- The object that a request carries: the two names and the arguments.
abbrev pub request_object :
    (m : Msgpack) → Bytes → Bytes → (ts : Types m.Object) → Tuple ts → m.Object
request_object m service_name method_name ts args =
    m.array (objects (with_names m ts) (service_name, (method_name, args)))

-- The names are found in front of the arguments, whatever these are.
pub as_tuple-names :
    (m : Msgpack) (service_name method_name : Bytes) (ts : Types m.Object) (args : Tuple ts)
    → m.as_tuple (names m) (request_object m service_name method_name ts args)
      ≡ some (service_name, (method_name, tt))
as_tuple-names m service_name method_name ts args =
    m.as_tuple-array (names m) (service_name, (method_name, tt)) (objects ts args)

-- A method that is called with arguments of its own types gets these arguments and the object as it
-- is, and its result is serialized.
pub invoke-request_object :
    (m : Msgpack) {S : Type 0} (rm : RemoteMethod m.Object S) (service_name method_name : Bytes)
    (args : Tuple rm.traits.args) (object : S)
    → invoke m rm (request_object m service_name method_name rm.traits.args args) object
      ≡ some (
        serialize_result m rm.traits.return_type (rm.method args object).0,
        (rm.method args object).1,
      )
unfolding invoke
invoke-request_object m rm service_name method_name args object =
    let ts = with_names m rm.traits.args in
    let all : Tuple ts = (service_name, (method_name, args)) in
    rw (
      subst (λ xs. m.as_tuple ts (m.array xs) ≡ some all) (append-nil (objects ts all))
        (m.as_tuple-array ts all []))

-- A result that is not void is read back from what was serialized.
pub unpack-serialize_result :
    (m : Msgpack) (R : Type 0) (c : Codec m.Object R) (x : R)
    → (m.unpack (serialize_result m (value R c) x) ≡ some (c.encode x))
      × (c.decode (c.encode x) ≡ some x)
unfolding serialize_result
unpack-serialize_result m R c x = (m.unpack-pack (c.encode x), c.decode-encode x)
