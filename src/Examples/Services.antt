-- ===== src/Examples/Services.antt =====
-- src/examples/services.h. The services keep no state, so an object is nothing.
use dousi.Prelude.{ℕ, ◌+◌, ◌-◌, ◌%◌, ◌^◌, ◌<◌, Bytes, codes, arith}
use dousi.Msgpack.{Codec, cons, nil, Msgpack}
use dousi.Traits.{value, RemoteMethod}

-- An `int` as its 32 bits.
abbrev pub Int32 : Type 0
Int32 = (bits : ℕ) × (bits < 2 ^ 32)

-- `x + y` and `x - y`; an overflow, which C++ leaves undefined, wraps around.
abbrev pub add_int : Int32 → Int32 → Int32
add_int (x, _) (y, _) = ((x + y) % 2 ^ 32, omega arith)

abbrev pub sub_int : Int32 → Int32 → Int32
sub_int (x, _) (y, small) = ((x + 2 ^ 32 - y) % 2 ^ 32, omega arith)

module _ (m : Msgpack) (int : Codec m.Object Int32) where
  -- Remote(&Adder::add)
  abbrev pub add : RemoteMethod m.Object (Unit {0})
  add = record {
    method_name = codes "add";
    traits = record { return_type = value Int32 int; args = cons Int32 int (cons Int32 int nil) };
    method = λ args object. (add_int args.0 args.1.0, object);
  }

  -- Remote(&Adder::sub)
  abbrev pub sub : RemoteMethod m.Object (Unit {0})
  sub = record {
    method_name = codes "sub";
    traits = record { return_type = value Int32 int; args = cons Int32 int (cons Int32 int nil) };
    method = λ args object. (sub_int args.0 args.1.0, object);
  }

-- Remote(&Echoer::echo)
abbrev pub echo : (m : Msgpack) → RemoteMethod m.Object (Unit {0})
echo m = record {
  method_name = codes "echo";
  traits = record { return_type = value Bytes m.string; args = cons Bytes m.string nil };
  method = λ args object. (args.0, object);
}
