-- ===== src/Testing/Services.antt =====
-- src/tests/test_utils/basic_services.h.
use dousi.Prelude.{Bytes, codes}
use dousi.Msgpack.{Codec, cons, nil, Msgpack}
use dousi.Traits.{void, value, RemoteMethod}
use dousi.Examples.Services.{Int32, add_int, sub_int}

-- The object of a service. Only `VoidReturnService` keeps something, its text.
pub data TestObject : Type 0 where
  echoer calculator user_defined_class : TestObject
  void_return_service : Bytes → TestObject

-- `data_ = str` and the reading of `data_`; a method is called on objects of its own class only.
abbrev pub store_data : Bytes → TestObject → TestObject
store_data text (void_return_service data_) = void_return_service text
store_data text object = object

abbrev pub data_of : TestObject → Bytes
data_of (void_return_service data_) = data_
data_of object = codes ""

pub record Person : Type 0 where
  pub name : Bytes
  pub age : Int32

abbrev pub incr_age : Person → Int32 → Person
incr_age person delta = record { name = person.name; age = add_int person.age delta }

module _ (m : Msgpack) where
  -- Remote(&Echoer::echo)
  abbrev pub echo : RemoteMethod m.Object TestObject
  echo = record {
    method_name = codes "echo";
    traits = record { return_type = value Bytes m.string; args = cons Bytes m.string nil };
    method = λ args object. (args.0, object);
  }

  -- Remote(&VoidReturnService::Perform)
  abbrev pub perform : RemoteMethod m.Object TestObject
  perform = record {
    method_name = codes "Perform";
    traits = record { return_type = void; args = cons Bytes m.string nil };
    method = λ args object. (tt, store_data args.0 object);
  }

  -- Remote(&VoidReturnService::Get)
  abbrev pub get : RemoteMethod m.Object TestObject
  get = record {
    method_name = codes "Get";
    traits = record { return_type = value Bytes m.string; args = nil };
    method = λ args object. (data_of object, object);
  }

module _ (m : Msgpack) (int : Codec m.Object Int32) where
  -- Remote(&Calculator::add)
  abbrev pub add : RemoteMethod m.Object TestObject
  add = record {
    method_name = codes "add";
    traits = record { return_type = value Int32 int; args = cons Int32 int (cons Int32 int nil) };
    method = λ args object. (add_int args.0 args.1.0, object);
  }

  -- Remote(&Calculator::sub)
  abbrev pub sub : RemoteMethod m.Object TestObject
  sub = record {
    method_name = codes "sub";
    traits = record { return_type = value Int32 int; args = cons Int32 int (cons Int32 int nil) };
    method = λ args object. (sub_int args.0 args.1.0, object);
  }

module _ (m : Msgpack) (int : Codec m.Object Int32) (person : Codec m.Object Person) where
  -- Remote(&UserDefinedClass::IncrAge)
  abbrev pub incr_age_method : RemoteMethod m.Object TestObject
  incr_age_method = record {
    method_name = codes "IncrAge";
    traits = record {
      return_type = value Person person;
      args = cons Person person (cons Int32 int nil);
    };
    method = λ args object. (incr_age args.0 args.1.0, object);
  }
