-- ===== src/Traits.antt =====
-- src/dousi/core/common/function_traits.h, tuple_traits.h and remote_annotation.h: what a registered
-- method is, and how the server takes its arguments out of an unpacked request and calls it.
pub mod Laws
use dousi.Prelude.{ℕ, zero, suc, [], Option, none, some, Bytes, ◌>>=◌}
use dousi.Msgpack.{Codec, Types, nil, cons, Tuple, Msgpack}

-- R: `void`, or a type that msgpack can serialize.
pub data ReturnType (Object : Type 0) : Type 1 where
  void : ReturnType Object
  value : (R : Type 0) → Codec Object R → ReturnType Object

-- What a call of the method returns.
abbrev pub Result : {Object : Type 0} → ReturnType Object → Type 0
Result void = Unit
Result (value R c) = R

-- BaseFunctionTraits<R, Args...>; each specialisation of FunctionTraits derives from it.
pub record FunctionTraits (Object : Type 0) : Type 1 where
  pub return_type : ReturnType Object
  pub args : Types Object

-- ArgsNum
abbrev pub args_num : {Object : Type 0} → Types Object → ℕ
args_num nil = 0
args_num (cons A c ts) = suc (args_num ts)

-- ServiceNameAndMethodNameWithArgsTuple
abbrev pub with_names : (m : Msgpack) → Types m.Object → Types m.Object
with_names m ts = cons Bytes m.string (cons Bytes m.string ts)

-- std::tuple<std::string, std::string>
abbrev pub names : (m : Msgpack) → Types m.Object
names m = with_names m nil

-- VoidReturnTrait<R>::Tag
pub data Tag : Type 0 where
  void_return_tag non_void_return_tag : Tag

abbrev pub void_return_trait : {Object : Type 0} → ReturnType Object → Tag
void_return_trait void = void_return_tag
void_return_trait (value R c) = non_void_return_tag

-- RemoteMethod<MethodType> for a member function of the services, which all have the type of objects
-- `S`: the arguments and the object are given, the result and the changed object are returned. The
-- name is what NAMEOF makes of the expression.
pub record RemoteMethod (Object S : Type 0) : Type 1 where
  pub method_name : Bytes
  pub traits : FunctionTraits Object
  pub method : Tuple traits.args → S → Result traits.return_type × S

-- What InvokeHelper does with the value that the method returned. The string `result` was empty
-- before, and `InvokeHelper<void>` leaves it so.
unfoldable pub serialize_result : (m : Msgpack) (r : ReturnType m.Object) → Result r → Bytes
serialize_result m void _ = []
serialize_result m (value R c) x = m.pack (c.encode x)

module _ (m : Msgpack) {S : Type 0} where
  -- TraitAndCall and TraitAndCallVoidReturn: the two names in front are dropped, and the object is
  -- changed in place, since it is passed by reference.
  unfoldable pub trait_and_call :
      {R : Type 0} (ts : Types m.Object)
      → (Tuple ts → S → R × S)
      → S
      → Tuple (with_names m ts)
      → R × S
  trait_and_call ts method object (service_name, (method_name, args)) = method args object

  -- InvokeHelper<R>::Invoke; `none` is the exception of `as`.
  unfoldable pub invoke : RemoteMethod m.Object S → m.Object → S → Option (Bytes × S)
  unfolding trait_and_call serialize_result
  invoke rm unpacked object = do
    tuple ← m.as_tuple (with_names m rm.traits.args) unpacked
    let (ret, object') = trait_and_call rm.traits.args rm.method object tuple
    some (serialize_result m rm.traits.return_type ret, object')
