-- ===== src/Submitter/Handle.antt =====
-- src/dousi/core/submitter/service_handle.h.
use dousi.Prelude.{Bool, Option, some, Bytes, ◌>>=◌}
use dousi.Msgpack.{Types, Tuple, Msgpack, pack_args_to_buffer}
use dousi.Traits.{ReturnType, void, value, RemoteMethod, with_names}
use dousi.Stream.Word.{ByteOrder}
use dousi.Submitter.{Submitter, submit, request_object_id}
use dousi.Submitter.Future.{DousiFuture, new_future}

-- `dousi_submitter_` is given to each call.
pub record ServiceHandle : Type 0 where
  pub service_name : Bytes

-- `Submitter::GetService`
abbrev pub get_service : Bytes → ServiceHandle
get_service service_name = record { service_name = service_name }

unfoldable pub get_service_name : ServiceHandle → Bytes
get_service_name handle = handle.service_name

-- The type of the objects that the future of a call holds: `DousiFuture<bool>` for a void method.
abbrev pub FutureType : {Object : Type 0} → ReturnType Object → Type 0
FutureType void = Bool
FutureType (value R c) = R

-- What is left of a call: the bytes that it puts on the wire, its future, and the submitter.
pub record Called (T : Type 0) : Type 0 where
  pub wire : Bytes
  pub future : DousiFuture T
  pub submitter : Submitter

module _ (m : Msgpack) (o : ByteOrder) where
  -- Both `InternalCall` do the same, up to the type of the future.
  unfoldable pub internal_call :
      {T : Type 0} (s : Submitter) (method_name : Bytes) (ts : Types m.Object)
      → Tuple ts
      → Option (Called T)
  internal_call s method_name ts args_tuple =
      let (object_id, s') = request_object_id s in
      do
        wire ← submit o s' object_id method_name (pack_args_to_buffer m ts args_tuple)
        some (record { wire = wire; future = new_future object_id; submitter = s' })

  -- `Call` and `CallWithMethodName`: the names of the service and of the method go in front of the
  -- arguments, which have the types that the caller gives them.
  unfoldable pub call :
      {S : Type 0} (s : Submitter)
      → ServiceHandle
      → (rm : RemoteMethod m.Object S) (ts : Types m.Object) → Tuple ts
      → Option (Called (FutureType rm.traits.return_type))
  unfolding internal_call
  call s handle rm ts args =
      internal_call s rm.method_name (with_names m ts) (handle.service_name, (rm.method_name, args))
