-- ===== src/Jni/Arrays.antt =====
-- The conversions of src/dousi/jni/org_dousi_client_NativeRpcClient.cc between a Java byte[] and the bytes of a
-- std::string, and nativeInvoke, which uses them.
use dousi.Prelude.{ℕ, Option, none, some, Bytes, length, ltb, if◌then◌else◌, ◌>>=◌}
use dousi.Endpoint.Text.{ℤ}
use dousi.Stream.{Invocation}
use dousi.Stream.Word.{ByteOrder}
use dousi.Submitter.{Submitter}
use dousi.Jni.{invoke}

-- What is used of JNIEnv: the length of an array is a jsize, and a region of an array is copied in or
-- out.
pub record JniEnv : Type 1 where
  pub ByteArray : Type 0
  pub new_byte_array : ℕ → ByteArray
  pub get_array_length : ByteArray → ℕ
  pub set_byte_array_region : ByteArray → ℕ → ℕ → Bytes → ByteArray
  pub get_byte_array_region : ByteArray → ℕ → ℕ → Bytes

module _ (env : JniEnv) where
  -- `NativeStringToJavaByteArray`
  unfoldable pub native_string_to_java_byte_array : Bytes → env.ByteArray
  native_string_to_java_byte_array str =
      let array = env.new_byte_array (length str) in
      env.set_byte_array_region array 0 (length str) str

  -- `JavaByteArrayToNativeString`. `none`: the front of an empty string is undefined.
  unfoldable pub java_byte_array_to_native_string : env.ByteArray → Option Bytes
  java_byte_array_to_native_string bytes =
      let size = env.get_array_length bytes in
      if ltb 0 size then some (env.get_byte_array_region bytes 0 size) else none

  -- `nativeInvoke`, for the client at the pointer.
  unfoldable pub native_invoke :
      ByteOrder → Submitter → env.ByteArray → Option (ℤ × (Bytes × Submitter))
  unfolding java_byte_array_to_native_string
  native_invoke o native_rpc_client encoded_bytes = do
    bytes ← java_byte_array_to_native_string encoded_bytes
    invoke o native_rpc_client bytes

  -- What `on_return_value_received` hands to `onReturnValueReceived`: the id and the array.
  unfoldable pub on_return_value_received : Invocation → ℕ × env.ByteArray
  unfolding native_string_to_java_byte_array
  on_return_value_received i = (i.object_id, native_string_to_java_byte_array i.body)
