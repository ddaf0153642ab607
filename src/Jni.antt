-- ===== src/Jni.antt =====
-- src/dousi/jni/native_java_client.h: the client behind the Java binding. Its answers go to a callback
-- instead of a cache, and its requests come packed. A `jlong` is the id that `invoke` returns.
pub mod Callbacks
pub mod Arrays
pub mod References
mod Tests
use dousi.Prelude.{
  ℕ, ◌-◌, ◌^◌, Bool, true, [], Option, none, some, Bytes, ltb, if◌then◌else◌, ◌>>=◌,
}
use dousi.Endpoint.Text.{ℤ, pos, negsuc}
use dousi.Logging.{Spdlog, Logging, debug, warning, start_dousi_log}
use dousi.Stream.Word.{ByteOrder}
use dousi.Submitter
use dousi.Submitter.{Submitter, java, new_submitter, submit, request_object_id}

-- The constructor of NativeClientForJava, given a callback; `none` is an exception of the address or
-- of the connection.
unfoldable pub native_client_for_java :
    Spdlog → (Bytes × Bytes → Bool) → Bytes → Logging → Logging × Option Submitter
native_client_for_java spd connects server_address log = (
  start_dousi_log spd warning 10 3 log,
  Submitter.init connects server_address (new_submitter java true),
)

-- `static_cast<long>` of a uint64_t.
unfoldable pub to_long : ℕ → ℤ
to_long n = if ltb n (2 ^ 63) then pos n else negsuc (2 ^ 64 - 1 - n)

-- `Invoke`: the id, the bytes for the wire and the submitter.
unfoldable pub invoke : ByteOrder → Submitter → Bytes → Option (ℤ × (Bytes × Submitter))
unfolding to_long
invoke o s encoded_func_name_and_args =
    let (object_id, s') = request_object_id s in
    do
      wire ← submit o s' object_id [] encoded_func_name_and_args
      some (to_long object_id, (wire, s'))

-- `nativeNewRpcClient`: the log is started again, at DEBUG.
unfoldable pub native_new_rpc_client :
    Spdlog → (Bytes × Bytes → Bool) → Bytes → Logging → Logging × Option Submitter
unfolding native_client_for_java
native_new_rpc_client spd connects server_addr log =
    let (log', client) = native_client_for_java spd connects server_addr log in
    (start_dousi_log spd debug 10 3 log', client)

-- `Close`
abbrev pub close : Submitter → Submitter
close s = Submitter.shutdown s
