-- ===== src/Jni/References.antt =====
-- src/dousi/jni/org_dousi_client_NativeRpcClient.cc: its static references into the Java VM, and the native
-- methods that share them. A Java object is a number, and a global reference an index into the table of
-- references, whose entry is empty once it is deleted.
pub mod Clients
pub mod Routing
mod Tests
use dousi.Prelude.{
  ℕ, ◌<◌, ◌≡◌, Bool, if◌then◌else◌, List, [], ◌∷◌, ◌++◌, Option, none, some, Bytes, codes, length,
  get_elem?, set, ◌>>=◌,
}
use dousi.Endpoint.Text.{ℤ, pos, negsuc}
use dousi.Logging.{Spdlog, Logging, initial}
use dousi.Stream.{Invocation}
use dousi.Stream.Word.{ByteOrder}
use dousi.Submitter.{Submitter, on_message, shutdown}
use dousi.Jni.{close, native_new_rpc_client}
use dousi.Jni.Arrays.{JniEnv, native_invoke, on_return_value_received}

-- What is used of the Java VM besides arrays. `delete_stray` is what becomes of the table when
-- DeleteGlobalRef is given something that is no reference, which is not defined; `none`: the process
-- ends.
pub record Vm : Type 1 where
  pub JavaString : Type 0
  pub get_env : Bool
  pub find_class : Bytes → Option ℕ
  pub get_method_id : ℕ → Bytes → Bytes → Option ℕ
  pub get_string_utf_chars : JavaString → Bytes
  pub delete_stray : ℕ → List (Option ℕ) → Option (List (Option ℕ))

-- The object of a reference that is neither null nor deleted.
abbrev pub deref : Option ℕ → List (Option ℕ) → Option ℕ
deref reference references = do r ← reference; held ← get_elem? references r; held

-- NewGlobalRef
abbrev pub new_global_ref : Option ℕ → List (Option ℕ) → Option ℕ × List (Option ℕ)
new_global_ref none references = (none, references)
new_global_ref (some object) references = (some (length references), references ++ some object ∷ [])

-- DeleteGlobalRef; `none`: the reference was deleted before, which is not defined.
abbrev pub delete_global_ref : Option ℕ → List (Option ℕ) → Option (List (Option ℕ))
delete_global_ref none references = some references
delete_global_ref (some r) references = do
  object ← deref (some r) references
  some (set references r none)

-- The static variables, the clients by their addresses, and the calls of `onReturnValueReceived`: the
-- object, the id and the array.
pub record Native (Array : Type 0) : Type 0 where
  pub references : List (Option ℕ)
  pub java_class : Option ℕ
  pub java_method : Option ℕ
  pub java_object : Option ℕ
  pub clients : List (Option Submitter)
  pub logging : Logging
  pub received : List (ℕ × (ℕ × Array))

abbrev pub unloaded : {Array : Type 0} → Native Array
unloaded = record {
  references = [];
  java_class = none;
  java_method = none;
  java_object = none;
  clients = [];
  logging = initial;
  received = [];
}

abbrev pub client_at : {Array : Type 0} → ℕ → Native Array → Option Submitter
client_at pointer s = do held ← get_elem? s.clients pointer; held

-- `LoadClass`
unfoldable pub load_class : Vm → Bytes → List (Option ℕ) → Option ℕ × List (Option ℕ)
load_class vm class_name references = new_global_ref (vm.find_class class_name) references

-- `JNI_OnLoad`: the version, or JNI_ERR. `none`: the class was not found, and its method is asked for
-- all the same.
unfoldable pub jni_on_load : {Array : Type 0} → Vm → Native Array → Option (ℤ × Native Array)
unfolding load_class
jni_on_load vm s =
    if vm.get_env
    then (let (java_class, references) =
          load_class vm (codes "org/dousi/client/NativeRpcClient") s.references in
        do
          object ← deref java_class references
          some (
            pos 65544,
            record s {
              references = references;
              java_class = java_class;
              java_method =
                  vm.get_method_id object (codes "onReturnValueReceived") (codes "(J[B)V");
            },
          ))
    else some (negsuc 0, s)

-- `JavaStringToNativeString`
abbrev pub java_string_to_native_string : (vm : Vm) → vm.JavaString → Bytes
java_string_to_native_string vm jstr = vm.get_string_utf_chars jstr

-- `nativeNewRpcClient` of the object o: the address of the client. `none` is an exception of the
-- client's constructor, which leaves a native method.
unfoldable pub native_new :
    {Array : Type 0} (vm : Vm)
    → Spdlog
    → (Bytes × Bytes → Bool)
    → ℕ
    → vm.JavaString
    → Native Array
    → Option (ℕ × Native Array)
native_new vm spd connects o server_address s =
    let (java_object, references) = new_global_ref (some o) s.references in
    let server_addr = java_string_to_native_string vm server_address in
    let (logging, made) = native_new_rpc_client spd connects server_addr s.logging in
    do
      native_rpc_client ← made
      some (
        length s.clients,
        record s {
          references = references;
          java_object = java_object;
          clients = s.clients ++ some native_rpc_client ∷ [];
          logging = logging;
        },
      )

module _ (env : JniEnv) where
  -- `nativeInvoke`. `none`: there is no such client any more.
  unfoldable pub native_invoke_at :
      ByteOrder
      → ℕ
      → env.ByteArray
      → Native env.ByteArray
      → Option (ℤ × (Bytes × Native env.ByteArray))
  native_invoke_at o rpc_client_pointer encoded_bytes s = do
    client ← client_at rpc_client_pointer s
    (id, (wire, client')) ← native_invoke env o client encoded_bytes
    some (id, (wire, record s { clients = set s.clients rpc_client_pointer (some client') }))

  -- The lambda `on_return_value_received`. `none`: the call of a method through a reference that is
  -- null or deleted, or of no method.
  unfoldable pub call_void_method :
      Invocation → Native env.ByteArray → Option (Native env.ByteArray)
  call_void_method i s = do
    object ← deref s.java_object s.references
    method ← s.java_method
    some (record s { received = s.received ++ (object, on_return_value_received env i) ∷ [] })

  -- A message arrives at a client, whose callback is that lambda.
  unfoldable pub on_answer : ℕ → Invocation → Native env.ByteArray → Option (Native env.ByteArray)
  unfolding call_void_method
  on_answer rpc_client_pointer i s = do
    client ← client_at rpc_client_pointer s
    client' ← on_message client i
    call_void_method i (record s { clients = set s.clients rpc_client_pointer (some client') })

-- The method id is given to DeleteGlobalRef as if it were a reference.
abbrev pub delete_method : Vm → Option ℕ → List (Option ℕ) → Option (List (Option ℕ))
delete_method vm none references = some references
delete_method vm (some method) references = vm.delete_stray method references

-- `nativeDestroy`. `Close` and the destructor of the client only call Submitter::Shutdown, which does
-- nothing.
unfoldable pub native_destroy : {Array : Type 0} → Vm → ℕ → Native Array → Option (Native Array)
native_destroy vm rpc_client_pointer s = do
  client ← client_at rpc_client_pointer s
  no_class ← delete_global_ref s.java_class s.references
  no_method ← delete_method vm s.java_method no_class
  no_object ← delete_global_ref s.java_object no_method
  some (record s { references = no_object; clients = set s.clients rpc_client_pointer none })
