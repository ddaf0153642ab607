-- ===== src/Testing/Dangling.antt =====
-- Which requests the server of src/tests/test_utils/basic_server_for_test.cc can perform.
use dousi.Prelude.{◌≡◌, true, false, if◌then◌else◌, Bool, List, [], ◌∷◌, Option, some, Bytes, codes}
use dousi.Prelude.Map.{Map, lookup, Bytes_eq}
use dousi.Msgpack.{Msgpack}
use dousi.Logging.{Logging}
use dousi.Queue.LockFree.{LockFree}
use dousi.Executor.{Executor, Outcome, fault, bad_function_call, dangling_service}
use dousi.Testing.Blocks.{IsDangling}

-- The method that is bound under a name, if there is one.
is_bound : {A : Type 0} → Option (Option A) → Bool
is_bound (some (some b)) = true
is_bound _ = false

abbrev pub has_name : Bytes → List Bytes → Bool
has_name name [] = false
has_name name (n ∷ names) = if Bytes_eq.beq n name then true else has_name name names

IsNamed : {A : Type 0} → List Bytes → Map Bytes (Option A) → Type 0
IsNamed names m = (name : Bytes) → is_bound (lookup name m) ≡ has_name name names

-- What a call does of a method that is dangling, or of one that is not registered.
abbrev failure : {A : Type 0} → Bool → Outcome A
failure registered = if registered then fault dangling_service else fault bad_function_call

-- As `Init` leaves the executor: nothing is queued, and no method is registered.
IsUnused : {m : Msgpack} {l : LockFree} {S : Type 0} → Executor m l S → Type 0
IsUnused made = IsDangling made × (made.registered_methods ≡ [])

-- The names that the four blocks register.
abbrev pub method_names : List Bytes
method_names =
    codes "Get" ∷ codes "Perform" ∷ codes "IncrAge" ∷ codes "sub" ∷ codes "add" ∷ codes "echo" ∷ []
