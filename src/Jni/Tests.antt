-- ===== src/Jni/Tests.antt =====
-- A Java client with one call on its way.
use dousi.Prelude.{
  none, zero, suc, length, take, drop, ◌++◌, ℕ, ◌+◌, ◌^◌, ◌≡◌, refl, true, List, [], ◌∷◌, some,
  Bytes, codes, arith,
}
use dousi.Stream.{Invocation, AsioStream, new_stream, start}
use dousi.Stream.Word.{little}
use dousi.Stream.Transport.{closing}
use dousi.Stream.Loop.{serve}
use dousi.Stream.Loop.RoundTrip.{rounds, write_all}
use dousi.Submitter.{Submitter, java, new_submitter, on_messages}
use dousi.Jni.{invoke}
use dousi.Jni.Arrays.{JniEnv, native_invoke, java_byte_array_to_native_string}
use dousi.Jni.Callbacks.{on_messages-write_all}

abbrev stream : AsioStream
stream = start (new_stream 0)

abbrev client : Submitter
client = record (new_submitter java true) { stream = some stream; curr_object_id = 7 }

abbrev answers : List (ℕ × Bytes)
answers = (7, codes "a") ∷ (2 ^ 32 + 8, codes "bc") ∷ []

on_messages-write_all_example :
    on_messages client
      (serve closing little (rounds answers 1) (start stream) (write_all little answers)).calls
    ≡ some (record client { returned = (7, codes "a") ∷ (8, codes "bc") ∷ [] })
on_messages-write_all_example =
    on_messages-write_all closing little client stream answers refl refl
      (omega arith, (omega arith, tt))

-- A JNIEnv whose arrays are lists.
abbrev pub zeros : ℕ → Bytes
zeros zero = []
zeros (suc n) = 0 ∷ zeros n

abbrev pub set_region : Bytes → ℕ → ℕ → Bytes → Bytes
set_region a start n buffer = take start a ++ (take n buffer ++ drop (start + n) a)

abbrev pub env : JniEnv
env = record {
  ByteArray = Bytes;
  new_byte_array = zeros;
  get_array_length = length;
  set_byte_array_region = set_region;
  get_byte_array_region = λ a start n. take n (drop start a);
}

abbrev pub message : Invocation
message = record { stream_id = 0; object_id = 7; body = codes "a" }

-- An array that is not empty is given to `Invoke` as it is; an empty one is undefined.
native_invoke_test :
    (native_invoke env little client (codes "q") ≡ invoke little client (codes "q"))
    × (native_invoke env little client [] ≡ none)
unfolding native_invoke java_byte_array_to_native_string
native_invoke_test = (refl, refl)
