-- ===== src/Submitter.antt =====
-- src/dousi/core/submitter/submitter.h and submitter.cc: the client's half of the program. Its
-- futures and service handles are in Submitter/Future and Submitter/Handle.
--
-- The io thread and the callers share the record: the io thread runs `on_message`, the callers run
-- the rest, and `mutex_` makes each access of `cached_objects_` one step. What a socket does is left
-- to the environment: `submit` returns the bytes for the wire. Log lines are left out.
pub mod Future
pub mod Handle
pub mod ObjectIds
pub mod Polling
pub mod Pipelined
mod Tests
use dousi.Prelude.{
  ℕ, ◌+◌, ◌%◌, ◌^◌, Bool, true, false, List, [], ◌∷◌, ◌++◌, Option, none, some, Bytes, ◌>>=◌,
  if◌then◌else◌,
}
use dousi.Prelude.Map.{Map, lookup, insert, ℕ_eq}
use dousi.Endpoint.{endpoint, resolve_query}
use dousi.Stream.{AsioStream, Invocation, new_stream, start, write}
use dousi.Stream.Word.{ByteOrder}

pub data ClientLanguage : Type 0 where
  cpp java : ClientLanguage

pub record Submitter : Type 0 where
  pub curr_object_id : ℕ  -- std::atomic<uint64_t>
  pub cached_objects : Map ℕ Bytes
  pub client_language : ClientLanguage
  pub has_callback : Bool  -- on_rpc_returned_callback_ != nullptr
  pub stream : Option AsioStream  -- nullptr until `Init`
  pub returned : List (ℕ × Bytes)  -- the calls made of on_rpc_returned_callback_, in order

-- The constructors.
abbrev pub new_submitter : ClientLanguage → Bool → Submitter
new_submitter language callback = record {
  curr_object_id = 0;
  cached_objects = [];
  client_language = language;
  has_callback = callback;
  stream = none;
  returned = [];
}

abbrev pub default_submitter : Submitter
default_submitter = new_submitter cpp false

-- `DoConnect`: `connects` says whether resolving and connecting succeed; otherwise they throw.
unfoldable pub do_connect : (Bytes × Bytes → Bool) → Bytes × Bytes → Submitter → Option Submitter
do_connect connects query s =
    if connects query then some (record s { stream = some (new_stream 0) }) else none

abbrev start_stream : Option AsioStream → Option AsioStream
start_stream none = none
start_stream (some t) = some (start t)

-- `Init`; `none` is an exception of the address or of the connection.
unfoldable pub init : (Bytes × Bytes → Bool) → Bytes → Submitter → Option Submitter
unfolding do_connect
init connects server_address s = do
  e ← endpoint server_address
  connected ← do_connect connects (resolve_query e) s
  some (record connected { stream = start_stream connected.stream })

-- `Submit`: the bytes for the wire. The name of the method is not used. `none`: no stream yet, a null
-- pointer is used.
unfoldable pub submit : ByteOrder → Submitter → ℕ → Bytes → Bytes → Option Bytes
submit o s object_id method_name buffer = elim s.stream [
  | none ↦ none
  | some t ↦ some (write o object_id buffer)
]

-- `Shutdown`
abbrev pub shutdown : Submitter → Submitter
shutdown s = s

-- `RequestObjectID`
unfoldable pub request_object_id : Submitter → ℕ × Submitter
request_object_id s =
    (s.curr_object_id, record s { curr_object_id = (s.curr_object_id + 1) % 2 ^ 64 })

-- The part of the invocation callback for each language. A null callback is reported by
-- DOUSI_CHECK, which goes on, and the call of it throws std::bad_function_call.
unfoldable pub deliver : ClientLanguage → Submitter → Invocation → Option Submitter
deliver java s i =
    if s.has_callback
    then some (record s { returned = s.returned ++ ((i.object_id, i.body) ∷ []) })
    else none
deliver cpp s i = some (record s { cached_objects = insert i.object_id i.body s.cached_objects })

-- The invocation callback that `DoConnect` gives to the stream.
unfoldable pub on_message : Submitter → Invocation → Option Submitter
unfolding deliver
on_message s i = deliver s.client_language s i

unfoldable pub on_messages : Submitter → List Invocation → Option Submitter
unfolding on_message
on_messages s [] = some s
on_messages s (i ∷ is) = do s' ← on_message s i; on_messages s' is

-- The loop of `GetObject`, one entry of the list for each sleep: the messages that arrive during it.
-- `none`: it still polls when the list ends, or the io thread has thrown.
unfoldable pub get_bytes : Submitter → ℕ → List (List Invocation) → Option (Bytes × Submitter)
unfolding on_messages
get_bytes s object_id [] = elim (lookup object_id s.cached_objects) [
  | some bytes ↦ some (bytes, s)
  | none ↦ none
]
get_bytes s object_id (sleep ∷ sleeps) = elim (lookup object_id s.cached_objects) [
  | some bytes ↦ some (bytes, s)
  | none ↦ elim (on_messages s sleep) [ none ↦ none | some s' ↦ get_bytes s' object_id sleeps ]
]
