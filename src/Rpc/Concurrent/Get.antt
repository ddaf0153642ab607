-- ===== src/Rpc/Concurrent/Get.antt =====
-- `Get` of a call among many, of src/dousi/core/submitter/dousi_future.h.
use dousi.Prelude.{
  true, ℕ, ◌^◌, ◌<◌, ◌≡◌, refl, sym, ap, ◌∙◌, List, [], ◌∷◌, ◌++◌, none, some, Bytes, get_elem?,
  All, Has, Has-All, Has-get_elem?, some_inj,
}
use dousi.Prelude.Map.{lookup, ℕ_eq, Bytes_eq}
use dousi.Msgpack.{Codec, Types, Tuple, Msgpack, pack_args_to_buffer}
use dousi.Traits.{value, RemoteMethod, with_names, names, serialize_result}
use dousi.Traits.Laws.{request_object, as_tuple-names}
use dousi.Stream.{AsioStream, start}
use dousi.Stream.Word.{ByteOrder}
use dousi.Stream.Transport.{AsyncRead}
use dousi.Stream.Loop.{serve}
use dousi.Stream.Loop.RoundTrip.{Fits, rounds}
use dousi.Queue.LockFree.{LockFree}
use dousi.Executor.{Executor, ok, call_method}
use dousi.Executor.Dispatch.{IsRegistered, request_for}
use dousi.Executor.Request.{DousiRequest, DousiResponse}
use dousi.Executor.Threads.{System, Reach, started}
use dousi.Executor.Threads.Keys.{Key, tally}
use dousi.Executor.Threads.Invariant.{itself, request_key, response_key}
use dousi.Executor.Threads.Answers.{IsEmpty, IsQuiet}
use dousi.Executor.Threads.Serial.{run_serial}
use dousi.Executor.Threads.Log.{Message, taken_in, emitted}
use dousi.Executor.Threads.Serializable.{serial_log, Reach-Logged}
use dousi.Executor.Threads.Emitted.{wire_to, answers_to, wire_to-write_all, answers_to-Has}
use dousi.Submitter.{Submitter, cpp}
use dousi.Submitter.Future.{new_future, get, get_object, decode_object}
use dousi.Submitter.Pipelined.{get_bytes-write_all}
use dousi.Rpc.Concurrent.Calls.{called_method}
use dousi.Rpc.Concurrent.Answers.{answered_at, answers-IsFor}

module _ {m : Msgpack} {l : LockFree} {S : Type 0} {o : ByteOrder} (e : Executor m l S)
    {s : System m l S} (empty : IsEmpty e) (reach : Reach o (started e) s) where
  -- A call among many: at a server on which nothing was queued, which has performed and answered all
  -- that it took in, under whatever schedule of its threads and with whatever other messages of this
  -- client and of others, a C++ client that reads the answers on its connection gets from the future
  -- of its call what the method returns at its arguments and the object of its service, as the
  -- requests that stand before the request of the call in the serial order of the run have left it.
  -- That order is one for all calls: one thread that performs it from the first objects on ends with
  -- the objects as they are. The call arrived, its method is registered for a service that is alive,
  -- its ids arrived once, all object ids are below 2 ^ 32, no answer to this client has 2 ^ 32 bytes or
  -- more, and no two of them are written at once.
  pub get-serial_log :
      (net : AsyncRead) (client : Submitter) (t : AsioStream) (stream_id k : ℕ) (address index : ℕ)
      (service_name method_name : Bytes) (R : Type 0) (codec : Codec m.Object R)
      (ts : Types m.Object) (method : Tuple ts → S → R × S) (args : Tuple ts)
      → IsQuiet s
      → IsRegistered e address (record {
        method_name = method_name;
        traits = record { return_type = value R codec; args = ts };
        method = method;
      })
      → get_elem? e.services address ≡ some (some index)
      → tally itself (stream_id, k) s.arrived ≡ 1
      → Has
          (
            stream_id,
            (k, pack_args_to_buffer m (with_names m ts) (service_name, (method_name, args))),
          )
          (taken_in reach)
      → All (λ (x : Message). x.1.0 < 2 ^ 32) (taken_in reach)
      → All Fits (answers_to stream_id (emitted reach))
      → client.client_language ≡ cpp
      → lookup k client.cached_objects ≡ none
      → (before : List (DousiRequest m)) × (after : List (DousiRequest m)) × (object : S)
        × (objects : List S) × (done : List DousiResponse) × (all_done : List DousiResponse)
        × (client' : Submitter) × (serial_log e empty reach
            ≡ before
              ++ request_for k stream_id service_name
                  (record {
                    method_name = method_name;
                    traits = record { return_type = value R codec; args = ts };
                    method = method;
                  })
                  args
                ∷ after)
        × (run_serial e (serial_log e empty reach) e.objects ≡ ok (all_done, s.executor.objects))
        × (run_serial e before e.objects ≡ ok (done, objects))
        × (get_elem? objects index ≡ some object)
        × (get m codec (new_future k) client (
              (serve net o
                (rounds (answers_to stream_id (emitted reach)) 1)
                (start t)
                (wire_to stream_id reach)).calls
              ∷ [])
            ≡ some (record {
              pointer = some (method args object).0;
              future = record {
                has_data = true;
                data_ptr = some (method args object).0;
                object_id = k;
              };
              submitter = client';
            }))
  unfolding get get_object decode_object pack_args_to_buffer serialize_result
  get-serial_log net client t stream_id k address index service_name method_name R codec ts method
        args quiet registered live once asked small fits language fresh =
      let rm : RemoteMethod m.Object S = record {
        method_name = method_name;
        traits = record { return_type = value R codec; args = ts };
        method = method;
      } in
      let sent_object = request_object m service_name method_name ts args in
      let buffer = pack_args_to_buffer m (with_names m ts) (service_name, (method_name, args)) in
      let (d, written, key_, at, sent, unpacks) =
        answered_at e empty reach stream_id k buffer quiet once asked in
      let carried : at.request.unpacked ≡ sent_object =
        some_inj (sym unpacks ∙ m.unpack-pack sent_object) in
      let named : at.request.method_name ≡ method_name =
        ap (λ (n : Tuple (names m)). n.1.0)
          (some_inj (
            sym sent.named
            ∙ ap (m.as_tuple (names m)) carried
            ∙ as_tuple-names m service_name method_name ts args)) in
      let now = record e { objects = at.objects } in
      let (object, held, result) =
        called_method e address index rm at.objects service_name args at.called registered live
          (sym (λ i. call_method now (named i) (carried i)) ∙ at.calls) in
      let body : d.result ≡ m.pack (codec.encode (method args object).0) =
        sym (ap (λ (d : DousiResponse). d.result) at.gives) ∙ result in
      let answers = answers_to stream_id (emitted reach) in
      let ids : request_key at.request ≡ (stream_id, k) = ap response_key at.gives ∙ key_ in
      let itself_ : at.request ≡ request_for k stream_id service_name rm args = λ i. record {
        object_id = (ids i).1;
        stream_id = (ids i).0;
        unpacked = carried i;
        method_name = named i;
      } in
      let to : d.stream_id ≡ stream_id = ap (λ (k : Key). k.0) key_ in
      let (i, place) =
        Has-get_elem? (d.object_id, d.result) answers
          (answers_to-Has stream_id d (emitted reach) to written) in
      let found = place ∙ ap (λ (k : Key). some (k.1, d.result)) key_ in
      let small_k =
        Has-All (λ (x : Message). x.1.0 < 2 ^ 32) (taken_in reach) (stream_id, (k, buffer)) small
          asked in
      let (client', got) =
        get_bytes-write_all net o client t k i d.result answers language fresh small_k fits
          (answers-IsFor e empty reach stream_id k d once small written key_) found in
      (
        at.before,
        at.after,
        object,
        at.objects,
        at.done,
        (Reach-Logged e empty reach).done,
        client',
        at.split ∙ ap (λ r. at.before ++ r ∷ at.after) itself_,
        (Reach-Logged e empty reach).ran.ran,
        at.ran,
        held,
        rw
            (
              wire_to-write_all stream_id reach,
              got,
              body,
              m.unpack-pack (codec.encode (method args object).0),
              codec.decode-encode (method args object).0,
            )
            refl,
      )
