-- ===== src/Rpc/Session.antt =====
-- A client that makes one call after another, as src/examples/client.cc and src/tests/basic_call_test.cc
-- do: the objects at the server stand in for objects in the client's own process.
mod Tests
use dousi.Prelude.{
  >>=-eq-some, some_pair, ℕ, ◌+◌, ◌^◌, ◌<◌, ◌≤◌, ◌≡◌, refl, ap, sym, subst, ◌∙◌, List, [], ◌∷◌,
  Option, none, some, Bytes, length, get_elem?, set, All, true, ltb, ◌>>=◌, arith,
}
use dousi.Msgpack.{Codec, Types, Tuple, Msgpack, pack_args_to_buffer}
use dousi.Traits.{value, RemoteMethod, with_names, serialize_result}
use dousi.Stream.Word.{ByteOrder}
use dousi.Stream.Transport.{AsyncRead}
use dousi.Queue.LockFree.{LockFree}
use dousi.Executor.{Executor}
use dousi.Prelude.Map.{lookup, ℕ_eq, Bytes_eq}
use dousi.Stream.{AsioStream}
use dousi.Executor.Threads.Answers.{IsEmpty}
use dousi.Executor.Dispatch.{IsRegistered}
use dousi.Submitter.{Submitter}
use dousi.Submitter.Future.{decode_object}
use dousi.Submitter.Handle.{get_service}
use dousi.Rpc.Exchange.{round_trip, IsReady, IsServing, answered, answered-IsReady}
use dousi.Rpc.Exchange.Whole.{exchange}

-- A call of a method that returns a value, its arguments, and the service that it was registered for:
-- the address of the DousiService and the index of its object.
pub record MethodCall (Object S : Type 0) : Type 1 where
  pub service_name : Bytes
  pub method_name : Bytes
  pub Returned : Type 0
  pub codec : Codec Object Returned
  pub types : Types Object
  pub method : Tuple types → S → Returned × S
  pub args : Tuple types
  pub address : ℕ
  pub index : ℕ

module _ {Object S : Type 0} where
  abbrev pub remote : MethodCall Object S → RemoteMethod Object S
  remote c = record {
    method_name = c.method_name;
    traits = record { return_type = value c.Returned c.codec; args = c.types };
    method = c.method;
  }

  -- What the calls return, one after the other.
  abbrev pub Results : List (MethodCall Object S) → Type 0
  Results [] = Unit
  Results (c ∷ cs) = c.Returned × Results cs

  -- The calls on objects in the same process; `none`: there is no such object.
  unfoldable pub run_local :
      (cs : List (MethodCall Object S)) → List S → Option (Results cs × List S)
  run_local [] objects = some (tt, objects)
  run_local (c ∷ cs) objects = do
    object ← get_elem? objects c.index
    let (r, object') = c.method c.args object
    (rs, objects') ← run_local cs (set objects c.index object')
    some ((r, rs), objects')

module _ (net : AsyncRead) (o : ByteOrder) (m : Msgpack) {l : LockFree} {S : Type 0} where
  -- `handle.Call(method, args...).Get()` for each call.
  unfoldable pub run_remote :
      (stream_id : ℕ) (cs : List (MethodCall m.Object S)) (s : Submitter) (e : Executor m l S)
      → Option (Results cs × Submitter × Executor m l S)
  run_remote stream_id [] s e = some (tt, s, e)
  run_remote stream_id (c ∷ cs) s e = do
    (pointer, s', e') ←
        round_trip net o m s (get_service c.service_name) (remote c) c.types c.args c.codec
          stream_id e
    r ← pointer
    (rs, s'', e'') ← run_remote stream_id cs s' e'
    some ((r, rs), s'', e'')

module _ (m : Msgpack) {S : Type 0} where
  -- The packed call, and the packed result on this object, fit into a frame each.
  abbrev pub FitsOn : MethodCall m.Object S → S → Type 0
  FitsOn c object =
      (length
          (pack_args_to_buffer m (with_names m c.types) (c.service_name, (c.method_name, c.args)))
        < 2 ^ 32)
      × (length (m.pack (c.codec.encode (c.method c.args object).0)) < 2 ^ 32)

  -- So does each call of a sequence, on the objects as the calls before it leave them.
  abbrev pub FitAll : List (MethodCall m.Object S) → List S → Type 0
  FitAll [] objects = Unit
  FitAll (c ∷ cs) objects =
      (object : S)
      → get_elem? objects c.index ≡ some object
      → FitsOn c object × FitAll cs (set objects c.index (c.method c.args object).1)

-- A server with work threads and nothing on its way, to which the stream is known.
pub record IsOpen {m : Msgpack} {l : LockFree} {S : Type 0} (e : Executor m l S) (stream_id : ℕ)
    : Type 0 where
  pub nothing_queued : IsEmpty e
  pub threads : ltb 0 e.executor_options.work_thread_num ≡ true
  pub stream : (t : AsioStream) × (lookup stream_id e.streams ≡ some t)

module _ {m : Msgpack} {l : LockFree} {S : Type 0} where
  -- The method is registered, for a service that is alive.
  abbrev pub IsOffered : Executor m l S → MethodCall m.Object S → Type 0
  IsOffered e c =
      IsRegistered e c.address (remote c) × (get_elem? e.services c.address ≡ some (some c.index))

  All-IsOffered :
      (e e' : Executor m l S) (cs : List (MethodCall m.Object S))
      → e'.registered_methods ≡ e.registered_methods
      → e'.services ≡ e.services
      → All (IsOffered e) cs
      → All (IsOffered e') cs
  All-IsOffered e e' [] same alive h = tt
  All-IsOffered e e' (c ∷ cs) same alive h = (
    (rw same h.0.0, ap (λ services. get_elem? services c.address) alive ∙ h.0.1),
    All-IsOffered e e' cs same alive h.1,
  )

module _ (net : AsyncRead) (o : ByteOrder) (m : Msgpack) {l : LockFree} {S : Type 0} where
  one_call :
      (s : Submitter) (c : MethodCall m.Object S) (e : Executor m l S) (object : S) (stream_id : ℕ)
      → IsReady s
      → IsOpen e stream_id
      → IsOffered e c
      → get_elem? e.objects c.index ≡ some object
      → FitsOn m c object
      → let r = (c.method c.args object).0 in
        (e' : Executor m l S) × (round_trip net o m s
            (get_service c.service_name)
            (remote c)
            c.types
            c.args
            c.codec
            stream_id
            e
          ≡ some (some r, answered s (m.pack (c.codec.encode r)), e'))
        × (e'.objects ≡ set e.objects c.index (c.method c.args object).1)
        × IsOpen e' stream_id
        × (e'.registered_methods ≡ e.registered_methods)
        × (e'.services ≡ e.services)
  unfolding decode_object serialize_result
  one_call s c e object stream_id ready open_ offered held fits =
      let r = (c.method c.args object).0 in
      let serving : IsServing e c.address c.index object stream_id = record {
        live = offered.1;
        object_held = held;
        nothing_queued = open_.nothing_queued;
        threads = open_.threads;
        stream = open_.stream;
      } in
      let (e', trip, changed, serving', same, alive) =
        exchange net o m s c.service_name c.method_name (value c.Returned c.codec) c.types c.method
          c.args c.codec e c.address c.index object stream_id ready serving offered.0 fits.0
          fits.1 in
      (
        e',
        trip ∙ rw (m.unpack-pack (c.codec.encode r), c.codec.decode-encode r) refl,
        changed,
        record {
          nothing_queued = serving'.nothing_queued;
          threads = serving'.threads;
          stream = serving'.stream;
        },
        same,
        alive,
      )

  -- Remote objects are as good as local ones: at a client that is ready and a server that is open, a
  -- sequence of calls of methods that return a value and are registered for services that are alive, one
  -- call after the other, returns to the client exactly what the calls return on the objects themselves, and leaves
  -- the objects at the server as the calls leave them. With the calls made before they are fewer
  -- than 2 ^ 32, and each packed call and each packed result is below 2 ^ 32 bytes.
  pub run_remote-run_local :
      (cs : List (MethodCall m.Object S)) (s : Submitter) (e : Executor m l S) (stream_id : ℕ)
      (rs : Results cs) (objects : List S)
      → IsReady s
      → IsOpen e stream_id
      → All (IsOffered e) cs
      → s.curr_object_id + length cs < 2 ^ 32
      → FitAll m cs e.objects
      → run_local cs e.objects ≡ some (rs, objects)
      → (s' : Submitter) × (e' : Executor m l S) × (run_remote net o m stream_id cs s e
          ≡ some (rs, s', e'))
        × (e'.objects ≡ objects)
        × IsReady s'
        × IsOpen e' stream_id
  unfolding run_remote run_local
  run_remote-run_local [] s e stream_id rs objects ready open_ offered few fits h =
      let (returned, kept) = some_pair h in
      (s, e, ap (λ r. some (r, s, e)) returned, kept, ready, open_)
  run_remote-run_local (c ∷ cs) s e stream_id rs objects ready open_ offered few fits h =
      let (object, held, went_on) = >>=-eq-some (get_elem? e.objects c.index) _ h in
      let ((later, left), ran, done) =
        >>=-eq-some (run_local cs (set e.objects c.index (c.method c.args object).1)) _ went_on in
      let (returned, kept) = some_pair done in
      let fit = fits object held in
      let (e', trip, changed, open', same, alive) =
        one_call s c e object stream_id ready open_ offered.0 held fit.0 in
      let s' = answered s (m.pack (c.codec.encode (c.method c.args object).0)) in
      let (s'', e'', rest, objects', ready'', open'') =
        run_remote-run_local cs s' e' stream_id later left
          (answered-IsReady s _ ready (omega arith)) open'
          (All-IsOffered e e' cs same alive offered.1) (omega arith)
          (subst (FitAll m cs) (sym changed) fit.1) (ap (run_local cs) changed ∙ ran) in
      (
        s'',
        e'',
        rw (trip, rest) (ap (λ r. some (r, s'', e'')) returned),
        objects' ∙ kept,
        ready'',
        open'',
      )
