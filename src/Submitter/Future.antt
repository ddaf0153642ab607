-- ===== src/Submitter/Future.antt =====
-- src/dousi/core/submitter/dousi_future.h, and the decoding of `Submitter::GetObject`.
use dousi.Prelude.{ℕ, ◌≡◌, Bool, true, false, List, Option, none, some, Bytes, ◌>>=◌, arith}
use dousi.Msgpack.{Codec, Msgpack}
use dousi.Stream.{Invocation}
use dousi.Submitter.{Submitter, get_bytes}

-- `as<T>` of the unpacked bytes; `none` is an exception.
unfoldable pub decode_object : (m : Msgpack) {T : Type 0} → Codec m.Object T → Bytes → Option T
decode_object m c bytes = do object ← m.unpack bytes; c.decode object

-- GetObject<T>
unfoldable pub get_object :
    (m : Msgpack) {T : Type 0}
    → Codec m.Object T
    → Submitter
    → ℕ
    → List (List Invocation)
    → Option (T × Submitter)
unfolding decode_object
get_object m c s object_id sleeps = do
  (bytes, s') ← get_bytes s object_id sleeps
  object ← decode_object m c bytes
  some (object, s')

pub record DousiFuture (T : Type 0) : Type 0 where
  pub has_data : Bool
  pub data_ptr : Option T
  pub object_id : ℕ

abbrev pub new_future : {T : Type 0} → ℕ → DousiFuture T
new_future object_id = record { has_data = false; data_ptr = none; object_id = object_id }

-- What `Get` returns, and the future and the submitter after it.
pub record Got (T : Type 0) : Type 0 where
  pub pointer : Option T  -- nullptr is `none`
  pub future : DousiFuture T
  pub submitter : Submitter

-- `Get`, where the test of `has_data_` has been made.
unfoldable pub get_if :
    (m : Msgpack) {T : Type 0}
    → Codec m.Object T
    → Bool
    → DousiFuture T
    → Submitter
    → List (List Invocation)
    → Option (Got T)
get_if m c true f s sleeps = some (record { pointer = f.data_ptr; future = f; submitter = s })
get_if m c false f s sleeps = do
  (object, s') ← get_object m c s f.object_id sleeps
  some (record {
    pointer = some object;
    future = record f { has_data = true; data_ptr = some object };
    submitter = s';
  })

-- `Get`; `none`: it still polls, or it throws.
unfoldable pub get :
    (m : Msgpack) {T : Type 0}
    → Codec m.Object T
    → DousiFuture T
    → Submitter
    → List (List Invocation)
    → Option (Got T)
unfolding get_if
get m c f s sleeps = get_if m c f.has_data f s sleeps

-- `HasData`
abbrev pub has_data : {T : Type 0} → DousiFuture T → Bool
has_data f = f.has_data

-- A future that was read once keeps its value: a later `Get`, of whatever submitter and whatever
-- arrives, waits for nothing and returns the same, with the future and the submitter as they are.
pub get_again :
    (m : Msgpack) {T : Type 0} (c : Codec m.Object T) (f : DousiFuture T) (s s' : Submitter)
    (sleeps sleeps' : List (List Invocation)) (g : Got T)
    → f.has_data ≡ false
    → get m c f s sleeps ≡ some g
    → get m c g.future s' sleeps'
      ≡ some (record { pointer = g.pointer; future = g.future; submitter = s' })
unfolding get get_object
get_again m c f s s' sleeps sleeps' g fresh e = ground arith
