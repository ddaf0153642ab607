-- ===== src/Stream/Loop.antt =====
-- The chain of reads of src/dousi/core/stream/stream.cc: each handler posts the next read, and the
-- io_service runs one handler after the other.
pub mod RoundTrip
pub mod Order
pub mod Soundness
use dousi.Prelude.{ℕ, zero, suc, List, [], ◌∷◌, ◌++◌, Option, none, some, Bytes}
use dousi.Stream.{AsioStream, Invocation, complete, wanted}
use dousi.Stream.Word.{ByteOrder}
use dousi.Stream.Transport.{AsyncRead}

abbrev pub optional : Option Invocation → List Invocation
optional none = []
optional (some i) = i ∷ []

-- The stream after some handlers have run, the callbacks that they made, in order, and what the
-- peer sent that is not read yet.
pub record Served : Type 0 where
  pub stream : AsioStream
  pub calls : List Invocation
  pub unread : Bytes

module _ (transport : AsyncRead) (o : ByteOrder) where
  -- At most `fuel` handlers: a read is taken from the wire and its handler runs.
  pub serve : ℕ → AsioStream → Bytes → Served
  serve zero s wire = record { stream = s; calls = []; unread = wire }
  serve (suc fuel) s wire = elim (wanted s.reading) [
    | none ↦ record { stream = s; calls = []; unread = wire }
    | some n ↦
        let (completion, rest) = transport.read n wire in
        let (s', call) = complete o s s.reading completion in
        let later = serve fuel s' rest in
        record {
          stream = later.stream;
          calls = optional call ++ later.calls;
          unread = later.unread;
        }
  ]
