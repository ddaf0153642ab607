-- ===== src/Jni/Callbacks.antt =====
-- The answers that a client of src/dousi/jni gets.
use dousi.Prelude.{
  ℕ, ◌%◌, ◌^◌, ◌≡◌, refl, ap, sym, ◌∙◌, true, List, [], ◌∷◌, ◌++◌, append-nil, append_assoc, map,
  some, Bytes, arith, All,
}
use dousi.Stream.{AsioStream, Invocation, start}
use dousi.Stream.Word.{ByteOrder}
use dousi.Stream.Transport.{AsyncRead}
use dousi.Stream.Loop.{serve}
use dousi.Stream.Loop.RoundTrip.{Fits, rounds, write_all, call_of, serve-write_all}
use dousi.Submitter.{Submitter, java, deliver, on_message, on_messages}

abbrev pub given : Invocation → ℕ × Bytes
given i = (i.object_id, i.body)

deliver_java :
    (s : Submitter) (i : Invocation)
    → s.client_language ≡ java
    → s.has_callback ≡ true
    → on_message s i ≡ some (record s { returned = s.returned ++ (given i ∷ []) })
unfolding on_message deliver
deliver_java s i e c = rw (e, c) refl

-- A Java client with a callback hands each message to it, once and in order, and caches nothing.
pub on_messages-java :
    (is : List Invocation) (s : Submitter)
    → s.client_language ≡ java
    → s.has_callback ≡ true
    → on_messages s is ≡ some (record s { returned = s.returned ++ map given is })
unfolding on_messages
on_messages-java [] s e c = ap (λ r. some (record s { returned = r })) (sym (append-nil s.returned))
on_messages-java (i ∷ is) s e c = rw (deliver_java s i e c) (
    on_messages-java is (record s { returned = s.returned ++ (given i ∷ []) }) e c
    ∙ ap (λ r. some (record s { returned = r }))
        (append_assoc s.returned (given i ∷ []) (map given is)))

-- The pair that the callback is given for a frame.
abbrev pub answer_of : ℕ × Bytes → ℕ × Bytes
answer_of (object_id, bytes) = (object_id % 2 ^ 32, bytes)

map-given :
    (stream_id : ℕ) (ms : List (ℕ × Bytes))
    → map given (map (call_of stream_id) ms) ≡ map answer_of ms
map-given stream_id [] = refl
map-given stream_id (m ∷ ms) = ap (◌∷◌ (answer_of m)) (map-given stream_id ms)

-- The server's answers, each shorter than 2 ^ 32 bytes, reach the callback of a Java client once each,
-- in the order in which they were written and with their bodies unchanged, with the object ids
-- modulo 2 ^ 32, in whatever pieces the socket delivers them.
pub on_messages-write_all :
    (net : AsyncRead) (o : ByteOrder) (s : Submitter) (t : AsioStream) (ms : List (ℕ × Bytes))
    → s.client_language ≡ java
    → s.has_callback ≡ true
    → All Fits ms
    → on_messages s (serve net o (rounds ms 1) (start t) (write_all o ms)).calls
      ≡ some (record s { returned = s.returned ++ map answer_of ms })
on_messages-write_all net o s t ms language callback fits =
    let (calls, stopped) = serve-write_all net o t ms [] fits (omega arith) in
    let wire : write_all o ms ++ [] ≡ write_all o ms = append-nil _ in
    ap (λ w. on_messages s (serve net o (rounds ms 1) (start t) w).calls) (sym wire)
    ∙ ap (on_messages s) calls
    ∙ on_messages-java (map (call_of t.stream_id) ms) s language callback
    ∙ ap (λ r. some (record s { returned = s.returned ++ r })) (map-given t.stream_id ms)
