-- ===== src/Submitter/Pipelined.antt =====
-- Several calls of src/dousi/core/submitter before the first `Get`, as in src/tests/multiple_calls_with_no_wait.cc:
-- the answers come over the stream in whatever order the server's threads write them.
use dousi.Prelude.{
  ℕ, zero, suc, ◌%◌, ◌^◌, ◌<◌, ◌≡◌, inl, inr, ap, sym, ◌∙◌, true, false, ◌||◌, List, [], ◌∷◌, ◌++◌,
  append-nil, map, some, none, Bytes, get_elem?, All, arith,
}
use dousi.Prelude.Map.{lookup, ℕ_eq}
use dousi.Stream.{AsioStream, start}
use dousi.Stream.Word.{ByteOrder}
use dousi.Stream.Transport.{AsyncRead}
use dousi.Stream.Loop.{serve}
use dousi.Stream.Loop.RoundTrip.{Fits, rounds, write_all, call_of, serve-write_all}
use dousi.Submitter.{Submitter, cpp, get_bytes}
use dousi.Submitter.Polling.{Answers, arrives, get_bytes_returns}

-- A frame for the object, if it is one, has this body.
abbrev pub IsFor : ℕ → Bytes → ℕ × Bytes → Type 0
IsFor k b m = m.0 % 2 ^ 32 ≡ k → m.1 ≡ b

map-Answers :
    (stream_id k : ℕ) (b : Bytes) (ms : List (ℕ × Bytes))
    → All (IsFor k b) ms
    → All (Answers k b) (map (call_of stream_id) ms)
map-Answers stream_id k b [] h = tt
map-Answers stream_id k b (m ∷ ms) h = (h.0, map-Answers stream_id k b ms h.1)

arrives-map :
    (stream_id k i : ℕ) (b : Bytes) (ms : List (ℕ × Bytes))
    → k < 2 ^ 32
    → get_elem? ms i ≡ some (k, b)
    → arrives k (map (call_of stream_id) ms) ≡ true
arrives-map stream_id k i b [] small h = cc
arrives-map stream_id k zero b ((j, c) ∷ ms) small h = ground arith
arrives-map stream_id k (suc i) b (m ∷ ms) small h =
    ground (arith, arrives-map stream_id k i b ms small h)

-- At a C++ client, a call below 2 ^ 32 whose answer is among the frames that the server writes, in
-- whatever order with those of other calls: `GetObject` returns the answer, once the frames have
-- arrived, unchanged. Each body is shorter than 2 ^ 32 bytes, and no frame for the call has another
-- body.
pub get_bytes-write_all :
    (net : AsyncRead) (o : ByteOrder) (s : Submitter) (t : AsioStream) (k i : ℕ) (b : Bytes)
    (ms : List (ℕ × Bytes))
    → s.client_language ≡ cpp
    → lookup k s.cached_objects ≡ none
    → k < 2 ^ 32
    → All Fits ms
    → All (IsFor k b) ms
    → get_elem? ms i ≡ some (k, b)
    → (s' : Submitter) × (get_bytes s k
          ((serve net o (rounds ms 1) (start t) (write_all o ms)).calls ∷ [])
        ≡ some (b, s'))
get_bytes-write_all net o s t k i b ms language fresh small fits same found =
    let (calls, stopped) = serve-write_all net o t ms [] fits (omega arith) in
    let wire : write_all o ms ++ [] ≡ write_all o ms = append-nil _ in
    let arrived = ap (λ w. (serve net o (rounds ms 1) (start t) w).calls) (sym wire) ∙ calls in
    let (s', got) =
      get_bytes_returns k b (map (call_of t.stream_id) ms ∷ []) s language (inl fresh)
        (map-Answers t.stream_id k b ms same, tt)
        (inr (ap (λ x. x || false) (arrives-map t.stream_id k i b ms small found))) in
    (s', ap (λ is. get_bytes s k (is ∷ [])) arrived ∙ got)
