-- ===== src/Stream/Tests.antt =====
-- The stream of src/dousi/core/stream/stream.cc at concrete input: two frames on the wire.
use dousi.Prelude.{ℕ, ◌+◌, ◌^◌, ◌≤◌, ◌≡◌, refl, List, [], ◌∷◌, ◌++◌, Bytes, codes, arith}
use dousi.Stream.{AsioStream, new_stream, header, body, stopped, start, write, complete}
use dousi.Stream.Word.{little, big, word_bytes}
use dousi.Stream.Transport.{closing, received}
use dousi.Stream.Loop.{serve}
use dousi.Stream.Loop.RoundTrip.{call_of, write_all, then_serve, serve-write, serve-write_all}
use dousi.Stream.Loop.Soundness.{frames_of, start_sound}
use dousi.Stream.Loop.Order.{complete-word_bytes_mixed}

abbrev messages : List (ℕ × Bytes)
messages = (7, codes "add") ∷ (2 ^ 32 + 8, []) ∷ []

abbrev stream : AsioStream
stream = new_stream 3

write_test : write little 258 (codes "hi") ≡ 2 ∷ 1 ∷ 0 ∷ 0 ∷ 2 ∷ 0 ∷ 0 ∷ 0 ∷ 104 ∷ 105 ∷ []
unfolding write word_bytes
write_test = refl

serve-write_example :
    serve closing little 3 (start stream) (write little 9 (codes "ok") ++ [])
    ≡ then_serve (call_of 3 (9, codes "ok") ∷ []) (serve closing little 0 (start stream) [])
serve-write_example = serve-write closing little 0 stream 9 (codes "ok") []

serve-write_all_example :
    let done = serve closing little 7 (start stream) (write_all little messages ++ 1 ∷ []) in
    (done.calls
      ≡ record { stream_id = 3; object_id = 7; body = codes "add" }
        ∷ record { stream_id = 3; object_id = 8; body = [] }
        ∷ [])
    × (done.stream ≡ record stream { reading = stopped })
serve-write_all_example =
    serve-write_all closing little stream messages (1 ∷ []) (omega arith) (omega arith)

start_sound_example :
    (left : Bytes) × (1 ∷ 2 ∷ 3 ∷ 4 ∷ 5 ∷ []
      ≡ frames_of big (serve closing big 3 (start stream) (1 ∷ 2 ∷ 3 ∷ 4 ∷ 5 ∷ [])).calls ++ left)
start_sound_example = start_sound closing big 3 stream (1 ∷ 2 ∷ 3 ∷ 4 ∷ 5 ∷ []) (omega arith)

complete-word_bytes_mixed_example :
    (size : ℕ) × ((complete big stream (header 1) (received (word_bytes little 2))).0.reading
      ≡ body 1 size)
    × (2 ^ 16 ≤ size)
complete-word_bytes_mixed_example =
    complete-word_bytes_mixed little big stream 1 (codes "hi") (λ e. cc) (omega arith) (omega arith)
