-- ===== src/Stream/Writes/Tests.antt =====
-- Two frames, one after the other and at once.
use dousi.Prelude.{ℕ, ◌≡◌, refl, [], ◌∷◌, ◌++◌, map, take, drop, Bytes, codes, arith}
use dousi.Stream.{AsioStream, new_stream, start, write}
use dousi.Stream.Word.{little, word_bytes}
use dousi.Stream.Transport.{closing}
use dousi.Stream.Loop.{serve}
use dousi.Stream.Loop.RoundTrip.{call_of, write_all, then_serve}
use dousi.Stream.Writes.{Socket, IsIdle, begin_write, Sent, nothing, begins, goes_on, Always}
use dousi.Stream.Writes.Order.{left_of, OneAtATime, Sent-IsIdle, Sent-write_all}
use dousi.Stream.Writes.Torn.{torn, serve-torn}

abbrev add_call : ℕ × Bytes
add_call = (7, codes "add")

abbrev sub_call : ℕ × Bytes
sub_call = (8, codes "sub")

abbrev peer : AsioStream
peer = new_stream 3

-- Five bytes of the first frame have gone.
abbrev five_gone : Socket
five_gone = record { wire = 7 ∷ 0 ∷ 0 ∷ 0 ∷ 3 ∷ []; in_flight = (0 ∷ 0 ∷ 0 ∷ codes "add") ∷ [] }

five_gone-Sent : Sent little IsIdle (add_call ∷ []) five_gone
unfolding begin_write write word_bytes
five_gone-Sent =
    goes_on (begins nothing tt add_call) 0 5 (write little 7 (codes "add")) refl (omega arith)
      (omega arith)

-- Both frames have gone, the second after the first.
abbrev done : Socket
done = record {
  wire = write little 7 (codes "add") ++ write little 8 (codes "sub");
  in_flight = [] ∷ [] ∷ [];
}

done-Sent : Sent little IsIdle (add_call ∷ sub_call ∷ []) done
unfolding begin_write write word_bytes
done-Sent =
    let first =
      goes_on five_gone-Sent 0 6 (0 ∷ 0 ∷ 0 ∷ codes "add") refl (omega arith) (omega arith) in
    goes_on (begins first (refl, tt) sub_call) 0 11 (write little 8 (codes "sub")) refl
      (omega arith) (omega arith)

Sent-write_all_example :
    (five_gone.wire ++ left_of five_gone.in_flight ≡ write_all little (add_call ∷ []))
    × OneAtATime five_gone.in_flight
Sent-write_all_example = Sent-write_all little five_gone-Sent

Sent-IsIdle_example :
    (done.wire ≡ write_all little (add_call ∷ sub_call ∷ []))
    × ((serve closing little 7 (start peer) done.wire).calls
        ≡ map (call_of 3) (add_call ∷ sub_call ∷ []))
Sent-IsIdle_example =
    Sent-IsIdle closing little peer done-Sent (refl, (refl, tt)) (omega arith, (omega arith, tt))

serve-torn_example :
    (s : Socket) × Sent little Always (add_call ∷ sub_call ∷ []) s
    × IsIdle s
    × (serve closing little 3 (start peer) s.wire
        ≡ then_serve
            (call_of 3 (7, take 3 (torn little add_call sub_call 0)) ∷ [])
            (serve closing little 0 (start peer) (drop 3 (torn little add_call sub_call 0))))
serve-torn_example =
    serve-torn closing little peer add_call sub_call 0 0 (omega arith) (omega arith)

-- The server takes the beginning of the second header for the packed call.
torn_test : take 3 (torn little add_call sub_call 0) ≡ 8 ∷ 0 ∷ 0 ∷ []
unfolding write word_bytes
torn_test = refl
