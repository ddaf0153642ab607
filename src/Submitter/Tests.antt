-- ===== src/Submitter/Tests.antt =====
-- A client with one call on its way.
use dousi.Prelude.{
  ℕ, ◌+◌, ◌%◌, ◌^◌, ◌≡◌, ◌↔◌, refl, inl, inr, true, List, [], ◌∷◌, some, none, codes, Bytes,
  get_elem?, arith,
}
use dousi.Prelude.Map.{lookup, insert, ℕ_eq}
use dousi.Msgpack.{plain, plain_string}
use dousi.Stream.{Invocation, new_stream, start}
use dousi.Stream.Word.{little}
use dousi.Submitter.{Submitter, default_submitter, submit, get_bytes, on_messages}
use dousi.Submitter.Future.{Got, new_future, get, get_object, decode_object, get_again}
use dousi.Submitter.ObjectIds.{request_ids, get_elem?-request_ids, submit-eq_iff}
use dousi.Stream.Transport.{closing}
use dousi.Stream.Loop.{serve}
use dousi.Stream.Loop.RoundTrip.{rounds, write_all}
use dousi.Submitter.Pipelined.{get_bytes-write_all}
use dousi.Submitter.Polling.{get_bytes_returns, get_bytes_stuck}

abbrev client : Submitter
client = record default_submitter { stream = some (start (new_stream 0)) }

-- The answer to call 4, packed, behind an answer to call 3.
abbrev sleeps : List (List Invocation)
sleeps =
    []
    ∷ (record { stream_id = 0; object_id = 3; body = 1 ∷ [] }
        ∷ record { stream_id = 0; object_id = 4; body = 1 ∷ codes "hi" }
        ∷ [])
    ∷ []

get_elem?-request_ids_test : get_elem? (request_ids 3 default_submitter) 2 ≡ some 2
get_elem?-request_ids_test = get_elem?-request_ids 3 2 default_submitter (omega arith) (omega arith)

submit-eq_iff_example :
    (submit little client 4 [] (codes "x") ≡ submit little client (2 ^ 32 + 4) [] (codes "x"))
    ↔ (4 % 2 ^ 32 ≡ (2 ^ 32 + 4) % 2 ^ 32)
submit-eq_iff_example =
    submit-eq_iff little client (start (new_stream 0)) 4 (2 ^ 32 + 4) [] (codes "x") refl

get_bytes_returns_example : (s : Submitter) × (get_bytes client 4 sleeps ≡ some (1 ∷ codes "hi", s))
unfolding lookup
get_bytes_returns_example =
    get_bytes_returns 4 (1 ∷ codes "hi") sleeps client refl (inl refl)
      (tt, (((λ e. absurd (omega arith)), ((λ e. refl), tt)), tt)) (inr refl)

get_bytes_stuck_example : get_bytes client (2 ^ 32 + 4) sleeps ≡ none
unfolding lookup
get_bytes_stuck_example =
    get_bytes_stuck (2 ^ 32 + 4) sleeps client refl (omega arith) refl (omega arith)

abbrev got : Got Bytes
got = record {
  pointer = some (codes "hi");
  future = record { has_data = true; data_ptr = some (codes "hi"); object_id = 4 };
  submitter = record client { cached_objects = (3, 1 ∷ []) ∷ (4, 1 ∷ codes "hi") ∷ [] };
}

got_test : get plain plain_string (new_future 4) client sleeps ≡ some got
unfolding get get_object decode_object get_bytes on_messages lookup insert
got_test = refl

get_again_test :
    get plain plain_string got.future client []
    ≡ some (record { pointer = some (codes "hi"); future = got.future; submitter = client })
get_again_test =
    get_again plain plain_string (new_future 4) client client sleeps [] got refl got_test

-- The answers to calls 5 and 4, the later call first.
abbrev answers : List (ℕ × Bytes)
answers = (5, 1 ∷ []) ∷ (4, 1 ∷ codes "hi") ∷ []

get_bytes-write_all_example :
    (s : Submitter) × (get_bytes client 4 (
        (serve closing little
          (rounds answers 1)
          (start (new_stream 0))
          (write_all little answers)).calls
        ∷ [])
      ≡ some (1 ∷ codes "hi", s))
unfolding lookup
get_bytes-write_all_example =
    get_bytes-write_all closing little client (new_stream 0) 4 1 (1 ∷ codes "hi") answers refl refl
      (omega arith) (omega arith, (omega arith, tt))
      ((λ e. absurd (omega (arith, e))), ((λ e. refl), tt)) refl
