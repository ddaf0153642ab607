-- ===== src/Rpc/Session/Tests.antt =====
-- Two calls of one method, one after the other, at the server of Rpc/Tests.
use dousi.Prelude.{◌≡◌, refl, subst, All, List, [], ◌∷◌, Option, some, codes, Bytes, arith}
use dousi.Prelude.Map.{lookup, insert, ℕ_eq, Bytes_eq}
use dousi.Msgpack.{plain, plain_string, cons, nil, pack_args_to_buffer}
use dousi.Stream.{new_stream, start}
use dousi.Stream.Word.{little}
use dousi.Stream.Transport.{closing}
use dousi.Queue.Listed.{listed}
use dousi.Queue.LockFree.{new_queue}
use dousi.Executor.{Executor, register_method, create_service, new_executor, add_stream}
use dousi.Executor.Sample.{service}
use dousi.Submitter.{Submitter}
use dousi.Rpc.Exchange.{IsReady}
use dousi.Rpc.Session.{
  MethodCall, remote, FitsOn, FitAll, IsOpen, IsOffered, run_local, run_remote,
  run_remote-run_local,
}
use dousi.Rpc.Tests.{client, client-IsReady, connected}

-- A method that keeps its argument and returns what the object was.
abbrev swap_call : Bytes → MethodCall Bytes Bytes
swap_call text = record {
  service_name = service;
  method_name = codes "Swap";
  Returned = Bytes;
  codec = plain_string;
  types = cons Bytes plain_string nil;
  method = λ args object. (object, args.0);
  args = (text, tt);
  address = 0;
  index = 0;
}

abbrev swapping : Executor plain listed Bytes
swapping = register_method 0 (remote (swap_call [])) connected

swapping-IsOpen : IsOpen swapping 0
unfolding register_method create_service new_executor add_stream lookup insert new_queue
swapping-IsOpen = record {
  nothing_queued = record { no_requests = refl; no_responses = refl };
  threads = refl;
  stream = (start (new_stream 0), refl);
}

abbrev two_swaps : List (MethodCall Bytes Bytes)
two_swaps = swap_call (codes "456") ∷ swap_call (codes "789") ∷ []

two_swaps-IsOffered : All (IsOffered swapping) two_swaps
unfolding register_method create_service new_executor add_stream lookup insert
two_swaps-IsOffered = ((refl, refl), ((refl, refl), tt))

held_object :
    (P : Bytes → Type 0) {x y : Bytes} → ◌≡◌ {A = Option Bytes} (some x) (some y) → P x → P y
held_object P same = subst P (ground arith)

two_swaps-FitAll : FitAll plain two_swaps swapping.objects
unfolding pack_args_to_buffer register_method create_service new_executor add_stream
two_swaps-FitAll object held =
    held_object
      (λ object.
        FitsOn plain (swap_call (codes "456")) object
        × FitAll plain (swap_call (codes "789") ∷ []) (codes "456" ∷ []))
      held
      (
        (omega arith, omega arith),
        λ object held.
            held_object
              (λ object.
                FitsOn plain (swap_call (codes "789")) object × FitAll plain [] (codes "789" ∷ []))
              held ((omega arith, omega arith), tt),
      )

run_remote-run_local_example :
    (s' : Submitter) × (e' : Executor plain listed Bytes) × (run_remote closing little plain 0
        two_swaps client swapping
      ≡ some ((codes "123", (codes "456", tt)), s', e'))
    × (e'.objects ≡ codes "789" ∷ [])
    × IsReady s'
    × IsOpen e' 0
unfolding run_local register_method create_service new_executor add_stream
run_remote-run_local_example =
    run_remote-run_local closing little plain two_swaps client swapping 0
      (codes "123", (codes "456", tt)) (codes "789" ∷ []) client-IsReady swapping-IsOpen
      two_swaps-IsOffered (omega arith) two_swaps-FitAll refl
