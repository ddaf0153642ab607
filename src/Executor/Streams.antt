-- ===== src/Executor/Streams.antt =====
-- The streams of src/dousi/core/executor/executor.cc: `DoAccept` and `RequestStreamID`.
use dousi.Prelude.{ℕ, ◌+◌, ◌^◌, ◌<◌, ◌≡◌, refl, sym, subst, [], ◌∷◌, none, some, All, arith}
use native.Mathlib.Nat.{mod-eq_of_lt}
use dousi.Prelude.Map.{Map, lookup, insert, lookup-insert_self, lookup-insert_ne, ℕ_eq}
use dousi.Msgpack.{Msgpack}
use dousi.Queue.LockFree.{LockFree}
use dousi.Stream.{AsioStream, new_stream, start}
use dousi.Executor.{Executor, add_stream}

abbrev pub Below : ℕ → Map ℕ AsioStream → Type 0
Below n = All (λ entry. entry.0 < n)

-- Every stream id that was given out lies below the next one.
abbrev pub IsNumbered : {m : Msgpack} {l : LockFree} {S : Type 0} → Executor m l S → Type 0
IsNumbered e = Below e.curr_stream_id e.streams

lookup_above : (n : ℕ) (s : Map ℕ AsioStream) → Below n s → lookup n s ≡ none
unfolding lookup
lookup_above n [] h = refl
lookup_above n ((k, t) ∷ s) h = ground (arith, lookup_above n s h.1)

insert-Below :
    (n : ℕ) (t : AsioStream) (s : Map ℕ AsioStream) → Below n s → Below (n + 1) (insert n t s)
unfolding insert
insert-Below n t [] h = (omega arith, tt)
insert-Below n t ((k, u) ∷ s) h = ground (arith, insert-Below n t s h.1, Below_up n s h.1)
  where
    Below_up : (n : ℕ) (s : Map ℕ AsioStream) → Below n s → Below (n + 1) s
    Below_up n [] h = tt
    Below_up n ((k, u) ∷ s) h = (omega arith, Below_up n s h.1)

module _ {m : Msgpack} {l : LockFree} {S : Type 0} where
  -- An accepted connection, before the counter wraps: its stream id is in use by no other stream, the
  -- new stream waits for the object id of its first message, every other stream stays as it is, and
  -- the ids stay below the counter.
  pub add_stream-IsNumbered :
      (e : Executor m l S)
      → IsNumbered e
      → e.curr_stream_id + 1 < 2 ^ 64
      → (lookup e.curr_stream_id e.streams ≡ none)
        × (lookup e.curr_stream_id (add_stream e).streams
            ≡ some (start (new_stream e.curr_stream_id)))
        × ((k : ℕ)
            → ¬ (e.curr_stream_id ≡ k)
            → lookup k (add_stream e).streams ≡ lookup k e.streams)
        × IsNumbered (add_stream e)
  unfolding add_stream
  add_stream-IsNumbered e h room =
      let id = e.curr_stream_id in
      let t = start (new_stream id) in
      (
        lookup_above id e.streams h,
        lookup-insert_self id t e.streams,
        λ k ne. lookup-insert_ne id k t e.streams ne,
        subst (λ n. Below n (insert id t e.streams)) (sym (mod-eq_of_lt room))
            (insert-Below id t e.streams h),
      )
