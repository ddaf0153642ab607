-- ===== src/Submitter/Polling.antt =====
-- When the polling of `Submitter::GetObject` ends.
use dousi.Prelude.{
  ℕ, ◌^◌, ◌<◌, ◌≤◌, ◌≡◌, ◌⊎◌, inl, inr, refl, ◌∙◌, Bool, true, false, ◌||◌, List, [], ◌∷◌, none,
  some, Bytes, ◌==◌, All, arith, Bool-cases,
}
use dousi.Prelude.Map.{Map, lookup, insert, lookup-insert, ℕ_eq}
use dousi.Stream.{Invocation}
use dousi.Submitter.{ClientLanguage, java, Submitter, cpp, deliver, on_messages, get_bytes}

-- The cache after some messages, at a C++ client.
abbrev pub cache_all : List Invocation → Map ℕ Bytes → Map ℕ Bytes
cache_all [] m = m
cache_all (i ∷ is) m = cache_all is (insert i.object_id i.body m)

deliver_cpp :
    (l : ClientLanguage) (s : Submitter) (i : Invocation)
    → l ≡ cpp
    → deliver l s i
      ≡ some (record s { cached_objects = insert i.object_id i.body s.cached_objects })
unfolding deliver
deliver_cpp cpp s i e = refl
deliver_cpp java s i e = cc

-- At a C++ client the io thread never throws, and each message is cached.
pub on_messages_cpp :
    (is : List Invocation) (s : Submitter)
    → s.client_language ≡ cpp
    → on_messages s is ≡ some (record s { cached_objects = cache_all is s.cached_objects })
unfolding on_messages
on_messages_cpp [] s e = refl
on_messages_cpp (i ∷ is) s e = rw (deliver_cpp s.client_language s i e) (
    on_messages_cpp is (record s { cached_objects = insert i.object_id i.body s.cached_objects }) e)

-- A message for the object, if it is one, has this body.
abbrev pub Answers : ℕ → Bytes → Invocation → Type 0
Answers object_id bytes i = i.object_id ≡ object_id → i.body ≡ bytes

abbrev pub arrives : ℕ → List Invocation → Bool
arrives object_id [] = false
arrives object_id (i ∷ is) = (i.object_id == object_id) || arrives object_id is

abbrev pub arrives_during : ℕ → List (List Invocation) → Bool
arrives_during object_id [] = false
arrives_during object_id (sleep ∷ sleeps) =
    arrives object_id sleep || arrives_during object_id sleeps

-- The cache has this answer, or none yet.
abbrev pub Holds : ℕ → Bytes → Map ℕ Bytes → Type 0
Holds object_id bytes m = (lookup object_id m ≡ none) ⊎ (lookup object_id m ≡ some bytes)

insert-Holds :
    (k : ℕ) (b : Bytes) (i : Invocation) (m : Map ℕ Bytes)
    → Answers k b i
    → Holds k b m
    → Holds k b (insert i.object_id i.body m)
insert-Holds k b i m a h = ground (arith, lookup-insert i.object_id k i.body m)

cache_all-Holds :
    (k : ℕ) (b : Bytes) (is : List Invocation) (m : Map ℕ Bytes)
    → All (Answers k b) is
    → Holds k b m
    → Holds k b (cache_all is m)
cache_all-Holds k b [] m a h = h
cache_all-Holds k b (i ∷ is) m a h =
    cache_all-Holds k b is (insert i.object_id i.body m) a.1 (insert-Holds k b i m a.0 h)

cache_all_kept :
    (k : ℕ) (b : Bytes) (is : List Invocation) (m : Map ℕ Bytes)
    → All (Answers k b) is
    → lookup k m ≡ some b
    → lookup k (cache_all is m) ≡ some b
cache_all_kept k b [] m a h = h
cache_all_kept k b (i ∷ is) m a h =
    cache_all_kept k b is (insert i.object_id i.body m) a.1
      (ground (arith, lookup-insert i.object_id k i.body m, a.0))

cache_all_arrived :
    (k : ℕ) (b : Bytes) (is : List Invocation) (m : Map ℕ Bytes)
    → All (Answers k b) is
    → arrives k is ≡ true
    → lookup k (cache_all is m) ≡ some b
cache_all_arrived k b [] m a h = cc
cache_all_arrived k b (i ∷ is) m a h = elim (Bool-cases (i.object_id == k)) [
  | inl here ↦
      cache_all_kept k b is (insert i.object_id i.body m) a.1
        (ground (arith, lookup-insert i.object_id k i.body m, a.0))
  | inr there ↦ cache_all_arrived k b is (insert i.object_id i.body m) a.1 (ground arith)
]

-- What is cached is returned without a sleep.
pub get_bytes_hit :
    (s : Submitter) (k : ℕ) (b : Bytes) (sleeps : List (List Invocation))
    → lookup k s.cached_objects ≡ some b
    → get_bytes s k sleeps ≡ some (b, s)
unfolding get_bytes
get_bytes_hit s k b [] e = rw (e, get_bytes)
get_bytes_hit s k b (sleep ∷ sleeps) e = rw (e, get_bytes)

-- Otherwise the messages of the first sleep are cached, and the loop goes on.
pub get_bytes_miss :
    (s : Submitter) (k : ℕ) (sleep : List Invocation) (sleeps : List (List Invocation))
    → s.client_language ≡ cpp
    → lookup k s.cached_objects ≡ none
    → get_bytes s k (sleep ∷ sleeps)
      ≡ get_bytes (record s { cached_objects = cache_all sleep s.cached_objects }) k sleeps
unfolding get_bytes
get_bytes_miss s k sleep sleeps e h = rw (h, get_bytes, on_messages_cpp sleep s e)

-- At a C++ client, `GetObject` returns the answer if it is cached already or arrives during one of
-- the sleeps, provided that no message for the object has another body.
pub get_bytes_returns :
    (k : ℕ) (b : Bytes) (sleeps : List (List Invocation)) (s : Submitter)
    → s.client_language ≡ cpp
    → Holds k b s.cached_objects
    → All (All (Answers k b)) sleeps
    → ((lookup k s.cached_objects ≡ some b) ⊎ (arrives_during k sleeps ≡ true))
    → (s' : Submitter) × (get_bytes s k sleeps ≡ some (b, s'))
get_bytes_returns k b sleeps s e (inr held) a h = (s, get_bytes_hit s k b sleeps held)
get_bytes_returns k b sleeps s e (inl missing) a (inl held) = cc
get_bytes_returns k b [] s e (inl missing) a (inr h) = cc
get_bytes_returns k b (sleep ∷ sleeps) s e (inl missing) a (inr h) =
    let s1 = record s { cached_objects = cache_all sleep s.cached_objects } in
    let next : (lookup k s1.cached_objects ≡ some b) ⊎ (arrives_during k sleeps ≡ true) =
      elim (Bool-cases (arrives k sleep)) [
        | inl now ↦ inl (cache_all_arrived k b sleep s.cached_objects a.0 now)
        | inr later ↦ inr (ground arith)
      ] in
    let (s', got) =
      get_bytes_returns k b sleeps s1 e
        (cache_all-Holds k b sleep s.cached_objects a.0 (inl missing)) a.1 next in
    (s', get_bytes_miss s k sleep sleeps e missing ∙ got)

-- The object ids of messages have passed through a uint32_t.
abbrev pub IsWord : Invocation → Type 0
IsWord i = i.object_id < 2 ^ 32

cache_all_foreign :
    (k : ℕ) (is : List Invocation) (m : Map ℕ Bytes)
    → 2 ^ 32 ≤ k
    → All IsWord is
    → lookup k m ≡ none
    → lookup k (cache_all is m) ≡ none
cache_all_foreign k [] m big w h = h
cache_all_foreign k (i ∷ is) m big w h =
    cache_all_foreign k is (insert i.object_id i.body m) big w.1
      (ground (arith, lookup-insert i.object_id k i.body m, w.0))

-- At a C++ client `GetObject` polls for ever for an object id from 2 ^ 32 on that is not cached:
-- whatever messages arrive, with object ids that are uint32_t, and for however long, it does not return.
pub get_bytes_stuck :
    (k : ℕ) (sleeps : List (List Invocation)) (s : Submitter)
    → s.client_language ≡ cpp
    → 2 ^ 32 ≤ k
    → lookup k s.cached_objects ≡ none
    → All (All IsWord) sleeps
    → get_bytes s k sleeps ≡ none
unfolding get_bytes
get_bytes_stuck k [] s e big h w = rw (h, get_bytes)
get_bytes_stuck k (sleep ∷ sleeps) s e big h w =
    get_bytes_miss s k sleep sleeps e h
    ∙ get_bytes_stuck k sleeps (record s { cached_objects = cache_all sleep s.cached_objects }) e
        big (cache_all_foreign k sleep s.cached_objects big w.0 h) w.1
