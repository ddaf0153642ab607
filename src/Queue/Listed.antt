-- ===== src/Queue/Listed.antt =====
-- A lock free queue that meets the contract: the list of its entries.
use dousi.Prelude.{
  ◌≡◌, refl, Bool, true, false, List, [], ◌∷◌, ◌++◌, ◌↔◌, Option, none, some, arith,
}
use dousi.Queue.LockFree.{LockFree}

abbrev pub pop_list : {A : Type 0} → List A → Option (A × List A)
pop_list [] = none
pop_list (a ∷ rest) = some (a, rest)

abbrev pub empty_list : {A : Type 0} → List A → Bool
empty_list [] = true
empty_list (a ∷ rest) = false

pub pop_list-none : {A : Type 0} (q : List A) → pop_list q ≡ none → q ≡ []
pop_list-none q e = ground arith

pub pop_list-some : {A : Type 0} (q q' : List A) (a : A) → pop_list q ≡ some (a, q') → q ≡ a ∷ q'
pop_list-some q q' a e = ground arith

pub empty_list_iff : {A : Type 0} (q : List A) → (empty_list q ≡ true) ↔ (q ≡ [])
empty_list_iff q = (λ e. ground arith, λ e. ground arith)

abbrev pub listed : LockFree
listed = record {
  Queue = List;
  reserve = λ n. [];
  push = λ a q. q ++ (a ∷ []);
  pop = pop_list;
  empty = empty_list;
  contents = λ q. q;
  contents-reserve = λ n. refl;
  contents-push = λ a q. refl;
  pop_none = pop_list-none;
  pop_some = pop_list-some;
  empty_iff = empty_list_iff;
}
