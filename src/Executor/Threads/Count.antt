-- ===== src/Executor/Threads/Count.antt =====
-- Two lists that have as many entries for each stream and object id are of one length.
use dousi.Prelude.{
  suc, ◌+◌, ◌<◌, ◌≡◌, refl, ap, sym, ◌∙◌, dec_lt, List, [], ◌∷◌, ◌==◌, ==_iff, Bool-cases, inl, inr,
  length, arith,
}
use dousi.Executor.Threads.Keys.{Key, tally, tally_cons, tally_nil, weight, weight_self}

weight_pos : (k x : Key) → 0 < weight k x → k ≡ x
weight_pos (a, b) (c, d) pos = elim (Bool-cases (a == c)) [
  | inl first ↦ elim (Bool-cases (b == d)) [
    | inl second ↦ λ i. ((==_iff a c).0 first i, (==_iff b d).0 second i)
    | inr differ ↦ absurd (ground arith)
  ]
  | inr differ ↦ absurd (ground arith)
]

module _ {B : Type 0} (g : B → Key) (k : Key) where
  -- A list without one entry that has the key.
  record Without (ys : List B) : Type 0 where
    rest : List B
    shorter : length ys ≡ suc (length rest)
    counts : (j : Key) → tally g j ys ≡ weight j k + tally g j rest

  keep : (y : B) (ys : List B) → Without ys → Without (y ∷ ys)
  keep y ys h = record {
    rest = y ∷ h.rest;
    shorter = ap suc h.shorter;
    counts = λ j. omega (arith, tally_cons g j y ys, tally_cons g j y h.rest, h.counts j);
  }

  without : (ys : List B) → 0 < tally g k ys → Without ys
  without [] pos = absurd (omega (arith, pos, tally_nil g k))
  without (y ∷ ys) pos = elim (dec_lt 0 (tally g k ys)) [
    | yes later ↦ keep y ys (without ys later)
    | no none_ ↦
        let key_ = weight_pos k (g y) (omega (arith, pos, none_, tally_cons g k y ys)) in
        record {
          rest = ys;
          shorter = refl;
          counts = λ j. tally_cons g j y ys ∙ ap (λ k. weight j k + tally g j ys) (sym key_);
        }
  ]

pub length-tally :
    {A B : Type 0} (f : A → Key) (g : B → Key) (xs : List A) (ys : List B)
    → ((k : Key) → tally f k xs ≡ tally g k ys)
    → length xs ≡ length ys
length-tally f g [] [] h = refl
length-tally f g [] (y ∷ ys) h =
    absurd (omega (arith, h (g y), tally_nil f (g y), tally_cons g (g y) y ys, weight_self (g y)))
length-tally f g (x ∷ xs) ys h =
    let first = tally_cons f (f x) x xs in
    let w = without g (f x) ys (omega (arith, h (f x), first, weight_self (f x))) in
    let rest =
      length-tally f g xs w.rest (λ j. omega (arith, h j, w.counts j, tally_cons f j x xs)) in
    omega (arith, rest, w.shorter)
