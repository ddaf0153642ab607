-- ===== src/Executor/Threads/Keys.antt =====
-- Counting the messages of one client by stream id and object id.
use dousi.Prelude.{
  ℕ, zero, suc, ◌+◌, ◌≤◌, ◌<◌, ◌≡◌, refl, sym, subst, inl, inr, ◌&&◌, Bool-cases, ==_iff, List, [],
  ◌∷◌, ◌++◌, Option, none, some, ◌==◌, if◌then◌else◌, get_elem?, set, All, arith,
}

-- (stream id, object id)
abbrev pub Key : Type 0
Key = ℕ × ℕ

abbrev pub weight : Key → Key → ℕ
weight k x = if (k.0 == x.0) && (k.1 == x.1) then 1 else 0

module _ {A : Type 0} (key : A → Key) (k : Key) where
  -- How many entries have the key.
  unfoldable pub tally : List A → ℕ
  tally [] = 0
  tally (x ∷ xs) = weight k (key x) + tally xs

  pub tally_nil : tally [] ≡ 0
  unfolding tally
  tally_nil = refl

  pub tally_cons : (x : A) (xs : List A) → tally (x ∷ xs) ≡ weight k (key x) + tally xs
  unfolding tally
  tally_cons x xs = refl

  pub tally_last : (xs : List A) (x : A) → tally (xs ++ (x ∷ [])) ≡ tally xs + weight k (key x)
  unfolding tally
  tally_last [] x = omega arith
  tally_last (y ∷ xs) x = omega (arith, tally_last xs x)

  abbrev pub weight_held : Option A → ℕ
  weight_held none = 0
  weight_held (some x) = weight k (key x)

  -- How many threads hold an entry with the key.
  pub held : List (Option A) → ℕ
  held [] = 0
  held (x ∷ xs) = weight_held x + held xs

  pub held-set :
      (xs : List (Option A)) (i : ℕ) (old new : Option A)
      → get_elem? xs i ≡ some old
      → held (set xs i new) + weight_held old ≡ held xs + weight_held new
  unfolding held
  held-set [] i old new h = cc
  held-set (x ∷ xs) zero old new h = ground arith
  held-set (x ∷ xs) (suc i) old new h = omega (arith, held-set xs i old new h)

  pub held_idle : (xs : List (Option A)) → All (λ x. x ≡ none) xs → held xs ≡ 0
  unfolding held
  held_idle [] h = refl
  held_idle (x ∷ xs) h = rw h.0 (omega (arith, held_idle xs h.1))

  pub weight_held-le :
      (xs : List (Option A)) (i : ℕ) (x : Option A)
      → get_elem? xs i ≡ some x
      → weight_held x ≤ held xs
  unfolding held
  weight_held-le [] i x h = cc
  weight_held-le (y ∷ xs) zero x h = ground arith
  weight_held-le (y ∷ xs) (suc i) x h = omega (arith, weight_held-le xs i x h)

pub weight_self : (k : Key) → weight k k ≡ 1
weight_self k = ground arith

-- A key that occurs has every property that all entries have.
pub tally_pos {ℓ} :
    (P : ℕ → Type ℓ) (k : Key) (xs : List Key)
    → All (λ x. P x.0) xs
    → 0 < tally (λ x. x) k xs
    → P k.0
unfolding tally
tally_pos P k [] h pos = absurd (omega arith)
tally_pos P (a, b) ((c, d) ∷ xs) h pos = elim (Bool-cases (a == c)) [
  | inl same ↦ subst P (sym ((==_iff a c).0 same)) h.0
  | inr other ↦ tally_pos P (a, b) xs h.1 (ground arith)
]
