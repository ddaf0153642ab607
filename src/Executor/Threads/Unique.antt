-- ===== src/Executor/Threads/Unique.antt =====
-- Entries whose key occurs once.
use dousi.Prelude.{
  ◌≡◌, ◌⊎◌, ◌≤◌, ◌<◌, inl, inr, refl, sym, ap, ◌∙◌, List, [], ◌∷◌, ◌==◌, ==_iff, Bool-cases, Has,
  arith,
}
use dousi.Executor.Threads.Keys.{Key, tally, tally_cons, tally_nil, weight, weight_self}

module _ {A : Type 0} (key : A → Key) (k : Key) where
  weight_of : (x : A) → key x ≡ k → weight k (key x) ≡ 1
  weight_of x e = ap (weight k) e ∙ weight_self k

  Has-tally : (x : A) (xs : List A) → Has x xs → key x ≡ k → 0 < tally key k xs
  Has-tally x [] h e = absurd h
  Has-tally x (y ∷ xs) (inl same) e =
      omega (arith, tally_cons key k y xs, weight_of y (ap key same ∙ e))
  Has-tally x (y ∷ xs) (inr h) e = omega (arith, tally_cons key k y xs, Has-tally x xs h e)

  -- There are no two of them.
  pub Has_unique :
      (x y : A) (xs : List A)
      → tally key k xs ≤ 1
      → Has x xs
      → key x ≡ k
      → Has y xs
      → key y ≡ k
      → x ≡ y
  Has_unique x y [] once hx ex hy ey = absurd hx
  Has_unique x y (z ∷ xs) once (inl sx) ex (inl sy) ey = sym sx ∙ sy
  Has_unique x y (z ∷ xs) once (inl sx) ex (inr hy) ey =
      absurd
        (omega (arith, tally_cons key k z xs, weight_of z (ap key sx ∙ ex), Has-tally y xs hy ey))
  Has_unique x y (z ∷ xs) once (inr hx) ex (inl sy) ey =
      absurd
        (omega (arith, tally_cons key k z xs, weight_of z (ap key sy ∙ ey), Has-tally x xs hx ex))
  Has_unique x y (z ∷ xs) once (inr hx) ex (inr hy) ey =
      Has_unique x y xs (omega (arith, tally_cons key k z xs)) hx ex hy ey

  weight_cases : (x : Key) → (x ≡ k) ⊎ (weight k x ≡ 0)
  weight_cases x = elim (Bool-cases (k.0 == x.0)) [
    | inl same0 ↦ elim (Bool-cases (k.1 == x.1)) [
      | inl same1 ↦ inl (λ i. (sym ((==_iff k.0 x.0).0 same0) i, sym ((==_iff k.1 x.1).0 same1) i))
      | inr other ↦ inr (rw (same0, other) refl)
    ]
    | inr other ↦ inr (rw other refl)
  ]

  -- And one that is counted is there.
  pub tally-Has : (xs : List A) → 0 < tally key k xs → (x : A) × Has x xs × (key x ≡ k)
  tally-Has [] pos = absurd (omega (arith, tally_nil key k))
  tally-Has (x ∷ xs) pos = elim (weight_cases (key x)) [
    | inl same ↦ (x, inl refl, same)
    | inr other ↦
        let (y, h, e) = tally-Has xs (omega (arith, tally_cons key k x xs)) in (y, inr h, e)
  ]
