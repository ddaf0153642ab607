-- ===== src/Prelude/Options.antt =====
-- What a chain of `Option` that has a result went through.
use mathlib.Core.Path.{◌≡◌, refl}
use mathlib.Core.Logic.{◌≢◌}
use mathlib.Core.Option.{Option, none, some}
use native.Mathlib.Omega.{arith}
use dousi.Prelude.Tests.{◌>>=◌}

pub >>=-eq-some :
    {A B : Type 0} (x : Option A) (f : A → Option B) {b : B}
    → (x >>= f) ≡ some b
    → (a : A) × (x ≡ some a) × (f a ≡ some b)
>>=-eq-some none f h = cc
>>=-eq-some (some a) f h = (a, refl, h)

pub some_inj : {A : Type 0} {x y : A} → ◌≡◌ {A = Option A} (some x) (some y) → x ≡ y
some_inj h = ground arith

pub some_pair :
    {A B : Type 0} {a c : A} {b d : B}
    → ◌≡◌ {A = Option (A × B)} (some (a, b)) (some (c, d))
    → (a ≡ c) × (b ≡ d)
some_pair h = (ground arith, ground arith)

pub none_ne_some : {A : Type 0} {a : A} → ◌≢◌ {A = Option A} none (some a)
none_ne_some h = cc
