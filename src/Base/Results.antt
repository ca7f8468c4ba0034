-- ===== src/Base/Results.antt =====
-- What a C function gives back: a value, an error code, or nothing at all because it touched memory
-- that is not its own.
use mathlib.Core.Path.{◌≡◌, refl}
use kudos_judge.Base.Int.{ℤ}

pub data Result {ℓ} (A : Type ℓ) : Type ℓ where
  ok : A → Result A
  error : ℤ → Result A
  fault : Result A

infixl 5 ◌>>=◌
abbrev pub ◌>>=◌ {ℓ κ} : {A : Type ℓ} {B : Type κ} → Result A → (A → Result B) → Result B
ok a >>= f = f a
error code >>= f = error code
fault >>= f = fault

pub >>=-eq-ok {ℓ κ} :
    {A : Type ℓ} {B : Type κ} (r : Result A) (f : A → Result B) {b : B}
    → (r >>= f) ≡ ok b
    → (a : A) × (r ≡ ok a) × (f a ≡ ok b)
>>=-eq-ok (ok a) f e = (a, refl, e)
>>=-eq-ok (error code) f e = cc
>>=-eq-ok fault f e = cc

pub ok_cancel {ℓ} : {A : Type ℓ} {a b : A} → ok a ≡ ok b → a ≡ b
ok_cancel e = cc
