-- ===== src/Base/Int.antt =====
-- Signed integers over the native numbers. A C `int` or `ssize_t` is one of these.
use Prim.Native.Nat.{ℕ, zero, suc, ◌+◌, ◌-◌, ◌^◌}
use mathlib.Core.Bool.{Bool, true, false}
use mathlib.Core.Path.{◌≡◌, refl}
use mathlib.Core.Logic.{◌⊎◌, inl, inr}
use native.Mathlib.Omega.{arith}
use kudos_judge.Base.Tests.{Bool-cases, ◌==◌, ltb, leb, if◌then◌else◌}

-- `negsuc n` is -(n + 1).
pub data ℤ : Type 0 where
  pos : ℕ → ℤ
  negsuc : ℕ → ℤ

-- The conversion of a signed value to `size_t`, which C makes where the two are compared.
abbrev pub to_size_t : ℤ → ℕ
to_size_t (pos n) = n
to_size_t (negsuc n) = 2 ^ 64 - 1 - n

abbrev pub is_negative : ℤ → Bool
is_negative (pos n) = false
is_negative (negsuc n) = true

-- Equality with a constant that is not negative.
abbrev pub is_ℕ : ℤ → ℕ → Bool
is_ℕ (pos n) k = n == k
is_ℕ (negsuc n) k = false

abbrev pub add_ℕ : ℕ → ℤ → ℤ
add_ℕ a (pos n) = pos (a + n)
add_ℕ a (negsuc n) = if ltb n a then pos (a - n - 1) else negsuc (n - a)

-- `a >= z` for an `int` a that is not negative
abbrev pub reaches : ℕ → ℤ → Bool
reaches a (pos n) = leb n a
reaches a (negsuc n) = true

infixl 65 ◌+ℤ◌
abbrev pub ◌+ℤ◌ : ℤ → ℤ → ℤ
pos a +ℤ z = add_ℕ a z
negsuc a +ℤ pos b = add_ℕ b (negsuc a)
negsuc a +ℤ negsuc b = negsuc (suc (a + b))

abbrev pub minus : ℤ → ℤ
minus (pos zero) = pos 0
minus (pos (suc n)) = negsuc n
minus (negsuc n) = pos (suc n)

abbrev pub less : ℤ → ℤ → Bool
less (pos a) (pos b) = ltb a b
less (pos a) (negsuc b) = false
less (negsuc a) (pos b) = true
less (negsuc a) (negsuc b) = ltb b a

pub is_ℕ-cases : (z : ℤ) (k : ℕ) → (z ≡ pos k) ⊎ (is_ℕ z k ≡ false)
is_ℕ-cases (pos n) k = elim (Bool-cases (n == k)) [
  | inl same ↦ inl (ground (arith, same))
  | inr other ↦ inr other
]
is_ℕ-cases (negsuc n) k = inr refl
