-- ===== src/Decimal/RoundTrip.antt =====
-- `atoi` reads back what `%d` prints, whatever stands behind a byte that is no digit.
use kudos_judge.Base.{
  refl, [], ◌++◌, All, length, ℕ, zero, suc, ◌+◌, ◌/◌, ◌%◌, ◌<◌, ◌≡◌, sym, ◌∙◌, true, false, ◌∷◌,
  Bytes, arith, ltb, Bool-cases, inl, inr, pos, ap,
}
use kudos_judge.Decimal.{
  decimal, digits_onto, decimal_onto, is_digit, digits_value, signed_value, atoi,
}

digits_value-digits_onto :
    (fuel n : ℕ) (out : Bytes)
    → n < fuel
    → digits_value 0 (digits_onto fuel n out) ≡ digits_value n out
unfolding digits_onto digits_value
digits_value-digits_onto zero n out h = absurd (omega arith)
digits_value-digits_onto (suc fuel) n out h =
    ground (arith, digits_value-digits_onto fuel (n / 10) ((b'0' + n % 10) ∷ out))

-- A print is a digit and more.
digits_onto_head :
    (fuel n : ℕ) (out : Bytes)
    → n < fuel
    → (c : ℕ) × (s : Bytes) × (digits_onto fuel n out ≡ c ∷ s) × (is_digit c ≡ true)
unfolding digits_onto
digits_onto_head zero n out h = absurd (omega arith)
digits_onto_head (suc fuel) n out h = elim (Bool-cases (ltb n 10)) [
  | inl small ↦ (b'0' + n, out, rw small, ground arith)
  | inr large ↦ rw large (digits_onto_head fuel (n / 10) _ (ground arith))
]

signed_value_digit :
    (c : ℕ) (s : Bytes) → is_digit c ≡ true → atoi (c ∷ s) ≡ pos (digits_value 0 (c ∷ s))
unfolding atoi signed_value digits_value
signed_value_digit c s h = ground arith

pub atoi-decimal_onto :
    (n c : ℕ) (s : Bytes) → is_digit c ≡ false → atoi (decimal_onto n (c ∷ s)) ≡ pos n
unfolding decimal_onto
atoi-decimal_onto n c s h =
    let (d, t, e, digit) = digits_onto_head (suc n) n (c ∷ s) (omega arith) in
    ap atoi e
    ∙ signed_value_digit d t digit
    ∙ ap (λ u. pos (digits_value 0 u)) (sym e)
    ∙ ap pos (digits_value-digits_onto (suc n) n (c ∷ s) (omega arith))
    ∙ ap pos (unfold digits_value in rw h)

pub atoi-decimal : (n : ℕ) → atoi (decimal n) ≡ pos n
unfolding decimal_onto
atoi-decimal n =
    let (d, t, e, digit) = digits_onto_head (suc n) n [] (omega arith) in
    ap atoi e
    ∙ signed_value_digit d t digit
    ∙ ap (λ u. pos (digits_value 0 u)) (sym e)
    ∙ ap pos (digits_value-digits_onto (suc n) n [] (omega arith))
    ∙ ap pos (unfold digits_value in refl)

digits_onto-append :
    (fuel n : ℕ) (out rest : Bytes)
    → digits_onto fuel n (out ++ rest) ≡ digits_onto fuel n out ++ rest
unfolding digits_onto
digits_onto-append zero n out rest = refl
digits_onto-append (suc fuel) n out rest =
    ground (arith, digits_onto-append fuel (n / 10) ((b'0' + n % 10) ∷ out) rest)

pub decimal_onto-append_rest :
    (n : ℕ) (s t : Bytes) → decimal_onto n (s ++ t) ≡ decimal_onto n s ++ t
unfolding decimal_onto
decimal_onto-append_rest n s t = digits_onto-append (suc n) n s t

-- The print does not look at what follows it.
pub decimal_onto-append : (n : ℕ) (rest : Bytes) → decimal_onto n rest ≡ decimal n ++ rest
unfolding decimal_onto
decimal_onto-append n rest = digits_onto-append (suc n) n [] rest

abbrev pub IsDigit : ℕ → Type 0
IsDigit c = is_digit c ≡ true

digits_onto-All :
    (fuel n : ℕ) (out : Bytes) → n < fuel → All IsDigit out → All IsDigit (digits_onto fuel n out)
unfolding digits_onto
digits_onto-All zero n out h all = absurd (omega arith)
digits_onto-All (suc fuel) n out h all = elim (Bool-cases (ltb n 10)) [
  | inl small ↦ rw small (ground arith, all)
  | inr large ↦ rw large (digits_onto-All fuel (n / 10) _ (ground arith) (ground arith, all))
]

-- A print holds digits only.
pub decimal-All : (n : ℕ) → All IsDigit (decimal n)
unfolding decimal_onto
decimal-All n = digits_onto-All (suc n) n [] (omega arith) tt

-- A print is not empty.
pub decimal_pos : (n : ℕ) → 0 < length (decimal n)
unfolding decimal_onto
decimal_pos n =
    let (d, t, e, digit) = digits_onto_head (suc n) n [] (omega arith) in omega (arith, ap length e)
