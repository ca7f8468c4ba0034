-- ===== src/Decimal.antt =====
-- Decimal numbers as the C library prints and reads them: `%d` and `%ld` of sprintf on a value
-- that is not negative, and `atoi`. A value that does not fit an `int` is not defined by C for
-- `atoi`; here it is kept as it is.
pub mod RoundTrip
use kudos_judge.Base.{
  ℕ, zero, suc, ◌+◌, ◌-◌, ◌*◌, ◌/◌, ◌%◌, Bool, true, ◌&&◌, ◌||◌, [], ◌∷◌, Bytes, ltb, leb, ◌==◌,
  if◌then◌else◌, ℤ, pos, negsuc,
}

-- One digit a round, the last one first. `fuel` bounds the rounds.
digits_onto : ℕ → ℕ → Bytes → Bytes
digits_onto zero n out = out
digits_onto (suc fuel) n out =
    let more = digits_onto fuel (n / 10) ((b'0' + n % 10) ∷ out) in
    if ltb n 10 then (b'0' + n) ∷ out else more

-- The print of `n` in front of `rest`.
unfoldable pub decimal_onto : ℕ → Bytes → Bytes
unfolding digits_onto
decimal_onto n rest = digits_onto (suc n) n rest

abbrev pub decimal : ℕ → Bytes
decimal n = decimal_onto n []

abbrev pub is_digit : ℕ → Bool
is_digit c = leb b'0' c && leb c b'9'

-- `isspace` in the C locale
abbrev pub is_space : ℕ → Bool
is_space c = c == b' ' || (leb 9 c && leb c 13)

digits_value : ℕ → Bytes → ℕ
digits_value acc [] = acc
digits_value acc (c ∷ s) =
    let more = digits_value (acc * 10 + (c - b'0')) s in if is_digit c then more else acc

negate : ℕ → ℤ
negate zero = pos 0
negate (suc n) = negsuc n

signed_value : Bytes → ℤ
signed_value [] = pos 0
signed_value (c ∷ s) =
    if c == b'-'
    then negate (digits_value 0 s)
    else if c == b'+'
    then pos (digits_value 0 s)
    else pos (digits_value 0 (c ∷ s))

unfoldable pub atoi : Bytes → ℤ
unfolding digits_value negate signed_value
atoi [] = pos 0
atoi (c ∷ s) = let skipped = atoi s in if is_space c then skipped else signed_value (c ∷ s)
