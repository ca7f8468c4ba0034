-- ===== src/Interface/Request.antt =====
-- `int_request` of interface.h, and the reading of numbers, lines and texts in `jug_int_decode`.
use kudos_judge.Base.{
  ℕ, zero, suc, Option, [], ◌∷◌, Bytes, ltb, ◌==◌, if◌then◌else◌, ℤ, negsuc, to_size_t, length,
  take, drop, Result, ok, error, fault, ◌>>=◌,
}
use kudos_judge.Decimal.{atoi}

-- A field that is `none` was not assigned: for a pointer that is garbage.
pub record Request : Type 0 where
  pub type : ℤ
  pub in_type : ℤ
  pub out_type : ℤ
  pub sourcecode : Option Bytes
  pub in_reference : Option ℤ
  pub input : Option Bytes
  pub out_reference : Option ℤ
  pub output : Option Bytes

-- `while(string[0]!='\n') string++;string++;`: without a newline it runs past the terminator.
unfoldable pub skip_line : Bytes → Result Bytes
skip_line [] = fault
skip_line (c ∷ s) = let more = skip_line s in if c == b'\n' then ok s else more

-- `string += n`, to a place that is read next.
unfoldable pub advance : ℕ → Bytes → Result Bytes
advance zero s = ok s
advance (suc n) [] = fault
advance (suc n) (c ∷ s) = advance n s

-- A number on a line of its own.
unfoldable pub number_line : Bytes → Result (ℤ × Bytes)
unfolding skip_line
number_line s = do rest ← skip_line s; ok (atoi s, rest)

-- A length on a line of its own and as many bytes; error -2 where the message is shorter. The
-- length is compared as a `size_t`, so a negative one is too long for any message.
unfoldable pub sized_text : Bytes → Result (Bytes × Bytes)
unfolding number_line
sized_text s = do
  (size, rest) ← number_line s
  let n = to_size_t size
  if ltb (length rest) n then error (negsuc 1) else ok (take n rest, drop n rest)
