-- ===== src/Interface/Decode/RoundTrip.antt =====
-- `jug_int_decode` reads back the body that the client's `kudosdjudge_forge_dd` writes.
use kudos_judge.Base.{
  append-nil, ℕ, ◌≡◌, refl, none, some, [], ◌∷◌, ◌++◌, Bytes, All, arith, pos, length, take-length,
  drop-length, length-append, ok, ◌>>=◌,
}
use kudos_judge.Client.{forge_body}
use kudos_judge.Decimal.{decimal, decimal_onto}
use kudos_judge.Decimal.RoundTrip.{IsDigit, decimal-All, decimal_onto-append, atoi-decimal_onto}
use kudos_judge.Interface.Decode.{decode}
use kudos_judge.Interface.Request.{Request, skip_line, advance, number_line, sized_text}

skip_line-All : (ds s : Bytes) → All IsDigit ds → skip_line (ds ++ (b'\n' ∷ s)) ≡ ok s
unfolding skip_line
skip_line-All [] s h = refl
skip_line-All (c ∷ ds) s h = ground (arith, skip_line-All ds s h.1)

pub number_line-decimal_onto :
    (n : ℕ) (s : Bytes) → number_line (decimal_onto n (b'\n' ∷ s)) ≡ ok (pos n, s)
unfolding number_line
number_line-decimal_onto n s = rw (
  decimal_onto-append n (b'\n' ∷ s),
  skip_line-All (decimal n) s (decimal-All n),
  ← decimal_onto-append n (b'\n' ∷ s),
  atoi-decimal_onto n b'\n' s refl,
)

pub sized_text-decimal_onto :
    (t s : Bytes) → sized_text (decimal_onto (length t) (b'\n' ∷ (t ++ s))) ≡ ok (t, s)
unfolding sized_text
sized_text-decimal_onto t s =
    rw (number_line-decimal_onto (length t) (t ++ s))
      (ground (arith, length-append t s, take-length t s, drop-length t s))

sized_text_end : (t : Bytes) → sized_text (decimal_onto (length t) (b'\n' ∷ t)) ≡ ok (t, [])
sized_text_end t = rw append-nil at (sized_text-decimal_onto t [])

abbrev pub judging : Bytes → Bytes → Bytes → Request
judging source input output = record {
  type = pos 0;
  in_type = pos 0;
  out_type = pos 0;
  sourcecode = some source;
  in_reference = none;
  input = some input;
  out_reference = none;
  output = some output;
}

pub decode-forge_body :
    (source input output : Bytes)
    → decode (forge_body source input output) ≡ ok (judging source input output)
unfolding decode forge_body advance
decode-forge_body source input output =
    simp (number_line-decimal_onto, sized_text-decimal_onto, sized_text_end, ◌>>=◌)
