-- ===== src/Interface/Decode/Truncated.antt =====
-- `jug_int_decode` on a request whose source code is cut short.
use kudos_judge.Base.{
  ℕ, suc, ◌-◌, ◌<◌, ◌≡◌, refl, sym, ap, ◌∙◌, [], ◌∷◌, ◌++◌, Bytes, append_assoc, arith, negsuc,
  length, length-append, take, error, ◌>>=◌,
}
use kudos_judge.Client.{forge_body}
use kudos_judge.Decimal.{decimal_onto}
use kudos_judge.Decimal.RoundTrip.{decimal_onto-append_rest}
use kudos_judge.Interface.Decode.RoundTrip.{number_line-decimal_onto, sized_text-decimal_onto}
use kudos_judge.Interface.Decode.{decode}
use kudos_judge.Interface.Request.{advance, sized_text}

-- A body that declares `n` bytes of source code in front of `source`.
abbrev pub declared : ℕ → Bytes → Bytes → Bytes → Bytes
declared n source input output =
    let output_text = output ++ (b'\n' ∷ decimal_onto n (b'\n' ∷ source)) in
    let output_part = decimal_onto 0 (b'\n' ∷ decimal_onto (length output) (b'\n' ∷ output_text)) in
    let input_text = input ++ (b'\n' ∷ output_part) in
    decimal_onto 0
      (b'\n' ∷ decimal_onto 0 (b'\n' ∷ decimal_onto (length input) (b'\n' ∷ input_text)))

pub forge_body-declared :
    (source input output : Bytes)
    → forge_body source input output ≡ declared (length source) source input output
unfolding forge_body
forge_body-declared source input output = refl

sized_text_short :
    (n : ℕ) (s : Bytes) → length s < n → sized_text (decimal_onto n (b'\n' ∷ s)) ≡ error (negsuc 1)
unfolding sized_text
sized_text_short n s h = rw (number_line-decimal_onto n s) (ground arith)

-- A body that declares more bytes of source code than it has is refused with error -2.
pub decode-declared :
    (n : ℕ) (source input output : Bytes)
    → length source < n
    → decode (declared n source input output) ≡ error (negsuc 1)
unfolding decode advance
decode-declared n source input output h =
    simp (number_line-decimal_onto, sized_text-decimal_onto, sized_text_short n source h, ◌>>=◌)

declared-append :
    (n : ℕ) (source input output : Bytes)
    → declared n source input output ≡ declared n [] input output ++ source
declared-append n source input output = simp (← decimal_onto-append_rest, append_assoc)

take-append_less :
    (p s : Bytes) → 0 < length s → take (length (p ++ s) - 1) (p ++ s) ≡ p ++ take (length s - 1) s
take-append_less [] s h = refl
take-append_less (c ∷ p) s h =
    let some_left : length ((c ∷ p) ++ s) - 1 ≡ suc (length (p ++ s) - 1) =
      omega (arith, length-append p s) in
    ap (λ k. take k ((c ∷ p) ++ s)) some_left ∙ ap (◌∷◌ c) (take-append_less p s h)

-- The body without its last byte.
pub forge_body_less :
    (source input output : Bytes)
    → 0 < length source
    → take (length (forge_body source input output) - 1) (forge_body source input output)
      ≡ declared (length source) (take (length source - 1) source) input output
forge_body_less source input output h =
    let whole : forge_body source input output
        ≡ declared (length source) [] input output ++ source =
      forge_body-declared source input output
      ∙ declared-append (length source) source input output in
    ap (λ t. take (length t - 1) t) whole
    ∙ take-append_less (declared (length source) [] input output) source h
    ∙ sym (declared-append (length source) (take (length source - 1) source) input output)
