-- ===== src/Client/Receive/Answer.antt =====
-- What the client makes of the daemon's answer.
use kudos_judge.Base.{
  ℕ, suc, ◌+◌, ◌<◌, ◌≡◌, refl, sym, ap, subst, ◌∙◌, false, some, [], ◌∷◌, ◌++◌, append_assoc, Bytes,
  All, All-append, arith, ltb, leb, length, length-append, take, take-length, drop, pos, ◌+ℤ◌, less,
  minus, c_string, ok,
}
use kudos_judge.Client.Receive.{
  got, answers, newline_at, written, receive_rest, receive_body, receive_header, receive_answer,
}
use kudos_judge.Decimal.RoundTrip.{IsDigit, decimal-All, atoi-decimal_onto, decimal_onto-append}
use kudos_judge.Decimal.{decimal, decimal_onto, atoi}
use kudos_judge.Interface.BufferLib.{NoNul}
use kudos_judge.Interface.Protocol.{c_string-NoNul}
use kudos_judge.Interface.Send.{response}
use kudos_judge.Verdict.{
  Verdict, verdict_to_string, accepted, wrong, compile_error, timelimit, memlimit, outputlimit,
  runtime, internal,
}

newline_at-digits : (s t : Bytes) → All IsDigit s → newline_at (s ++ (b'\n' ∷ t)) ≡ some (length s)
unfolding newline_at
newline_at-digits [] t h = refl
newline_at-digits (c ∷ s) t (d, h) = let more = newline_at-digits s t h in ground (arith, more, d)

c_string-terminated : (s t : Bytes) → NoNul s → c_string (s ++ (0 ∷ t)) ≡ s
c_string-terminated [] t h = refl
c_string-terminated (c ∷ s) t h = ground (arith, c_string-terminated s t h.1)

NoNul-digits : (s : Bytes) → All IsDigit s → NoNul s
NoNul-digits [] h = tt
NoNul-digits (c ∷ s) h = (ground (arith, h.0), NoNul-digits s h.1)

drop-behind : (s t : Bytes) (c : ℕ) → drop (suc (length s)) (s ++ (c ∷ t)) ≡ t
drop-behind [] t c = refl
drop-behind (x ∷ s) t c = drop-behind s t c

-- A header of digits, and what has come of the text behind it.
module _ (old digits name behind : Bytes) (n : ℕ) (all_digits : All IsDigit digits)
    (no_nul : NoNul name) (number : atoi (digits ++ (b'\n' ∷ name)) ≡ pos n)
    (sized : length name + length behind ≡ n) (short : length digits + n < 90) where
  abbrev piece : Bytes
  piece = digits ++ (b'\n' ∷ name)

  piece-NoNul : NoNul piece
  piece-NoNul =
      All-append _ digits (b'\n' ∷ name) (NoNul-digits digits all_digits) (ground arith, no_nul)

  text : c_string (written old piece) ≡ piece
  text = c_string-terminated piece (drop (suc (length piece)) old) piece-NoNul

  measured : length piece ≡ length digits + suc (length name)
  measured = length-append digits (b'\n' ∷ name)

  found : newline_at (c_string (written old piece)) ≡ some (length digits)
  found = ap newline_at text ∙ newline_at-digits digits name all_digits

  kept : c_string (drop (suc (length digits)) (take (length piece) (written old piece))) ≡ name
  kept =
      ap (λ u. c_string (drop (suc (length digits)) u))
        (take-length piece (0 ∷ drop (suc (length piece)) old))
      ∙ ap c_string (drop-behind digits name b'\n')
      ∙ c_string-NoNul name no_nul

  body :
      receive_body
        (written old piece)
        (length piece)
        (length digits)
        (pos (length digits + 1 + n))
        (got behind ∷ [])
      ≡ ok (answers name)
  unfolding receive_body receive_rest
  body =
      let row = length-append piece (0 ∷ drop (suc (length piece)) old) in
      let whole : ltb (length (written old piece)) (length piece) ≡ false = ground (arith, row) in
      let fits : ltb (length digits + 1 + n + 10) (length piece) ≡ false =
        ground (arith, measured, sized) in
      let room : less (pos (length digits + 1 + n + 10) +ℤ minus (pos (length piece)))
            (pos (length behind))
          ≡ false =
        ground (arith, measured, sized) in
      let done : ltb (length piece + length behind) (length digits + 1 + n) ≡ false =
        ground (arith, measured, sized) in
      let spare : less (pos (length digits + 1 + n + 10) +ℤ minus (pos (length piece))) (pos 1)
          ≡ false =
        ground (arith, measured, sized) in
      rw (whole, fits, room, done, spare) (ap (λ t. ok (answers t)) kept)

  header : receive_header old 0 (got piece ∷ got behind ∷ []) ≡ ok (answers name)
  unfolding receive_header
  header =
      let small : leb 100 (length piece) ≡ false = ground (arith, measured, sized, short) in
      let start : 0 + length piece ≡ length piece = omega arith in
      let size : atoi (c_string (written old piece)) ≡ pos n = ap atoi text ∙ number in
      rw (small, found, size, start) body

NoNul-front : (s t : Bytes) → NoNul (s ++ t) → NoNul s
NoNul-front [] t h = tt
NoNul-front (c ∷ s) t h = (h.0, NoNul-front s t h.1)

-- The names of the verdicts are short texts.
abbrev Small : Bytes → Type 0
Small name = NoNul name × (length (decimal (length name)) + length name < 90)

verdict_to_string-Small : (v : Verdict) → Small (verdict_to_string v)
unfolding verdict_to_string decimal_onto
verdict_to_string-Small accepted = ground arith
verdict_to_string-Small wrong = ground arith
verdict_to_string-Small compile_error = ground arith
verdict_to_string-Small timelimit = ground arith
verdict_to_string-Small memlimit = ground arith
verdict_to_string-Small outputlimit = ground arith
verdict_to_string-Small runtime = ground arith
verdict_to_string-Small internal = ground arith

-- The length of a verdict's name, and the start of the name.
abbrev pub first_piece : Verdict → Bytes → Bytes
first_piece v name = decimal_onto (length (verdict_to_string v)) (b'\n' ∷ name)

-- Where the answer of the daemon comes in two pieces, the first one with the length and a start of
-- the name, an empty second piece being the end of the connection, the client takes that start for
-- the verdict.
pub receive_answer-response :
    (init : Bytes) (v : Verdict) (name behind : Bytes)
    → verdict_to_string v ≡ name ++ behind
    → (response v ≡ first_piece v name ++ behind)
      × (receive_answer init (got (first_piece v name) ∷ got behind ∷ []) ≡ ok (answers name))
unfolding receive_answer
receive_answer-response init v name behind e =
    let n = length (verdict_to_string v) in
    let (no_nul, short) = verdict_to_string-Small v in
    let split : first_piece v name ≡ decimal n ++ (b'\n' ∷ name) =
      decimal_onto-append n (b'\n' ∷ name) in
    let sized : length name + length behind ≡ n =
      sym (length-append name behind) ∙ ap length (sym e) in
    let whole : response v ≡ first_piece v name ++ behind =
      decimal_onto-append n (b'\n' ∷ verdict_to_string v)
      ∙ ap (λ t. decimal n ++ (b'\n' ∷ t)) e
      ∙ sym (append_assoc (decimal n) (b'\n' ∷ name) behind)
      ∙ ap (λ t. t ++ behind) (sym split) in
    let read =
      header (take 100 init) (decimal n) name behind n (decimal-All n)
        (NoNul-front name behind (subst NoNul e no_nul))
        (ap atoi (sym split) ∙ atoi-decimal_onto n b'\n' name refl) sized short in
    (whole, ap (λ p. receive_header (take 100 init) 0 (got p ∷ got behind ∷ [])) split ∙ read)
