-- ===== src/Interface/Decode.antt =====
-- `jug_int_decode` of interface.c. The argument is the string of the buffer, with no terminator
-- inside. Memory is always granted.
pub mod RoundTrip
pub mod Truncated
use kudos_judge.Base.{
  Option, some, none, Bytes, ltb, if◌then◌else◌, ℤ, negsuc, is_ℕ, length, Result, ok, error, ◌>>=◌,
}
use kudos_judge.Interface.Request.{Request, advance, number_line, sized_text}

pub record Feed : Type 0 where
  pub text : Option Bytes
  pub reference : Option ℤ
  -- the pointer behind it; a fault where it lies behind the terminator and is read
  pub rest : Result Bytes

text_feed : Bytes → Result Feed
text_feed s = do
  (text, after) ← sized_text s
  ok (record { text = some text; reference = none; rest = advance 1 after })

reference_feed : Bytes → Result Feed
reference_feed s = do
  (reference, rest) ← number_line s
  ok (record { text = none; reference = some reference; rest = ok rest })

-- The input or the expected output: a text and a separator, or a reference on a line.
unfoldable pub decode_feed : ℤ → Bytes → Result Feed
unfolding text_feed reference_feed
decode_feed feedtype s =
    if is_ℕ feedtype 0
    then text_feed s
    else if is_ℕ feedtype 1
    then reference_feed s
    else error (negsuc 2)

judge_source : Result Bytes → Result (Option Bytes)
judge_source rest = do s ← rest; (text, _) ← sized_text s; ok (some text)

setfeed_source : Result Bytes → Result (Option Bytes)
setfeed_source rest = do s ← rest; if ltb 0 (length s) then error (negsuc 3) else ok none

-- The source code of a judging request; nothing may follow in a feed request.
unfoldable pub decode_source : ℤ → Result Bytes → Result (Option Bytes)
unfolding judge_source setfeed_source
decode_source type rest =
    if is_ℕ type 0
    then judge_source rest
    else if is_ℕ type 1
    then setfeed_source rest
    else error (negsuc 2)

unfoldable pub decode : Bytes → Result Request
unfolding decode_feed decode_source
decode string = do
  (type, s) ← number_line string
  (in_type, s) ← number_line s
  input ← decode_feed in_type s
  s ← input.rest
  (out_type, s) ← number_line s
  output ← decode_feed out_type s
  sourcecode ← decode_source type output.rest
  ok (record {
    type = type;
    in_type = in_type;
    out_type = out_type;
    sourcecode = sourcecode;
    in_reference = input.reference;
    input = input.text;
    out_reference = output.reference;
    output = output.text;
  })
