-- ===== src/Interface/Tests.antt =====
-- Runs of interface.c and client.c on small requests, and a string library to run them with.
use kudos_judge.Base.{
  flatten, ℕ, suc, ◌≡◌, ◌≢◌, refl, some, List, [], ◌∷◌, ◌++◌, map, Bytes, All, arith, pos, negsuc,
  length, take, ok, error, fault,
}
use kudos_judge.Client.{forge_body, frame}
use kudos_judge.Decimal.{decimal_onto, atoi}
use kudos_judge.Interface.BufferLib.Sparing.{sparing}
use kudos_judge.Interface.BufferLib.{NoNul}
use kudos_judge.Interface.Decode.RoundTrip.{judging, decode-forge_body}
use kudos_judge.Interface.Decode.{decode}
use kudos_judge.Interface.Protocol.{receive-decode, receive_full}
use kudos_judge.Interface.Receive.{
  got, closed, message, receive, take_piece, read_metadata, cut_body,
}
use kudos_judge.Interface.Request.{number_line, sized_text, skip_line, advance}
use kudos_judge.Interface.Send.Delivery.{send_verdict-response}
use kudos_judge.Interface.Send.{Send, took, Sent, send_verdict, response}
use kudos_judge.Verdict.{codes, accepted, verdict_to_string}

abbrev source_text : Bytes
source_text = codes "main"

abbrev input_text : Bytes
input_text = codes "4 2\n"

abbrev output_text : Bytes
output_text = codes "6\n"

abbrev body_text : Bytes
body_text = codes "0\n0\n4\n4 2\n\n0\n2\n6\n\n4\nmain"

-- The length line in two parts, and the body.
abbrev pieces : List Bytes
pieces = codes "4\n0\n0\n" ∷ codes "4\n4 2\n\n0\n2\n6\n\n4\nmain" ∷ []

forge_body_run : forge_body source_text input_text output_text ≡ body_text
unfolding forge_body decimal_onto
forge_body_run = refl

decode_run : decode body_text ≡ ok (judging source_text input_text output_text)
unfolding decode decimal_onto number_line sized_text skip_line advance atoi
decode_run = refl

receive_run : receive (sparing 1) (got (codes "2") ∷ map got pieces) ≡ message body_text
unfolding receive take_piece read_metadata cut_body atoi
receive_run = refl

sent_run : flatten (codes "2" ∷ pieces) ≡ frame (forge_body source_text input_text output_text)
unfolding forge_body decimal_onto
sent_run = refl

each_piece : All (λ t. (t ≢ []) × NoNul t) (codes "2" ∷ pieces)
each_piece = ground arith

full_decode : decode (take 23 body_text) ≡ error (negsuc 1)
unfolding decode number_line sized_text skip_line advance atoi
full_decode = refl

negative_length : decode (codes "0\n0\n-1\nab") ≡ error (negsuc 1)
unfolding decode number_line sized_text skip_line advance atoi
negative_length = refl

no_newline : decode (codes "0") ≡ fault
unfolding decode number_line skip_line
no_newline = refl

response_accepted : response accepted ≡ codes "8\nACCEPTED"
unfolding decimal_onto verdict_to_string
response_accepted = refl

receive-decode_example :
    (r : Bytes) × (receive (sparing 1) (map got (codes "2" ∷ pieces) ++ closed ∷ []) ≡ message r)
    × (decode r ≡ ok (judging source_text input_text output_text))
unfolding forge_body decimal_onto
receive-decode_example =
    receive-decode (sparing 1) source_text input_text output_text (codes "2") pieces (closed ∷ [])
      each_piece sent_run (omega arith) (omega arith)

receive_full_example :
    (r : Bytes) × (receive (sparing 0) (map got (codes "2" ∷ pieces) ++ []) ≡ message r)
    × (decode r ≡ error (negsuc 1))
unfolding forge_body decimal_onto
receive_full_example =
    receive_full (sparing 0) source_text input_text output_text (codes "2") pieces [] each_piece
      sent_run (omega arith) (omega arith) refl

decode-forge_body_example :
    decode (forge_body source_text input_text output_text)
    ≡ ok (judging source_text input_text output_text)
decode-forge_body_example = decode-forge_body source_text input_text output_text

abbrev two_parts : List Send
two_parts = took 4 ∷ took 6 ∷ []

abbrev all_sent : Sent
all_sent = record { bytes = codes "8\nACCEPTED"; bytes_sent = pos 6 }

two_parts_run : send_verdict two_parts accepted ≡ some all_sent
unfolding send_verdict decimal_onto verdict_to_string
two_parts_run = refl

send_verdict-response_example :
    (unsent : Bytes) × (response accepted ≡ codes "8\nACCEPTED" ++ unsent)
    × ((n : ℕ) → all_sent.bytes_sent ≡ pos (suc n) → unsent ≡ [])
    × (number_line (response accepted)
        ≡ ok (pos (length (verdict_to_string accepted)), verdict_to_string accepted))
send_verdict-response_example = send_verdict-response two_parts accepted all_sent two_parts_run
