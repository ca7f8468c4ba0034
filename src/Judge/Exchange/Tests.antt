-- ===== src/Judge/Exchange/Tests.antt =====
-- One exchange: a request in two pieces, and its answer.
use kudos_judge.Base.{
  ℕ, zero, suc, Option, none, same_text, if◌then◌else◌, ◌≡◌, ◌≢◌, refl, some, List, [], ◌∷◌, ◌++◌,
  map, Bytes, All, arith, flatten, ok, pos,
}
use kudos_judge.Client.Main.{main, shows}
use kudos_judge.Client.{forge, forge_body, read_text}
use kudos_judge.Decimal.{decimal_onto}
use kudos_judge.Interface.BufferLib.Sparing.{sparing}
use kudos_judge.Interface.BufferLib.{NoNul}
use kudos_judge.Interface.Receive.{got, message, receive}
use kudos_judge.Interface.Send.Delivery.{Takes}
use kudos_judge.Interface.Send.{Send, took, Sent, send_verdict}
use kudos_judge.Judge.Exchange.{Decides, Forgeable, Asks, calls, argv, exchange}
use kudos_judge.Judge.Exchange.Refused.{exchange-Uncompiled}
use kudos_judge.Judge.Refused.Tests.{broken}
use kudos_judge.Judge.Tests.{c_language, machine, binary, output, judged}
use kudos_judge.Judge.{services}
use kudos_judge.Lang.Process.Outcomes.{no_executable}
use kudos_judge.Lang.{lang_get}
use kudos_judge.Verdict.{accepted, compile_error, codes, verdict_to_string}
use kudos_judge.Worker.Verdicts.{verdicts}
use kudos_judge.Worker.{serve}

abbrev source : Bytes
source = codes "ok"

abbrev input : Bytes
input = codes "7"

abbrev parts : List Bytes
parts = codes "0\n1\n7\n0\n3\n16\n\n2\nok" ∷ []

abbrev first : Bytes
first = codes "20\n0\n"

forged : forge (some source) (some input) (some output) ≡ ok (flatten (first ∷ parts))
unfolding forge read_text forge_body decimal_onto
forged = refl

each_part : All (λ t. (t ≢ []) × NoNul t) (first ∷ parts)
each_part = ground arith

forgeable : Forgeable source input output
forgeable = (ground arith, ground arith, ground arith, omega arith, omega arith, omega arith)

decides : Decides machine source input output binary accepted
decides = record {
  compiled = judged.compiled;
  filled_in = judged.filled_in;
  judged = judged.judged;
}

ones : ℕ → List Send
ones zero = []
ones (suc n) = took 1 ∷ ones n

abbrev sends : List Send
sends = took 4 ∷ took 6 ∷ took 1 ∷ took 1 ∷ took 1 ∷ took 1 ∷ took 1 ∷ took 1 ∷ took 1 ∷ took 1 ∷ []

abbrev client_sends : List Send
client_sends = took 5 ∷ ones 30

client-Takes : All Takes client_sends
unfolding ones
client-Takes = ground arith

opens : Option Bytes → Option Bytes
opens none = none
opens (some name) =
    if same_text name (codes "a.c")
    then some source
    else (if same_text name (codes "in") then some input else some output)

abbrev asks : Asks source input output
unfolding opens same_text ones
asks = record {
  program = codes "client";
  source_filename = codes "a.c";
  input_filename = codes "in";
  output_filename = codes "out";
  fopen = opens;
  sends = client_sends;
  init = [];
  source_file = refl;
  input_file = refl;
  output_file = refl;
  takes = client-Takes;
}

exchange_example :
    (r : Bytes) × (t : Sent) × (receive (sparing 1) (map got (first ∷ parts) ++ []) ≡ message r)
    × (verdicts (serve (services machine) (some r)) ≡ accepted ∷ [])
    × (send_verdict sends accepted ≡ some t)
    × (main (calls asks t.bytes) (argv asks)
        ≡ ok (shows (flatten (first ∷ parts)) (some (verdict_to_string accepted))))
unfolding decimal_onto verdict_to_string ones asks
exchange_example =
    exchange (sparing 1) machine source input output binary accepted first parts [] sends asks
      forgeable forged each_part (omega arith) (omega arith) (omega arith) decides (ground arith)
      (omega arith)

abbrev sent : Sent
sent = record { bytes = codes "8\nACCEPTED"; bytes_sent = pos 6 }

-- The answer of 18 bytes, one by one.
abbrev slow : List Send
slow = ones 18

slow-Takes : All Takes slow
unfolding ones
slow-Takes = ground arith

exchange-Uncompiled_example :
    (r : Bytes) × (t : Sent) × (receive (sparing 1) (map got (first ∷ parts) ++ []) ≡ message r)
    × (verdicts (serve (services broken) (some r)) ≡ compile_error ∷ [])
    × (send_verdict slow compile_error ≡ some t)
    × (main (calls asks t.bytes) (argv asks)
        ≡ ok (shows (flatten (first ∷ parts)) (some (codes "COMPILING ERROR"))))
unfolding decimal_onto verdict_to_string ones asks lang_get same_text
exchange-Uncompiled_example =
    exchange-Uncompiled (sparing 1) broken source input output first parts [] slow asks forgeable
      forged each_part (omega arith) (omega arith) c_language (omega arith) (refl, refl)
      (no_executable refl (refl, refl, refl)) slow-Takes (omega arith)
