-- ===== src/Judge/Exchange.antt =====
-- A whole exchange: the client's request, its way to the worker, and the answer's way back.
mod Refused
mod Tests
use kudos_judge.Base.{
  ◌≤◌, ◌<◌, ◌≡◌, ◌≢◌, refl, sym, ap, subst, ◌∙◌, some, List, [], ◌∷◌, ◌++◌, append-nil, map, Bytes,
  All, Option, true, ℕ, ℤ, pos, is_ℕ, ok, ok_cancel, flatten, length,
}
use kudos_judge.Client.Receive.Answer.{first_piece, receive_answer-response}
use kudos_judge.Client.Receive
use kudos_judge.Client.Main.Exits.{main-printed, kudosjudge_send_total}
use kudos_judge.Client.Main.{Calls, main, shows}
use kudos_judge.Client.Receive.{answers, receive_answer}
use kudos_judge.Client.{forge, forge_body, frame}
use kudos_judge.Interface.BufferLib.{BufferLib, NoNul}
use kudos_judge.Interface.Protocol.{forge-frame, receive-decode}
use kudos_judge.Interface.Receive.Framing.{collect}
use kudos_judge.Interface.Receive.{Recv, got, request_size_max, message, receive}
use kudos_judge.Interface.Send.Delivery.{Takes, send_verdict_total}
use kudos_judge.Interface.Send.{Send, Sent, send_verdict, response}
use kudos_judge.Interface.Decode.RoundTrip.{judging}
use kudos_judge.Interface.Decode.{decode}
use kudos_judge.Judge.Accepted.{Judges, answered}
use kudos_judge.Judge.{Machine, process, judge_submission, services}
use kudos_judge.Lang.Process.{filled}
use kudos_judge.Lang.{BinaryInformation}
use kudos_judge.Runner.Run.Accepted.{Exits}
use kudos_judge.Verdict.{Verdict, verdict_to_string}
use kudos_judge.Worker.Verdicts.{verdicts, submission_of, files_of}
use kudos_judge.Worker.{serve}

-- The client reads this answer where all of it comes at once and the connection is closed behind it.
reads_all :
    (init : Bytes) (v : Verdict)
    → receive_answer init (Receive.got (response v) ∷ Receive.got [] ∷ [])
      ≡ ok (answers (verdict_to_string v))
reads_all init v =
    (receive_answer-response init v (verdict_to_string v) []
      (sym (append-nil (verdict_to_string v)))).1

-- Texts that the client puts into a request whole.
abbrev pub Forgeable : Bytes → Bytes → Bytes → Type 0
Forgeable source input output =
    NoNul source
    × NoNul input
    × NoNul output
    × (length source < 1000)
    × (length input < 10000)
    × (length output < 4000)

-- The worker finds this binary for the source code and comes to this verdict.
pub record Decides (m : Machine) (source input output : Bytes) (info : BinaryInformation)
    (v : Verdict) : Type 0 where
  pub compiled : (process m source).code ≡ pos 0
  pub filled_in : (process m source).info ≡ filled info
  pub judged :
      judge_submission m
        (files_of (services m) input output)
        (submission_of (services m) info source input output)
      ≡ some v

-- A client that is called with three files on this host, and that connects; its socket always takes
-- something.
pub record Asks (source input output : Bytes) : Type 0 where
  pub program : Bytes
  pub source_filename : Bytes
  pub input_filename : Bytes
  pub output_filename : Bytes
  pub fopen : Option Bytes → Option Bytes
  pub sends : List Send
  pub init : Bytes
  pub source_file : fopen (some source_filename) ≡ some source
  pub input_file : fopen (some input_filename) ≡ some input
  pub output_file : fopen (some output_filename) ≡ some output
  pub takes : All Takes sends

abbrev pub argv : {source input output : Bytes} → Asks source input output → List Bytes
argv a = a.program ∷ a.source_filename ∷ a.input_filename ∷ a.output_filename ∷ []

-- The client gets this answer at once, and the end of the connection behind it.
abbrev pub calls : {source input output : Bytes} → Asks source input output → Bytes → Calls
calls a answer = record {
  socket = true;
  connect = true;
  fopen = a.fopen;
  sends = a.sends;
  init = a.init;
  arrivals = Receive.got answer ∷ Receive.got [] ∷ [];
}

module _ (lib : BufferLib) (m : Machine) (source input output : Bytes) (info : BinaryInformation)
    (v : Verdict) (c : Bytes) (parts : List Bytes) (later : List Recv) (sends : List Send)
    (a : Asks source input output) (forgeable : Forgeable source input output)
    (forged : forge (some source) (some input) (some output) ≡ ok (flatten (c ∷ parts)))
    (each : All (λ t. (t ≢ []) × NoNul t) (c ∷ parts))
    (small : length (flatten (c ∷ parts)) < request_size_max)
    (asked : length (flatten (c ∷ parts)) ≤ length a.sends) where
  open lib use {Buffer, new, get_string, size}

  pub received :
      length (flatten (c ∷ parts)) < size (collect lib new (c ∷ parts))
      → (r : Buffer) × (receive lib (map got (c ∷ parts) ++ later) ≡ message r)
        × (decode (get_string r) ≡ ok (judging source input output))
  received room =
      let (clean_s, clean_i, clean_o, ls, li, lo) = forgeable in
      let sent : flatten (c ∷ parts) ≡ frame (forge_body source input output) =
        ok_cancel (sym forged ∙ forge-frame source input output clean_s clean_i clean_o ls li lo) in
      receive-decode lib source input output c parts later each sent
        (subst (λ t. length t < request_size_max) sent small)
        (subst (λ t. length t < size (collect lib new (c ∷ parts))) sent room)

  served :
      length (flatten (c ∷ parts)) < size (collect lib new (c ∷ parts))
      → Decides m source input output info v
      → (r : Buffer) × (receive lib (map got (c ∷ parts) ++ later) ≡ message r)
        × Judges m source input output (get_string r) info v
  served room d =
      let (r, e, decoded) = received room in
      (
        r,
        e,
        record {
          decoded = decoded;
          compiled = d.compiled;
          filled_in = d.filled_in;
          judged = d.judged;
        },
      )

  pub main-shown :
      (t : Sent)
      → t.bytes ≡ response v
      → main (calls a t.bytes) (argv a)
        ≡ ok (shows (flatten (c ∷ parts)) (some (verdict_to_string v)))
  main-shown t whole =
      main-printed (calls a t.bytes) a.program a.source_filename a.input_filename a.output_filename
        source input output (flatten (c ∷ parts)) (flatten (c ∷ parts))
        (answers (verdict_to_string v)) refl refl a.source_file a.input_file a.output_file forged
        (kudosjudge_send_total a.sends (flatten (c ∷ parts)) a.takes asked)
        (ap (λ b. receive_answer a.init (Receive.got b ∷ Receive.got [] ∷ [])) whole
          ∙ reads_all a.init v)

  -- Where the client is called with three files whose texts have no NUL and fit its arrays, it
  -- connects, the sockets take something each time, as often as there are bytes, the request is
  -- within the limit of the server and comes to a worker in any non-empty pieces, into a buffer
  -- with a byte to spare, the source code compiles and the runner comes to a verdict: the worker
  -- has the whole request, whatever comes behind it, and sends this verdict and no other, and a
  -- client that gets what was sent at once, with the end of the connection behind it, has sent the
  -- whole request and prints the name of the verdict.
  pub exchange :
      length (flatten (c ∷ parts)) < size (collect lib new (c ∷ parts))
      → Decides m source input output info v
      → All Takes sends
      → length (response v) ≤ length sends
      → (r : Buffer) × (t : Sent) × (receive lib (map got (c ∷ parts) ++ later) ≡ message r)
        × (verdicts (serve (services m) (some (get_string r))) ≡ v ∷ [])
        × (send_verdict sends v ≡ some t)
        × (main (calls a t.bytes) (argv a)
            ≡ ok (shows (flatten (c ∷ parts)) (some (verdict_to_string v))))
  exchange room d takes enough =
      let (r, e, j) = served room d in
      let (t, sent, whole) = send_verdict_total sends v takes enough in
      (r, t, e, answered m source input output (get_string r) info v j, sent, main-shown t whole)
