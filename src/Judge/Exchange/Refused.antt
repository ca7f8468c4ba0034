-- ===== src/Judge/Exchange/Refused.antt =====
-- An exchange about a submission that does not compile.
use kudos_judge.Base.{
  ◌≤◌, ◌<◌, ◌≡◌, ◌≢◌, some, List, [], ◌∷◌, ◌++◌, false, map, Bytes, All, ok, flatten, length,
}
use kudos_judge.Client.Main.{main, shows}
use kudos_judge.Client.{forge}
use kudos_judge.Interface.BufferLib.{BufferLib, NoNul}
use kudos_judge.Interface.Receive.Framing.{collect}
use kudos_judge.Interface.Receive.{Recv, got, request_size_max, message, receive}
use kudos_judge.Interface.Send.Delivery.{Takes, send_verdict_total}
use kudos_judge.Interface.Send.{Send, Sent, send_verdict, response}
use kudos_judge.Judge.Exchange.{Forgeable, Asks, calls, argv, received, main-shown}
use kudos_judge.Judge.Refused.{serve-Uncompiled}
use kudos_judge.Judge.{Machine, services}
use kudos_judge.Lang.Process.Outcomes.{Known, Uncompiled}
use kudos_judge.Lang.Process.{submission_name}
use kudos_judge.Lang.{BinaryInformation, Lang}
use kudos_judge.Verdict.{verdict_to_string, compile_error, codes}
use kudos_judge.Worker.Verdicts.{verdicts}
use kudos_judge.Worker.{serve}

-- The lemmas on the exchange are for any binary.
abbrev no_binary : BinaryInformation
no_binary = record { bin_cmd = []; bin_path = []; interpreted = false }

module _ (lib : BufferLib) (m : Machine) (source input output : Bytes) (c : Bytes)
    (parts : List Bytes) (later : List Recv) (sends : List Send) (a : Asks source input output)
    (forgeable : Forgeable source input output)
    (forged : forge (some source) (some input) (some output) ≡ ok (flatten (c ∷ parts)))
    (each : All (λ t. (t ≢ []) × NoNul t) (c ∷ parts))
    (small : length (flatten (c ∷ parts)) < request_size_max)
    (asked : length (flatten (c ∷ parts)) ≤ length a.sends) where
  open lib use {Buffer, new, get_string, size}

  -- Where the client is called with three files whose texts have no NUL and fit its arrays, it
  -- connects, the sockets take something each time, as often as there are bytes, the request is
  -- within the limit of the server and comes to a worker in any non-empty pieces, into a buffer
  -- with a byte to spare, C is known and not by an interpreter, the worker has its directory and
  -- writes the source code to its file, but no output file is there behind the compiler: the
  -- worker sends VERDICT_COMPILE_ERROR and no other verdict, and a client that gets what was sent
  -- at once, with the end of the connection behind it, prints COMPILING ERROR.
  pub exchange-Uncompiled :
      (lang : Lang)
      → length (flatten (c ∷ parts)) < size (collect lib new (c ∷ parts))
      → Known m.host m.langs (codes "c") lang
      → Uncompiled m.host lang (submission_name m.lang_workspace m.worker_id) source
      → All Takes sends
      → length (response compile_error) ≤ length sends
      → (r : Buffer) × (t : Sent) × (receive lib (map got (c ∷ parts) ++ later) ≡ message r)
        × (verdicts (serve (services m) (some (get_string r))) ≡ compile_error ∷ [])
        × (send_verdict sends compile_error ≡ some t)
        × (main (calls a t.bytes) (argv a)
            ≡ ok (shows (flatten (c ∷ parts)) (some (codes "COMPILING ERROR"))))
  unfolding verdict_to_string
  exchange-Uncompiled lang room known failed takes enough =
      let (r, e, decoded) =
        received lib m source input output no_binary compile_error c parts later sends a forgeable
          forged each small asked room in
      let (t, sent, whole) = send_verdict_total sends compile_error takes enough in
      (
        r,
        t,
        e,
        (serve-Uncompiled m source input output (get_string r) decoded).1 (lang, known, failed),
        sent,
        main-shown lib m source input output no_binary compile_error c parts later sends a forgeable
            forged each small asked t whole,
      )
