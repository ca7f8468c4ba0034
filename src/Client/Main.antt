-- ===== src/Client/Main.antt =====
-- `main` of client.c: the arguments, the connection, the request, the verdict and the duration.
pub mod Exits
mod Tests
use kudos_judge.Base.{
  ℕ, zero, suc, ◌+◌, ◌/◌, ◌%◌, Bool, true, false, not, ◌&&◌, Option, none, some, List, [], ◌∷◌,
  ◌++◌, Bytes, ltb, leb, ◌==◌, if◌then◌else◌, length, take, drop, get_elem?, Result, ok, fault,
  ◌>>=◌,
}
use kudos_judge.Client.Receive.{Arrival, Received, answers, gives_up, waits, receive_answer}
use kudos_judge.Client.{forge}
use kudos_judge.Decimal.{decimal_onto}
use kudos_judge.Interface.Send.{Send, took, refused}
use kudos_judge.Verdict.{codes}

-- `argv[1][0]=='-' && argv[1][1]=='h'`
unfoldable pub is_host_flag : Bytes → Bool
is_host_flag (c ∷ d ∷ rest) = c == b'-' && d == b'h'
is_host_flag _ = false

pub record Arguments : Type 0 where
  pub host : Bytes
  pub source_filename : Option Bytes
  pub input_filename : Option Bytes
  pub output_filename : Option Bytes

abbrev pub files_at : ℕ → Bytes → List Bytes → Arguments
files_at index host argv = record {
  host = host;
  source_filename = get_elem? argv index;
  input_filename = get_elem? argv (index + 1);
  output_filename = get_elem? argv (index + 2);
}

-- `char host[100]`
abbrev pub host_size : ℕ
host_size = 100

abbrev given_host : Bytes → List Bytes → Result Arguments
given_host host argv = if leb host_size (length host) then fault else ok (files_at 3 host argv)

abbrev has_host : List Bytes → Bool
has_host (program ∷ first ∷ rest) = is_host_flag first
has_host _ = false

abbrev second : List Bytes → Bytes
second (program ∷ first ∷ host ∷ rest) = host
second _ = []

-- The arguments, where there are at least three.
unfoldable pub arguments : List Bytes → Result Arguments
unfolding is_host_flag
arguments argv =
    if ltb 4 (length argv) && has_host argv
    then given_host (second argv) argv
    else ok (files_at 1 (codes "127.0.0.1") argv)

-- `kudosjudge_send`: what has gone out; `none` is a `send` that has not returned.
unfoldable pub kudosjudge_send : List Send → Bytes → Option Bytes
kudosjudge_send sends [] = some []
kudosjudge_send [] (c ∷ s) = none
kudosjudge_send (refused ∷ sends) (c ∷ s) = some []
kudosjudge_send (took zero ∷ sends) (c ∷ s) = some []
kudosjudge_send (took (suc n) ∷ sends) (c ∷ s) = elim (kudosjudge_send sends (drop n s)) [
  | none ↦ none
  | some more ↦ some (c ∷ (take n s ++ more))
]

-- What the system answers.
pub record Calls : Type 0 where
  pub socket : Bool
  pub connect : Bool
  -- the content of the file of a name, where it opens
  pub fopen : Option Bytes → Option Bytes
  pub sends : List Send
  -- what lies in `init_buffer`, and what `recv` gives
  pub init : Bytes
  pub arrivals : List Arrival

-- The end of `main`: an early return, or the verdict that is printed behind what was sent, `none`
-- being NULL; or a call that has not returned.
pub data End : Type 0 where
  returns : ℕ → End
  shows : Bytes → Option Bytes → End
  blocks : End

abbrev pub printed : Bytes → Received → End
printed sent (answers text) = shows sent (some text)
printed sent gives_up = shows sent none
printed sent waits = blocks

unfoldable pub converse : Calls → Bytes → Result End
unfolding kudosjudge_send
converse c request = elim (kudosjudge_send c.sends request) [
  | none ↦ ok blocks
  | some sent ↦ do reply ← receive_answer c.init c.arrivals; ok (printed sent reply)
]

unfoldable pub main : Calls → List Bytes → Result End
unfolding arguments converse
main c argv = if ltb (length argv) 4 then ok (returns 0) else (do
  a ← arguments argv
  (if not c.socket then ok (returns 5) else if not c.connect then ok (returns 1) else (do
    request ←
        forge (c.fopen a.source_filename) (c.fopen a.input_filename) (c.fopen a.output_filename)
    converse c request)))

-- `print_hr_duration`
unfoldable pub print_hr_duration : ℕ → Bytes
print_hr_duration useconds =
    let rest = useconds % 1000000 in
    decimal_onto (useconds / 1000000) (
      codes "s "
      ++ decimal_onto (rest / 1000) (codes "ms " ++ decimal_onto (rest % 1000) (codes "us\n")))
