-- ===== src/Client.antt =====
-- client.c: the experimental client. `kudosdjudge_forge_dd` builds a request with the input and the
-- expected output as data.
pub mod Receive
pub mod Main
mod Tests
use kudos_judge.Base.{
  c_string, ◌+◌, Option, none, some, [], ◌∷◌, ◌++◌, Bytes, ℕ, leb, ◌==◌, if◌then◌else◌, length,
  Result, ok, fault, ◌>>=◌,
}
use kudos_judge.Decimal.{decimal_onto}

-- One loop `while(!feof(file))`: the file's string is appended to an empty array of `room` bytes.
-- `fread` fills at most the 10,000 bytes of `block_buffer`, and a full block has its terminator
-- written one past the end. A shorter block is the last. `none` is a file that does not open.
unfoldable pub read_text : ℕ → Option Bytes → Result Bytes
read_text room none = fault
read_text room (some content) =
    let text = c_string content in
    if leb 10000 (length content) then fault else if leb room (length text) then fault else ok text

-- `sprintf(body, "%d\n%d\n%ld\n%s\n%d\n%ld\n%s\n%ld\n%s", type, in_type, …)`, where the request, the
-- input and the output have type 0.
unfoldable pub forge_body : Bytes → Bytes → Bytes → Bytes
forge_body source input output =
    let source_part = decimal_onto (length source) (b'\n' ∷ source) in
    let output_text = output ++ (b'\n' ∷ source_part) in
    let output_part = decimal_onto 0 (b'\n' ∷ decimal_onto (length output) (b'\n' ∷ output_text)) in
    let input_text = input ++ (b'\n' ∷ output_part) in
    let input_part = decimal_onto 0 (b'\n' ∷ decimal_onto (length input) (b'\n' ∷ input_text)) in
    decimal_onto 0 (b'\n' ∷ input_part)

-- `sprintf(request, "%d\n%s", bodylen, body)`
abbrev pub frame : Bytes → Bytes
frame body = decimal_onto (length body) (b'\n' ∷ body)

-- `ftell` at the end of the file
abbrev pub file_size : Option Bytes → ℕ
file_size none = 0
file_size (some content) = length content

-- `kudosdjudge_forge_dd`, on the contents of the three files.
unfoldable pub forge : Option Bytes → Option Bytes → Option Bytes → Result Bytes
unfolding read_text
forge source_file input_file output_file = do
  source ← read_text 1000 source_file
  input ← read_text (file_size input_file + 1) input_file
  output ← read_text 4000 output_file
  ok (frame (forge_body source input output))
