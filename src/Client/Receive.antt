-- ===== src/Client/Receive.antt =====
-- `kudosjudge_receive` of client.c: the answer of the daemon, from what `recv` gives.
pub mod Answer
use kudos_judge.Base.{
  ℕ, suc, ◌+◌, Option, none, some, List, [], ◌∷◌, ◌++◌, Bytes, ltb, leb, ◌==◌, if◌then◌else◌,
  length, take, drop, ℤ, pos, negsuc, ◌+ℤ◌, less, minus, c_string, Result, ok, fault,
}
use kudos_judge.Decimal.{atoi}

-- A return of `recv`: bytes, none of them where the other side has closed; EAGAIN; or another error.
pub data Arrival : Type 0 where
  got : Bytes → Arrival
  again failed : Arrival

-- The text, NULL, or a `recv` that has not returned.
pub data Received : Type 0 where
  answers : Bytes → Received
  gives_up waits : Received

-- `strchr(init_buffer,'\n')` and the text behind it.
unfoldable pub newline_at : Bytes → Option ℕ
newline_at [] = none
newline_at (c ∷ s) =
    let more : Option ℕ = elim (newline_at s) [ none ↦ none | some i ↦ some (suc i) ] in
    if c == b'\n' then some 0 else more

-- The array, once a piece and its terminator are written at its start.
abbrev pub written : Bytes → Bytes → Bytes
written old piece = piece ++ (0 ∷ drop (suc (length piece)) old)

-- The terminator behind the first piece, where the buffer has a byte left there.
abbrev pub terminate_text : ℤ → Bytes → Result Received
terminate_text room text = if less room (pos 1) then fault else ok (answers text)

-- The loop behind the header. Each piece is written behind the first one, and cut off in the end, so
-- that the text is known. `room` is what is left of the buffer there.
unfoldable pub receive_rest : ℤ → ℤ → Bytes → ℤ → List Arrival → Result Received
receive_rest room size text acc [] = ok waits
receive_rest room size text acc (failed ∷ more) = ok gives_up
receive_rest room size text acc (again ∷ more) =
    let acc' = acc +ℤ negsuc 0 in
    let rest = receive_rest room size text acc' more in
    if less acc' size then rest else terminate_text room text
receive_rest room size text acc (got piece ∷ more) =
    let acc' = acc +ℤ pos (length piece) in
    let rest = receive_rest room size text acc' more in
    if less room (pos (length piece))
    then fault
    else if less acc' size
    then rest
    else terminate_text room text

-- `malloc(size_expected+10)`, the copy of the array, and the text behind its newline.
unfoldable pub receive_body : Bytes → ℕ → ℕ → ℤ → List Arrival → Result Received
unfolding receive_rest
receive_body init acc index size more =
    let text = c_string (drop (suc index) (take acc init)) in
    let room = size +ℤ pos 10 in
    let rest = receive_rest (room +ℤ minus (pos acc)) size text (pos acc) more in
    if ltb (length init) acc then fault else if less room (pos acc) then fault else rest

-- The loop up to the newline. A full piece has its terminator behind the array, and EAGAIN has it in
-- front.
unfoldable pub receive_header : Bytes → ℕ → List Arrival → Result Received
unfolding newline_at receive_body atoi
receive_header init acc [] = ok waits
receive_header init acc (failed ∷ more) = ok gives_up
receive_header init acc (again ∷ more) = fault
receive_header init acc (got piece ∷ more) =
    let init' = written init piece in
    let acc' = acc + length piece in
    let rest = receive_header init' acc' more in
    if leb 100 (length piece) then fault else elim (newline_at (c_string init')) [
      | none ↦ rest
      | some index ↦ receive_body init' acc' index (pos (index + 1) +ℤ atoi (c_string init')) more
    ]

-- The array holds 100 bytes.
unfoldable pub receive_answer : Bytes → List Arrival → Result Received
unfolding receive_header
receive_answer init recvs = receive_header (take 100 init) 0 recvs
