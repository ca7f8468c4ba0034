-- ===== src/Interface/Protocol.antt =====
-- A submission's way from the client's files to the decoded request of the server.
use kudos_judge.Base.{
  c_string, flatten, ℕ, suc, ◌+◌, ◌-◌, ◌<◌, ◌≡◌, ◌≢◌, refl, ap, ◌∙◌, some, List, [], ◌∷◌, ◌++◌, map,
  Bytes, All, arith, negsuc, length, length-append, length-take, take, take_all, ok, error,
}
use kudos_judge.Client.{read_text, forge_body, frame, forge}
use kudos_judge.Decimal.{decimal, decimal_onto}
use kudos_judge.Decimal.RoundTrip.{decimal_onto-append}
use kudos_judge.Interface.BufferLib.{BufferLib, NoNul}
use kudos_judge.Interface.Decode.RoundTrip.{judging, decode-forge_body}
use kudos_judge.Interface.Decode.Truncated.{decode-declared, forge_body_less}
use kudos_judge.Interface.Decode.{decode}
use kudos_judge.Interface.Receive.Framing.{collect, receive-frame}
use kudos_judge.Interface.Receive.{Recv, got, request_size_max, message, receive}

pub c_string-NoNul : (s : Bytes) → NoNul s → c_string s ≡ s
c_string-NoNul [] h = refl
c_string-NoNul (c ∷ s) h = ground (arith, c_string-NoNul s h.1)

read_text-NoNul :
    (room : ℕ) (s : Bytes)
    → NoNul s
    → length s < room
    → length s < 10000
    → read_text room (some s) ≡ ok s
unfolding read_text
read_text-NoNul room s h fits short = rw (c_string-NoNul s h) (ground arith)

-- Source code, input and output without NUL that fit the client's arrays make a request that is
-- the body's length on a line and the body.
pub forge-frame :
    (source input output : Bytes)
    → NoNul source
    → NoNul input
    → NoNul output
    → length source < 1000
    → length input < 10000
    → length output < 4000
    → forge (some source) (some input) (some output) ≡ ok (frame (forge_body source input output))
unfolding forge
forge-frame source input output clean_s clean_i clean_o ls li lo = ground (
  arith,
  read_text-NoNul 1000 source clean_s,
  read_text-NoNul (length input + 1) input clean_i,
  read_text-NoNul 4000 output clean_o,
)

forge_body_pos : (source input output : Bytes) → 0 < length (forge_body source input output)
unfolding forge_body decimal_onto
forge_body_pos source input output = omega arith

module _ (lib : BufferLib) (source input output : Bytes) (c : Bytes) (pieces : List Bytes)
    (later : List Recv) (each : All (λ t. (t ≢ []) × NoNul t) (c ∷ pieces))
    (sent : flatten (c ∷ pieces) ≡ frame (forge_body source input output))
    (small : length (frame (forge_body source input output)) < request_size_max) where
  open lib use {Buffer, new, get_string, size}

  length-frame :
      length (frame (forge_body source input output))
      ≡ length (decimal (length (forge_body source input output)))
        + suc (length (forge_body source input output))
  length-frame =
      let body = forge_body source input output in
      ap length (decimal_onto-append (length body) (b'\n' ∷ body))
      ∙ length-append (decimal (length body)) (b'\n' ∷ body)

  -- The client's framed request, received in any non-empty pieces without NUL into a buffer that
  -- ends with a byte to spare, is decoded to the source code, the input and the expected output,
  -- whatever comes behind it.
  pub receive-decode :
      length (frame (forge_body source input output)) < size (collect lib new (c ∷ pieces))
      → (r : Buffer) × (receive lib (map got (c ∷ pieces) ++ later) ≡ message r)
        × (decode (get_string r) ≡ ok (judging source input output))
  receive-decode room =
      let body = forge_body source input output in
      let (r, e, text) =
        receive-frame lib body c pieces later each sent (forge_body_pos source input output)
          small in
      let whole : get_string r ≡ body = text ∙ take_all _ body (omega (arith, length-frame)) in
      (r, e, ap decode whole ∙ decode-forge_body source input output)

  -- Where the same request fills the buffer to its last byte, the last byte of a source code that
  -- is not empty is lost and decoding fails with error -2.
  pub receive_full :
      0 < length source
      → size (collect lib new (c ∷ pieces)) ≡ length (frame (forge_body source input output))
      → (r : Buffer) × (receive lib (map got (c ∷ pieces) ++ later) ≡ message r)
        × (decode (get_string r) ≡ error (negsuc 1))
  receive_full some_source full =
      let body = forge_body source input output in
      let (r, e, text) =
        receive-frame lib body c pieces later each sent (forge_body_pos source input output)
          small in
      let cut : size (collect lib new (c ∷ pieces)) - 1 - suc (length (decimal (length body)))
          ≡ length body - 1 =
        omega (arith, length-frame) in
      (
        r,
        e,
        ap decode
              (text ∙ ap (λ k. take k body) cut ∙ forge_body_less source input output some_source)
            ∙ decode-declared (length source) (take (length source - 1) source) input output
                (omega (arith, length-take (length source - 1) source)),
      )
