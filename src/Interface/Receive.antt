-- ===== src/Interface/Receive.antt =====
-- `jug_int_receive` of interface.c: a request is a decimal length on a line and as many bytes, which
-- come in pieces. What `recv` returns is a list of events; memory is always granted, and the
-- socket's buffer size only bounds the pieces.
mod Prefix
pub mod Framing
use Prim.Native.Nat.{max}
use kudos_judge.Base.{
  ℕ, suc, ◌+◌, ◌-◌, Bool, true, false, ◌&&◌, ◌||◌, not, Option, none, some, List, [], ◌∷◌, Bytes,
  leb, ◌==◌, if◌then◌else◌, ℤ, pos, negsuc, ◌+ℤ◌, to_size_t, reaches, length,
}
use kudos_judge.Decimal.{atoi}
use kudos_judge.Interface.BufferLib.{BufferLib}

-- One return of `recv`: a positive count with the bytes, 0, or a negative count.
pub data Recv : Type 0 where
  got : Bytes → Recv
  closed : Recv
  failed : Recv

-- REQUEST_SIZE_MAX
abbrev pub request_size_max : ℕ
request_size_max = 30000000

-- What the worker has: the message, a NULL, or a `recv` that has not returned.
pub data Received (Buffer : Type 0) : Type 0 where
  message : Buffer → Received Buffer
  null : Received Buffer
  waiting : Received Buffer

module _ (lib : BufferLib) where
  open lib use {Buffer, new, append_n, get_string, size, indexof_newline, slice}

  -- The variables of the loop.
  pub record Progress : Type 0 where
    pub request_buffer : Buffer
    pub read_size_acc : ℕ
    pub metadata_read : Bool
    pub request_size : ℤ
    pub body_start_index : ℤ

  abbrev pub start : Progress
  start = record {
    request_buffer = new;
    read_size_acc = 0;
    metadata_read = false;
    request_size = pos 0;
    body_start_index = pos 0;
  }

  is_pos : ℤ → Bool
  is_pos (pos n) = leb 1 n
  is_pos (negsuc n) = false

  -- `if( !metadata_read && (body_start_index=buffer_indexof(request_buffer, "\n"))>0)`
  unfoldable pub read_metadata : Progress → Progress
  unfolding is_pos
  read_metadata p =
      let index = indexof_newline p.request_buffer in
      if p.metadata_read
      then p
      else if is_pos index
      then record p {
        body_start_index = index;
        metadata_read = true;
        request_size = index +ℤ pos 1 +ℤ atoi (get_string p.request_buffer);
      }
      else record p { body_start_index = index }

  -- One round of the loop for a piece, which is empty where the client has closed.
  unfoldable pub take_piece : Progress → Bytes → Progress
  take_piece p bytes = read_metadata (record p {
    read_size_acc = p.read_size_acc + length bytes;
    request_buffer = append_n p.request_buffer bytes;
  })

  abbrev pub complete : Progress → Bool
  complete p = p.metadata_read && reaches p.read_size_acc p.request_size

  -- Behind the loop: the rest of the buffer from the body on.
  unfoldable pub cut_body : Progress → Received Buffer
  cut_body p =
      elim (slice p.request_buffer (to_size_t (p.body_start_index +ℤ pos 1))
        (pos (size p.request_buffer) +ℤ negsuc 0)) [ none ↦ null | some b ↦ message b ]

  -- The loop, from a state of its variables, on what `recv` returns.
  unfoldable pub receive_loop : List Recv → Progress → Received Buffer
  receive_loop [] p = waiting
  receive_loop (failed ∷ _) p = null
  receive_loop (closed ∷ _) p =
      if leb request_size_max p.read_size_acc then null else cut_body (take_piece p [])
  receive_loop (got bytes ∷ events) p =
      let more = receive_loop events (take_piece p bytes) in
      if leb request_size_max (p.read_size_acc + length bytes)
      then null
      else if complete (take_piece p bytes)
      then cut_body (take_piece p bytes)
      else more

  unfoldable pub receive : List Recv → Received Buffer
  unfolding receive_loop
  receive events = receive_loop events start
