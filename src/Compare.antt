-- ===== src/Compare.antt =====
-- compare.c: the submission's output is compared, piece by piece, with the file of the expected
-- output. Carriage returns are meant to be skipped on both sides.
pub mod Spec
pub mod Blocks
pub mod Output
pub mod Texts
mod Tests
use kudos_judge.Base.{
  ℕ, zero, suc, ◌+◌, ◌-◌, ◌*◌, ◌≡◌, Bool, true, false, not, ◌&&◌, ◌||◌, Option, none, some, [], ◌∷◌,
  Bytes, ltb, leb, ◌==◌, if◌then◌else◌, ℤ, pos, negsuc, length, take, drop, min,
}

-- The access mode of an open file.
pub data Access : Type 0 where
  rdonly wronly rdwr : Access

-- `fd_out_ref` with the file behind it: what `read` and `lseek` move is the offset.
pub record Descriptor : Type 0 where
  pub is_open : Bool
  pub access : Access
  pub content : Bytes
  pub offset : ℕ

-- READ_SIZE
abbrev pub read_size : ℕ
read_size = 256

-- `flags & O_RDWR`
has_rdwr : Access → Bool
has_rdwr rdwr = true
has_rdwr _ = false

-- `flags & O_RDONLY`: O_RDONLY is 0, so no flags have it.
has_rdonly : Access → Bool
has_rdonly _ = false

can_read : Descriptor → Bool
can_read fd = fd.is_open && elim fd.access [ wronly ↦ false | _ ↦ true ]

-- `read` on a regular file: `n` bytes, or what is left. `none` is a failure.
unfoldable pub read : Descriptor → ℕ → Option (Bytes × Descriptor)
unfolding can_read
read fd n =
    let block = take n (drop fd.offset fd.content) in
    if can_read fd then some (block, record fd { offset = fd.offset + length block }) else none

-- `lseek(fd, lseek(fd,0,SEEK_CUR)-dec, SEEK_SET)`, which fails before the start of the file.
unfoldable pub seek_back : Descriptor → ℕ → Descriptor
seek_back fd dec = if leb dec fd.offset then record fd { offset = fd.offset - dec } else fd

abbrev pub is_eol : ℕ → Bool
is_eol c = c == b'\n' || c == b'\r'

abbrev pub all_eol : Bytes → Bool
all_eol [] = true
all_eol (c ∷ s) = is_eol c && all_eol s

-- The inner loop on what is left of the block and of the piece, with `i`, `goback` and `read_plus`.
-- It stops at a difference, with `i+1`, or at an end, with the piece that is left.
pub data Match : Type 0 where
  differs : ℕ → Match
  ran_out : (i goback read_plus : ℕ) (piece : Bytes) → Match

unfoldable pub match_block : Bytes → Bytes → ℕ → ℕ → ℕ → Match
match_block [] rx i goback read_plus = ran_out i goback read_plus rx
match_block (b ∷ block) [] i goback read_plus = ran_out i goback read_plus []
match_block (b ∷ block) (c ∷ rx) i goback read_plus = elim (b == b'\r') [
  | true ↦ match_block block (c ∷ rx) i goback (read_plus + 1)
  | false ↦ elim (c == b'\r') [
    | true ↦ match_block (b ∷ block) rx (i + 1) (goback + 1) read_plus
    | false ↦ elim (c == b) [
      | true ↦ match_block block rx (i + 1) goback read_plus
      | false ↦ differs (i + 1)
    ]
  ]
]

-- A return value and the descriptor after it. `none` is a loop that has run out of its fuel.
abbrev pub Return : Type 0
Return = Option (ℤ × Descriptor)

-- `if(dec>0) lseek(…)` with `dec=goback-read_plus`
unfoldable pub go_back : Descriptor → ℕ → ℕ → Descriptor
unfolding seek_back
go_back fd goback read_plus = if ltb read_plus goback then seek_back fd (goback - read_plus) else fd

-- The loop `while(size>0)`; `goback` and `read_plus` keep their values from round to round.
unfoldable pub compare_loop : ℕ → Descriptor → Bytes → ℕ → ℕ → Return
compare_loop zero fd rx goback read_plus = none
compare_loop (suc fuel) fd [] goback read_plus = some (pos 0, fd)
compare_loop (suc fuel) fd (c ∷ rx) goback read_plus =
    elim (read fd (min read_size (length (c ∷ rx)))) [
      | none ↦ some (negsuc 29, fd)
      | some ([], fd') ↦ some (pos (if all_eol (c ∷ rx) then 0 else 20), fd')
      | some (b ∷ block, fd') ↦ elim (match_block (b ∷ block) (c ∷ rx) 0 goback read_plus) [
        | differs at ↦ some (pos at, fd')
        | ran_out i goback' read_plus' rest ↦
            compare_loop fuel (go_back fd' goback' read_plus') rest goback' read_plus'
      ]
    ]

-- The call at the end of the output: is there more in the file than line ends?
unfoldable pub end_loop : ℕ → Descriptor → Return
end_loop zero fd = none
end_loop (suc fuel) fd = elim (read fd read_size) [
  | none ↦ some (negsuc 54, fd)
  | some ([], fd') ↦ some (pos 0, fd')
  | some (b ∷ block, fd') ↦ elim (all_eol (b ∷ block)) [
    | true ↦ end_loop fuel fd'
    | false ↦ some (pos 10, fd')
  ]
]

-- Rounds that are enough for a piece and a file.
abbrev pub rounds : Descriptor → Bytes → ℕ
rounds fd rx = (length rx + 1) * (length rx + length fd.content + 2)

-- `compare_output`, on a piece and the stage: -1 at the end, 0 at the first call.
unfoldable pub compare_output : Descriptor → Bytes → ℤ → Return
unfolding has_rdwr has_rdonly
compare_output fd rx (pos zero) =
    if not fd.is_open
    then some (negsuc 9, fd)
    else if not (has_rdwr fd.access) && not (has_rdonly fd.access)
    then some (negsuc 19, fd)
    else compare_loop (rounds fd rx) fd rx 0 0
compare_output fd rx (pos (suc stage)) = compare_loop (rounds fd rx) fd rx 0 0
compare_output fd rx (negsuc zero) = end_loop (length fd.content + 1) fd
compare_output fd rx (negsuc (suc n)) = compare_loop (rounds fd rx) fd rx 0 0
