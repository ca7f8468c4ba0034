-- ===== src/Ramfs/Copy.antt =====
-- `ramfs_cp` of ramfs.c.
use kudos_judge.Base.{
  minus, less, ℕ, ◌-◌, ◌%◌, Bool, true, false, not, Option, none, some, List, [], ◌∷◌, ◌++◌, Bytes,
  ltb, length, take, if◌then◌else◌, ℤ, pos, negsuc, is_ℕ, ◌+ℤ◌, Result, ok, fault, ◌>>=◌,
}
use kudos_judge.Ramfs.{RamfsInfo}

-- A piece that `read` gives, and what `write` returns for it.
pub record Read : Type 0 where
  pub piece : Bytes
  pub written : ℤ

-- What the system answers to `ramfs_cp`.
pub record Copying : Type 0 where
  -- `st_size` and S_ISREG of the source, if it is there
  pub source : Option (ℕ × Bool)
  pub target : Option Bytes
  pub target_exists : Bool
  pub target_opens : Bool
  pub source_opens : Bool
  pub reads : List Read
  -- the `read` behind the pieces gives -1
  pub read_fails : Bool
  pub source_closes : Bool
  pub target_closes : Bool

-- The return value, and what `ramfs_cp` leaves: the text of the target, if it was made, and the
-- number of descriptors that stay open.
pub record Copied : Type 0 where
  pub code : ℤ
  pub info : RamfsInfo
  pub text : Option Bytes
  pub left_open : ℕ

-- `int src_size=st.st_size`
abbrev pub to_int : ℕ → ℤ
to_int n =
    let low = n % 4294967296 in if ltb low 2147483648 then pos low else negsuc (4294967295 - low)

-- A sum in an `int`.
abbrev pub int_sum : ℤ → ℤ → Result ℤ
int_sum a b = elim (a +ℤ b) [
  | pos n ↦ if ltb n 2147483648 then ok (pos n) else fault
  | negsuc n ↦ if ltb n 2147483648 then ok (negsuc n) else fault
]

-- What `write` has taken of a piece.
abbrev taken : Read → Bytes
taken r = elim r.written [ pos n ↦ take n r.piece | negsuc n ↦ [] ]

-- The return value, where the copying goes wrong, and the text written.
unfoldable pub copy_loop : List Read → Bool → Option ℤ × Bytes
copy_loop [] true = (some (negsuc 7), [])
copy_loop [] false = (none, [])
copy_loop (r ∷ rs) fails =
    let (code, text) = copy_loop rs fails in
    if is_ℕ r.written (length r.piece) then (code, r.piece ++ text) else (some (negsuc 6), taken r)

-- Where a descriptor does not close, the other one stays open or is closed already.
unfoldable pub close_files : Copying → RamfsInfo → Bytes → Copied
close_files sys info text =
    if not sys.source_closes
    then record { code = negsuc 8; info = info; text = some text; left_open = 2 }
    else if not sys.target_closes
    then record { code = negsuc 9; info = info; text = some text; left_open = 1 }
    else record { code = pos 0; info = info; text = some text; left_open = 0 }

-- Behind the copying: `used` is raised, and the descriptors are closed.
unfoldable pub finish_copy : Copying → RamfsInfo → ℤ → Bytes → Result Copied
unfolding close_files
finish_copy sys info src_size text = do
  used ← int_sum info.used src_size
  ok (close_files sys (record info { used = used }) text)

-- From the opening of the files.
unfoldable pub copy_file : Copying → RamfsInfo → ℤ → Result Copied
unfolding copy_loop finish_copy
copy_file sys info src_size =
    if not sys.target_opens
    then ok (record { code = negsuc 4; info = info; text = none; left_open = 0 })
    else if not sys.source_opens
    then ok (record { code = negsuc 5; info = info; text = some []; left_open = 1 })
    else let (failure, text) = copy_loop sys.reads sys.read_fails in
      elim failure [
        | some code ↦ ok (record { code = code; info = info; text = some text; left_open = 2 })
        | none ↦ finish_copy sys info src_size text
      ]

abbrev refused : RamfsInfo → ℕ → Result Copied
refused info n = ok (record { code = negsuc n; info = info; text = none; left_open = 0 })

unfoldable pub ramfs_cp : Copying → RamfsInfo → Result Copied
unfolding copy_file
ramfs_cp sys info = elim sys.source [
  | none ↦ refused info 0
  | some (st_size, regular) ↦ if not regular then refused info 1 else elim sys.target [
    | none ↦ refused info 2
    | some target ↦ if sys.target_exists then refused info 10 else (do
      memfree ← int_sum (pos info.mem_max) (minus info.used)
      (if less memfree (to_int st_size)
          then refused info 3
          else copy_file sys info (to_int st_size)))
  ]
]
