-- ===== src/Ramfs.antt =====
-- ramfs.c: the memory file system, and how much of it is used.
pub mod Copy
pub mod Space
pub mod Workspace
mod Tests
use kudos_judge.Base.{
  ℕ, suc, ◌*◌, Bool, true, false, not, Option, none, some, List, [], ◌∷◌, ◌++◌, Bytes, ltb, ◌==◌,
  if◌then◌else◌, ℤ, pos, negsuc, is_ℕ, Result, ok, fault, ◌>>=◌,
}
use kudos_judge.Decimal.{decimal_onto}
use kudos_judge.Verdict.{codes}

-- `ramfs_info`
pub record RamfsInfo : Type 0 where
  pub root_dir : Bytes
  pub dirname : Bytes
  pub path : Bytes
  pub size_alloc : ℕ
  pub used : ℤ
  pub mem_max : ℕ

-- A size in megabytes that is below 0 counts as 0.
abbrev pub at_least_0 : ℤ → ℕ
at_least_0 (pos n) = n
at_least_0 (negsuc n) = 0

-- In bytes, in an `int`.
abbrev pub bytes_of : ℕ → Result ℕ
bytes_of mb = if ltb (mb * 1000000) 2147483648 then ok (mb * 1000000) else fault

unfoldable pub init_ramfs : Bytes → Bytes → ℤ → ℤ → Result RamfsInfo
init_ramfs ramfs_root ramfs_dirname size_alloc_mb max_size_mb =
    let size = at_least_0 size_alloc_mb in
    let max = if ltb size (at_least_0 max_size_mb) then size else at_least_0 max_size_mb in
    (do
      size_alloc ← bytes_of size
      mem_max ← bytes_of max
      ok (record {
        root_dir = ramfs_root;
        dirname = ramfs_dirname;
        path = ramfs_root ++ (b'/' ∷ ramfs_dirname);
        size_alloc = size_alloc;
        used = pos 0;
        mem_max = mem_max;
      }))

-- `major(st_dev)` of the two directories, where they are there.
unfoldable pub ramfs_ismounted : Option ℕ → Option ℕ → ℤ
ramfs_ismounted none root = pos 0
ramfs_ismounted (some mjr) none = pos 0
ramfs_ismounted (some mjr) (some hdmjr) = if mjr == hdmjr then pos 0 else pos 1

-- `umount`, with its errno where it fails
unfoldable pub umount_ramfs : Bool → Option ℕ → ℤ
umount_ramfs false umount = pos 0
umount_ramfs true none = pos 0
umount_ramfs true (some errno) = if errno == 22 then pos 0 else negsuc 0

-- The options that `create_ramfs` mounts with.
unfoldable pub mount_opts : RamfsInfo → Bytes
mount_opts info = codes "size=" ++ decimal_onto info.size_alloc (codes "m")

-- What the system answers to `create_ramfs`; `mount` gets the options.
pub record Mounting : Type 0 where
  pub exists : Bool
  pub mkdir : ℤ
  pub mount : Bytes → ℤ

unfoldable pub create_ramfs : Mounting → RamfsInfo → ℤ
unfolding mount_opts
create_ramfs sys info =
    if sys.exists
    then negsuc 1
    else if not (is_ℕ sys.mkdir 0)
    then negsuc 0
    else if not (is_ℕ (sys.mount (mount_opts info)) 0)
    then negsuc 2
    else pos 0
