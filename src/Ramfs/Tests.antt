-- ===== src/Ramfs/Tests.antt =====
-- The memory file system that the daemon makes, and two copies, of which the second one is too big.
use kudos_judge.Base.{◌≡◌, refl, true, false, some, [], ◌∷◌, ok, pos, ℕ, arith}
use kudos_judge.Ramfs.Copy.{Copying, Copied, ramfs_cp}
use kudos_judge.Ramfs.Space.{Fits, Accounted, copies, ramfs_cp-Accounted, init_ramfs-copies}
use kudos_judge.Ramfs.{RamfsInfo, init_ramfs}
use kudos_judge.Verdict.{codes}

abbrev copying : Copying
copying = record {
  source = some (3, true);
  target = some (codes "bin");
  target_exists = false;
  target_opens = true;
  source_opens = true;
  reads = record { piece = codes "ELF"; written = pos 3 } ∷ [];
  read_fails = false;
  source_closes = true;
  target_closes = true;
}

abbrev info : RamfsInfo
info = record {
  root_dir = codes "/var/opt/kudosJudge";
  dirname = codes "ramfs";
  path = codes "/var/opt/kudosJudge/ramfs";
  size_alloc = 10000000;
  used = pos 0;
  mem_max = 10000000;
}

init_ramfs-Fits_info : Fits info 0
init_ramfs-Fits_info = record {
  counted = refl;
  bounded = ground arith;
  allocated = ground arith;
  in_int = ground arith;
}

ramfs_cp-Accounted_example :
    (r : Copied) × (ramfs_cp copying info ≡ ok r) × Accounted copying info 0 r
ramfs_cp-Accounted_example = ramfs_cp-Accounted copying info 0 init_ramfs-Fits_info (ground arith)

init_ramfs-copies_example :
    (last : RamfsInfo) × (v : ℕ) × (copies
        (copying ∷ record copying { source = some (10000000, true) } ∷ [])
        info
      ≡ ok last)
    × Fits last v
unfolding init_ramfs
init_ramfs-copies_example =
    init_ramfs-copies (codes "/var/opt/kudosJudge") (codes "ramfs") (pos 10) (pos 15) info
      (copying ∷ record copying { source = some (10000000, true) } ∷ []) refl (ground arith)
