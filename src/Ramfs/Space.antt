-- ===== src/Ramfs/Space.antt =====
-- The accounting of `ramfs_cp`.
use kudos_judge.Base.{
  minus, ℕ, ◌+◌, ◌-◌, ◌≤◌, ◌<◌, ◌≡◌, refl, ◌⊎◌, inl, inr, Bool, true, false, none, some, List, [],
  ◌∷◌, Bytes, All, arith, ℤ, pos, negsuc, is_ℕ, Result, ok, ◌>>=◌, map, flatten, Bool-cases,
  Option-cases, sym, ap, subst, ◌*◌, ◌∙◌, >>=-eq-ok, ok_cancel, if◌then◌else◌, ltb,
}
use kudos_judge.Ramfs.Copy.{
  Copying, Read, Copied, copy_loop, close_files, finish_copy, copy_file, ramfs_cp, int_sum, to_int,
}
use kudos_judge.Ramfs.{RamfsInfo, at_least_0, bytes_of, init_ramfs}

-- What is used fits the maximum, which fits an `int` and what was allocated.
pub record Fits (info : RamfsInfo) (u : ℕ) : Type 0 where
  pub counted : info.used ≡ pos u
  pub bounded : u ≤ info.mem_max
  pub allocated : info.mem_max ≤ info.size_alloc
  pub in_int : info.size_alloc < 2147483648

-- The source, if it is there, has a size that fits an `int`.
abbrev pub Small : Copying → Type 0
Small sys = elim sys.source [ none ↦ Unit | some (size, regular) ↦ size < 2147483648 ]

abbrev pub size_of : Copying → ℕ
size_of sys = elim sys.source [ none ↦ 0 | some (size, regular) ↦ size ]

abbrev pub text_of : Copying → Bytes
text_of sys = flatten (map (λ (r : Read). r.piece) sys.reads)

abbrev charged : RamfsInfo → ℕ → RamfsInfo
charged info u = record info { used = pos u }

-- A copy that is counted has all of its text, and one that is not counted is no success.
abbrev pub Accounted : Copying → RamfsInfo → ℕ → Copied → Type 0
Accounted sys info u r =
    ((r.info ≡ info) × (is_ℕ r.code 0 ≡ false))
    ⊎ ((r.info ≡ charged info (u + size_of sys))
        × (u + size_of sys ≤ info.mem_max)
        × (r.text ≡ some (text_of sys)))

copy_loop-text :
    (reads : List Read) (fails : Bool)
    → (copy_loop reads fails).0 ≡ none
    → (copy_loop reads fails).1 ≡ flatten (map (λ (r : Read). r.piece) reads)
unfolding copy_loop
copy_loop-text [] fails e = ground arith
copy_loop-text (r ∷ rs) fails e = ground (arith, copy_loop-text rs fails)

copy_loop-code :
    (reads : List Read) (fails : Bool) (code : ℤ)
    → (copy_loop reads fails).0 ≡ some code
    → is_ℕ code 0 ≡ false
unfolding copy_loop
copy_loop-code [] true code e = ground arith
copy_loop-code [] false code e = ground arith
copy_loop-code (r ∷ rs) fails code e = ground (arith, copy_loop-code rs fails code)

to_int_small : (size : ℕ) → size < 2147483648 → to_int size ≡ pos size
to_int_small size h = ground arith

int_sum_used :
    (info : RamfsInfo) (u size : ℕ)
    → Fits info u
    → u + size ≤ info.mem_max
    → int_sum info.used (pos size) ≡ ok (pos (u + size))
int_sum_used info u size f h = ground (arith, f.counted, f.allocated, f.in_int)

int_sum_free :
    (info : RamfsInfo) (u : ℕ)
    → Fits info u
    → int_sum (pos info.mem_max) (minus info.used) ≡ ok (pos (info.mem_max - u))
int_sum_free info u f = ground (arith, f.counted, f.allocated, f.in_int, f.bounded)

finish_copy-Accounted :
    (sys : Copying) (info : RamfsInfo) (u : ℕ)
    → Fits info u
    → u + size_of sys ≤ info.mem_max
    → (r : Copied) × (finish_copy sys info (pos (size_of sys)) (text_of sys) ≡ ok r)
      × Accounted sys info u r
unfolding finish_copy close_files
finish_copy-Accounted sys info u f h = (
  close_files sys (charged info (u + size_of sys)) (text_of sys),
  rw (int_sum_used info u (size_of sys) f h) refl,
  inr (ground arith),
)

copy_file-Accounted :
    (sys : Copying) (info : RamfsInfo) (u : ℕ)
    → Fits info u
    → u + size_of sys ≤ info.mem_max
    → (r : Copied) × (copy_file sys info (pos (size_of sys)) ≡ ok r) × Accounted sys info u r
unfolding copy_file
copy_file-Accounted sys info u f h = elim (Bool-cases sys.target_opens) [
  | inr shut ↦ (
    record { code = negsuc 4; info = info; text = none; left_open = 0 },
    rw shut refl,
    inl (refl, refl),
  )
  | inl opens ↦ elim (Bool-cases sys.source_opens) [
    | inr shut ↦ (
      record { code = negsuc 5; info = info; text = some []; left_open = 1 },
      rw (opens, shut) refl,
      inl (refl, refl),
    )
    | inl source_opens ↦
        let copied = copy_loop sys.reads sys.read_fails in
        elim (Option-cases copied.0) [
          | inr (code, e) ↦ (
            record { code = code; info = info; text = some copied.1; left_open = 2 },
            rw (opens, source_opens, e) refl,
            inl (refl, copy_loop-code sys.reads sys.read_fails code e),
          )
          | inl e ↦
              let (r, done, accounted) = finish_copy-Accounted sys info u f h in
              let finishes : copy_file sys info (pos (size_of sys))
                  ≡ finish_copy sys info (pos (size_of sys)) (text_of sys) =
                rw (opens, source_opens, e, copy_loop-text sys.reads sys.read_fails e) refl in
              (r, finishes ∙ done, accounted)
        ]
  ]
]

abbrev refusal : RamfsInfo → ℕ → Copied
refusal info n = record { code = negsuc n; info = info; text = none; left_open = 0 }

-- Where what is used fits the maximum and the source, if it is there, is smaller than 2^31 bytes,
-- ramfs_cp returns; either it leaves the accounting as it was and does not return 0, or the size
-- of the source is added, stays within the maximum, and the target holds all that was read.
pub ramfs_cp-Accounted :
    (sys : Copying) (info : RamfsInfo) (u : ℕ)
    → Fits info u
    → Small sys
    → (r : Copied) × (ramfs_cp sys info ≡ ok r) × Accounted sys info u r
unfolding ramfs_cp
ramfs_cp-Accounted sys info u f small = elim (Option-cases sys.source) [
  | inl gone ↦ (refusal info 0, rw gone refl, inl (refl, refl))
  | inr ((size, false), e) ↦ (refusal info 1, rw e refl, inl (refl, refl))
  | inr ((size, true), e) ↦ elim (Option-cases sys.target) [
    | inl null ↦ (refusal info 2, rw (e, null) refl, inl (refl, refl))
    | inr (target, at) ↦ elim (Bool-cases sys.target_exists) [
      | inl exists ↦ (refusal info 10, rw (e, at, exists) refl, inl (refl, refl))
      | inr free ↦
          let same : size_of sys ≡ size = rw e refl in
          let int : to_int size ≡ pos size = to_int_small size (ground (arith, e, small)) in
          elim (Bool-cases (ltb (info.mem_max - u) size)) [
            | inl full ↦ (
              refusal info 3,
              rw (e, at, free, int_sum_free info u f, int, full) refl,
              inl (refl, refl),
            )
            | inr room ↦
                let (r, done, accounted) =
                  copy_file-Accounted sys info u f (ground (arith, same, room, f.bounded)) in
                let copies : ramfs_cp sys info ≡ copy_file sys info (pos size) =
                  simp (ramfs_cp, e, at, free, int_sum_free info u f, int, room, ◌>>=◌)
                    (ap (copy_file sys info) int) in
                let sized : copy_file sys info (pos size) ≡ copy_file sys info (pos (size_of sys)) =
                  ap (λ n. copy_file sys info (pos n)) (sym same) in
                (r, copies ∙ sized ∙ done, accounted)
          ]
    ]
  ]
]

-- One copy after the other.
unfoldable pub copies : List Copying → RamfsInfo → Result RamfsInfo
unfolding ramfs_cp
copies [] info = ok info
copies (sys ∷ more) info = do copied ← ramfs_cp sys info; copies more copied.info

Accounted-Fits :
    (sys : Copying) (info : RamfsInfo) (u : ℕ) (r : Copied)
    → Fits info u
    → Accounted sys info u r
    → (v : ℕ) × Fits r.info v
Accounted-Fits sys info u r f (inl (same, _)) = (u, rw same f)
Accounted-Fits sys info u r f (inr (same, room, _)) =
    let counted : Fits (charged info (u + size_of sys)) (u + size_of sys) = record {
      counted = refl;
      bounded = room;
      allocated = f.allocated;
      in_int = f.in_int;
    } in
    (u + size_of sys, rw same counted)

copies-Fits :
    (more : List Copying) (info : RamfsInfo) (u : ℕ)
    → Fits info u
    → All Small more
    → (last : RamfsInfo) × (v : ℕ) × (copies more info ≡ ok last) × Fits last v
unfolding copies
copies-Fits [] info u f small = (info, u, refl, f)
copies-Fits (sys ∷ more) info u f (small, smalls) =
    let (r, done, accounted) = ramfs_cp-Accounted sys info u f small in
    let (v, f') = Accounted-Fits sys info u r f accounted in
    let (last, w, rest, fits) = copies-Fits more r.info v f' smalls in
    (last, w, simp (done, ◌>>=◌, rest), fits)

bounds : (m s mem alloc : ℕ) → m ≤ s → mem ≡ m * 1000000 → alloc ≡ s * 1000000 → mem ≤ alloc
bounds m s mem alloc h a b = omega arith

bytes_of_ok : (mb b : ℕ) → bytes_of mb ≡ ok b → (b ≡ mb * 1000000) × (b < 2147483648)
bytes_of_ok mb b e = ground arith

pub init_ramfs-Fits :
    (root dirname : Bytes) (size max : ℤ) (info : RamfsInfo)
    → init_ramfs root dirname size max ≡ ok info
    → Fits info 0
unfolding init_ramfs
init_ramfs-Fits root dirname size max info e =
    let s = at_least_0 size in
    let m = if ltb s (at_least_0 max) then s else at_least_0 max in
    let (alloc, at_alloc, e) = >>=-eq-ok (bytes_of s) _ e in
    let (mem, at_mem, e) = >>=-eq-ok (bytes_of m) _ e in
    let less : m ≤ s = ground arith in
    let (alloc_eq, alloc_small) = bytes_of_ok s alloc at_alloc in
    let (mem_eq, _) = bytes_of_ok m mem at_mem in
    subst (λ i. Fits i 0) (ok_cancel e)
      (record {
        counted = refl;
        bounded = ground arith;
        allocated = bounds m s mem alloc less mem_eq alloc_eq;
        in_int = alloc_small;
      })

-- After init_ramfs with sizes of less than 2^31 bytes, negative ones too, any number of copies of
-- sources smaller than 2^31 bytes return without an overflow, and what is used stays within the
-- maximum, and the maximum within what was allocated.
pub init_ramfs-copies :
    (root dirname : Bytes) (size max : ℤ) (info : RamfsInfo) (more : List Copying)
    → init_ramfs root dirname size max ≡ ok info
    → All Small more
    → (last : RamfsInfo) × (v : ℕ) × (copies more info ≡ ok last) × Fits last v
init_ramfs-copies root dirname size max info more e small =
    copies-Fits more info 0 (init_ramfs-Fits root dirname size max info e) small
