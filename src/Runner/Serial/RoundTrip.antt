-- ===== src/Runner/Serial/RoundTrip.antt =====
-- What the template process reads is what the worker's thread wrote.
use kudos_judge.Base.{
  ℕ, ◌+◌, ◌*◌, ◌/◌, ◌%◌, ◌^◌, ◌<◌, ◌≤◌, ◌≡◌, refl, ap, ◌∙◌, List, [], ◌∷◌, ◌++◌, append_assoc,
  Bytes, All, arith, length, length-append, take-length, drop-length, ok, ◌>>=◌,
}
use kudos_judge.Interface.BufferLib.{NoNul}
use kudos_judge.Runner.{args_size}
use kudos_judge.Runner.Serial.{
  template_max_tx, shm_size, CloneChildParams, sizeof_int, int_bytes, terminated, argv_bytes,
  serialize, argv_size, serial_size, memcpy, string_at, int_at, argv_at, unserialize,
}

memcpy-append : (s rest : Bytes) → memcpy (length s) (s ++ rest) ≡ ok (s, rest)
unfolding memcpy
memcpy-append s rest = ground (arith, length-append s rest, take-length s rest, drop-length s rest)

string_at-terminated : (s rest : Bytes) → NoNul s → string_at (s ++ (0 ∷ rest)) ≡ ok (s, rest)
unfolding string_at
string_at-terminated [] rest h = refl
string_at-terminated (c ∷ s) rest h = ground (arith, string_at-terminated s rest h.1, h.0)

int_at-int_bytes : (n : ℕ) (rest : Bytes) → n < 2 ^ 31 → int_at (int_bytes n ++ rest) ≡ ok (n, rest)
unfolding int_at int_bytes
int_at-int_bytes n rest h =
    let value : n % 256
          + 256 * (n / 256 % 256)
          + 65536 * (n / 65536 % 256)
          + 16777216 * (n / 16777216 % 256)
        ≡ n =
      omega arith in
    let high : n / 16777216 % 256 < 128 = omega arith in ground (arith, value, high)

argv_at-argv_bytes :
    (args : List Bytes) (rest : Bytes)
    → All NoNul args
    → argv_at (length args) (argv_bytes args ++ rest) ≡ ok args
unfolding argv_at argv_bytes
argv_at-argv_bytes [] rest h = refl
argv_at-argv_bytes (arg ∷ args) rest h = simp (
  append_assoc,
  string_at-terminated arg (argv_bytes args ++ rest) h.0,
  argv_at-argv_bytes args rest h.1,
)

length-argv_bytes : (args : List Bytes) → length (argv_bytes args) ≡ argv_size args
unfolding argv_bytes argv_size
length-argv_bytes [] = refl
length-argv_bytes (arg ∷ args) = omega (
  arith,
  length-append (terminated arg) (argv_bytes args),
  length-append arg (0 ∷ []),
  length-argv_bytes args,
)

length-serialize :
    (ccp : CloneChildParams)
    → length (serialize ccp)
      ≡ serial_size (length ccp.run_params_struct) (length ccp.sandbox_struct) ccp
unfolding serialize serial_size int_bytes
length-serialize ccp =
    let args = int_bytes (length ccp.argv) ++ argv_bytes ccp.argv in
    let path = terminated ccp.binary_path ++ args in
    omega (
      arith,
      length-append ccp.run_params_struct (ccp.sandbox_struct ++ path),
      length-append ccp.sandbox_struct path,
      length-append (terminated ccp.binary_path) args,
      length-append ccp.binary_path (0 ∷ []),
      length-argv_bytes ccp.argv,
    )

-- A request whose path and arguments hold no NUL, with fewer than 2^31 arguments, is written in
-- exactly the bytes counted for it, and the template process reads it back as it was, whatever
-- lies behind it.
pub unserialize-serialize :
    (ccp : CloneChildParams) (rest : Bytes)
    → NoNul ccp.binary_path
    → All NoNul ccp.argv
    → length ccp.argv < 2 ^ 31
    → (length (serialize ccp)
        ≡ serial_size (length ccp.run_params_struct) (length ccp.sandbox_struct) ccp)
      × (unserialize
            (length ccp.run_params_struct)
            (length ccp.sandbox_struct)
            (serialize ccp ++ rest)
          ≡ ok ccp)
unfolding serialize unserialize
unserialize-serialize ccp rest clean_path clean_args few = (
  length-serialize ccp,
  simp (
    append_assoc,
    ◌>>=◌,
    memcpy-append ccp.run_params_struct,
    memcpy-append ccp.sandbox_struct,
    string_at-terminated ccp.binary_path _ clean_path,
    int_at-int_bytes (length ccp.argv) _ few,
    argv_at-argv_bytes ccp.argv rest clean_args,
  ),
)

-- A request whose only argument is its path, with a path that fits the array of jug_runner_judge
-- and structs of at most 822 bytes together, fits the buffer of the template process, and with its
-- state and length the shared memory.
pub length-serialize_fits :
    (ccp : CloneChildParams)
    → ccp.argv ≡ ccp.binary_path ∷ []
    → length ccp.binary_path < args_size
    → length ccp.run_params_struct + length ccp.sandbox_struct ≤ 822
    → (length (serialize ccp) ≤ template_max_tx)
      × (1 + sizeof_int + length (serialize ccp) ≤ shm_size)
unfolding serial_size argv_size
length-serialize_fits ccp one short structs =
    let size = length-serialize ccp in
    let args : argv_size ccp.argv ≡ length ccp.binary_path + 1 = ap argv_size one ∙ omega arith in
    (omega (arith, size, args), omega (arith, size, args))
