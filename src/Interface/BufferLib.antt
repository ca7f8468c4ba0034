-- ===== src/Interface/BufferLib.antt =====
-- What interface.c uses of the string library buffer/, as an interface: the operations, and what
-- the library's documentation says of them.
pub mod Sparing
use kudos_judge.Base.{
  ℕ, ◌≤◌, ◌≡◌, ◌≢◌, Option, some, [], ◌∷◌, ◌++◌, Bytes, All, ℤ, pos, negsuc, length, take, drop,
}

abbrev pub NoNewline : Bytes → Type 0
NoNewline = All (λ c. c ≢ b'\n')

abbrev pub NoNul : Bytes → Type 0
NoNul = All (λ c. c ≢ 0)

pub record BufferLib : Type 1 where
  pub Buffer : Type 0
  -- `buffer_new()`
  pub new : Buffer
  -- `buffer_append_n(self, str, len)` where `str` holds `len` bytes
  pub append_n : Buffer → Bytes → Buffer
  -- `buffer_get_string(self)`
  pub get_string : Buffer → Bytes
  -- `buffer_size(self)`: the bytes that the buffer has room for
  pub size : Buffer → ℕ
  -- `buffer_indexof(self, "\n")`
  pub indexof_newline : Buffer → ℤ
  -- `buffer_slice(self, from, to)`, `none` for NULL
  pub slice : Buffer → ℕ → ℤ → Option Buffer
  pub get_string-new : get_string new ≡ []
  pub get_string-append_n :
      (b : Buffer) (s : Bytes) → NoNul s → get_string (append_n b s) ≡ get_string b ++ s
  pub indexof-at :
      (b : Buffer) (h t : Bytes)
      → get_string b ≡ h ++ (b'\n' ∷ t)
      → NoNewline h
      → indexof_newline b ≡ pos (length h)
  pub indexof-absent : (b : Buffer) → NoNewline (get_string b) → indexof_newline b ≡ negsuc 0
  pub get_string-slice :
      (b : Buffer) (from to : ℕ)
      → from ≤ to
      → from ≤ length (get_string b)
      → (r : Buffer) × (slice b from (pos to) ≡ some r)
        × (get_string r ≡ drop from (take to (get_string b)))
  pub length-le-size : (b : Buffer) → length (get_string b) ≤ size b
