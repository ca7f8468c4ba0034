-- ===== src/Interface/BufferLib/Sparing.antt =====
-- A string library to run the models of interface.c with.
use kudos_judge.Base.{
  ℕ, ◌+◌, ◌≡◌, refl, ap, ◌∙◌, none, some, [], ◌∷◌, ◌++◌, Bytes, arith, ℤ, pos, negsuc, length, take,
  drop, ◌==◌, if◌then◌else◌, Option,
}
use kudos_judge.Interface.BufferLib.{BufferLib, NoNewline}

-- A buffer with a fixed number of bytes to spare.
abbrev pub newline_index : ℕ → Bytes → ℤ
newline_index i [] = negsuc 0
newline_index i (c ∷ s) = let more = newline_index (i + 1) s in if c == b'\n' then pos i else more

pub newline_index-at :
    (i : ℕ) (h t : Bytes) → NoNewline h → newline_index i (h ++ (b'\n' ∷ t)) ≡ pos (i + length h)
newline_index-at i [] t nn = ap pos (omega arith)
newline_index-at i (c ∷ h) t nn = ground (arith, newline_index-at (i + 1) h t nn.1)

pub newline_index-absent : (i : ℕ) (s : Bytes) → NoNewline s → newline_index i s ≡ negsuc 0
newline_index-absent i [] nn = refl
newline_index-absent i (c ∷ s) nn = ground (arith, newline_index-absent (i + 1) s nn.1)

abbrev pub cut : Bytes → ℕ → ℤ → Option Bytes
cut s from (pos to) = some (drop from (take to s))
cut s from (negsuc n) = none

abbrev pub sparing : ℕ → BufferLib
sparing spare = record {
  Buffer = Bytes;
  new = [];
  append_n = λ b s. b ++ s;
  get_string = λ b. b;
  size = λ b. length b + spare;
  indexof_newline = newline_index 0;
  slice = cut;
  get_string-new = refl;
  get_string-append_n = λ b s _. refl;
  indexof-at =
      λ b h t e nn. ap (newline_index 0) e ∙ newline_index-at 0 h t nn ∙ ap pos (omega arith);
  indexof-absent = λ b nn. newline_index-absent 0 b nn;
  get_string-slice = λ b from to _ _. (drop from (take to b), refl, refl);
  length-le-size = λ b. omega arith;
}
