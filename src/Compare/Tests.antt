-- ===== src/Compare/Tests.antt =====
-- Runs of compare.c on short outputs.
use kudos_judge.Base.{◌≡◌, ◌↔◌, refl, true, some, [], ◌∷◌, Bytes, ℤ, pos, arith}
use kudos_judge.Compare.Blocks.{IsReadable}
use kudos_judge.Compare.Output.{compare_pieces}
use kudos_judge.Compare.Texts.{text, compare_pieces-Text}
use kudos_judge.Compare.Spec.{NoReturn}
use kudos_judge.Compare.{
  Descriptor, rdwr, read, match_block, compare_loop, go_back, end_loop, compare_output,
}
use kudos_judge.Verdict.{codes}

abbrev expected : Bytes → Descriptor
expected text = record { is_open = true; access = rdwr; content = text; offset = 0 }

abbrev readable : (text : Bytes) → NoReturn text → IsReadable (expected text)
readable text h = record { opened = refl; read_write = refl; no_return = h }

-- The number 6 on a line, printed in two parts and with no line end.
same_run :
    compare_pieces (expected (codes "16\n")) 0 (codes "1" ∷ codes "6" ∷ [])
    ≡ some (pos 0, record { is_open = true; access = rdwr; content = codes "16\n"; offset = 3 })
unfolding compare_pieces compare_output compare_loop end_loop match_block go_back read
same_run = refl

compare_pieces-Text_example :
    (code : ℤ) × (fd : Descriptor) × (compare_pieces
        (expected (codes "16\n"))
        0
        (codes "1" ∷ codes "6" ∷ [])
      ≡ some (code, fd))
    × ((code ≡ pos 0) ↔ (text (codes "16\n") ≡ text (codes "16")))
compare_pieces-Text_example =
    compare_pieces-Text (expected (codes "16\n")) (codes "1" ∷ codes "6" ∷ [])
      (readable (codes "16\n") (ground arith)) refl (ground arith)
