-- ===== src/Compare/Texts.antt =====
-- The texts that the comparison takes for the same: a line end more at the end makes no difference.
use mathlib.Core.Quot
use mathlib.Core.Quot.{Quot, Quot-set}
use kudos_judge.Base.{
  ◌≡◌, ◌↔◌, refl, sym, ap, ◌∙◌, inl, inr, [], ◌∷◌, ◌++◌, append_assoc, append-nil, Bytes, All, List,
  ℕ, zero, suc, arith, flatten, ℤ, pos, some, Bool-cases, ◌==◌, if◌then◌else◌,
}
use kudos_judge.Compare.Blocks.{IsReadable}
use kudos_judge.Compare.Output.{compare_pieces, compare_pieces-strip}
use kudos_judge.Compare.Spec.{NoReturn, strip}
use kudos_judge.Compare.{Descriptor}

abbrev pub Longer : Bytes → Bytes → Type 0
Longer s t = t ≡ s ++ (b'\n' ∷ [])

-- A text of which the line ends at the end are forgotten.
abbrev pub Text : Type 0
Text = Quot Longer

abbrev pub text : Bytes → Text
text s = Quot.mk s

strip-eol : (s : Bytes) → strip (s ++ (b'\n' ∷ [])) ≡ strip s
unfolding strip
strip-eol [] = refl
strip-eol (c ∷ s) = ground (arith, strip-eol s)

Bytes-IsSet : IsSet Bytes
Bytes-IsSet = hlevel

stripped : Text → Bytes
stripped = Quot.lift Bytes-IsSet strip (λ s t longer. sym (ap strip longer ∙ strip-eol s))

line_ends : ℕ → Bytes
line_ends zero = []
line_ends (suc n) = b'\n' ∷ line_ends n

-- One byte in front of a stripped text.
behind-front :
    (c n : ℕ) (u : Bytes)
    → (m : ℕ) × (c ∷ (u ++ line_ends n)
        ≡ (elim u [ [] ↦ if c == b'\n' then [] else c ∷ [] | d ∷ t ↦ c ∷ d ∷ t ]) ++ line_ends m)
unfolding line_ends
behind-front c n (d ∷ t) = (n, refl)
behind-front c n [] = elim (Bool-cases (c == b'\n')) [
  | inl newline ↦ (suc n, ground (arith, newline))
  | inr other ↦ (n, ground (arith, other))
]

behind-strip : (s : Bytes) → (n : ℕ) × (s ≡ strip s ++ line_ends n)
unfolding strip line_ends
behind-strip [] = (0, refl)
behind-strip (c ∷ s) =
    let (n, e) = behind-strip s in
    let (m, front) = behind-front c n (strip s) in (m, ap (λ t. c ∷ t) e ∙ front)

mk-line_ends : (s : Bytes) (n : ℕ) → text (s ++ line_ends n) ≡ text s
unfolding line_ends
mk-line_ends s zero = ap text (append-nil s)
mk-line_ends s (suc n) =
    ap text (sym (append_assoc s (b'\n' ∷ []) (line_ends n)))
    ∙ mk-line_ends (s ++ (b'\n' ∷ [])) n
    ∙ sym (Quot.sound refl)

mk-strip : (s : Bytes) → text s ≡ text (strip s)
mk-strip s = let (n, e) = behind-strip s in ap text e ∙ mk-line_ends (strip s) n

-- The same text, exactly where what is left without the line ends is the same.
pub mk-same : (s t : Bytes) → (text s ≡ text t) ↔ (strip s ≡ strip t)
unfolding stripped
mk-same s t = ((λ e. ap stripped e), (λ e. mk-strip s ∙ ap text e ∙ sym (mk-strip t)))

-- Where the expected output, open for reading and writing at its start, and the pieces of an
-- output hold no carriage return, the calls for the pieces all return, and the last return value
-- is 0 exactly when the two are the same text in the quotient that forgets a line end more at the
-- end, however the output is cut.
pub compare_pieces-Text :
    (fd : Descriptor) (ps : List Bytes)
    → IsReadable fd
    → fd.offset ≡ 0
    → All NoReturn ps
    → (code : ℤ) × (fd' : Descriptor) × (compare_pieces fd 0 ps ≡ some (code, fd'))
      × ((code ≡ pos 0) ↔ (text fd.content ≡ text (flatten ps)))
compare_pieces-Text fd ps v at_start h =
    let (code, fd', r, iff) = compare_pieces-strip fd ps v at_start h in
    let same = mk-same fd.content (flatten ps) in
    (code, fd', r, ((λ e. same.1 (iff.0 e)), (λ e. iff.1 (same.0 e))))
