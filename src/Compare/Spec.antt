-- ===== src/Compare/Spec.antt =====
-- What the comparison is meant to decide: the same text up to line ends at the end of it.
use kudos_judge.Base.{
  refl, ◌++◌, ◌&&◌, append-nil, ◌≡◌, ◌≢◌, ◌↔◌, Bool, true, false, Option, none, some, [], ◌∷◌,
  Bytes, All, ◌==◌, if◌then◌else◌, arith,
}
use kudos_judge.Compare.{all_eol}

abbrev pub NoReturn : Bytes → Type 0
NoReturn = All (λ c. c ≢ b'\r')

-- A text without its last line ends.
unfoldable pub strip : Bytes → Bytes
strip [] = []
strip (c ∷ s) = elim (strip s) [ [] ↦ if c == b'\n' then [] else c ∷ [] | d ∷ t ↦ c ∷ d ∷ t ]

-- What is left of the file after a piece that agrees with it.
unfoldable pub feed : Bytes → Bytes → Option Bytes
feed file [] = some file
feed [] (c ∷ rx) = if all_eol (c ∷ rx) then some [] else none
feed (b ∷ file) (c ∷ rx) = let more = feed file rx in if c == b then more else none

abbrev pub ends : Option Bytes → Bool
ends none = false
ends (some file) = all_eol file

strip-all_eol : (s : Bytes) → NoReturn s → (all_eol s ≡ true) ↔ (strip s ≡ [])
unfolding strip
strip-all_eol [] h = ground arith
strip-all_eol (c ∷ s) h = ground (arith, strip-all_eol s h.1)

pub feed-strip :
    (file out : Bytes)
    → NoReturn file
    → NoReturn out
    → (ends (feed file out) ≡ true) ↔ (strip file ≡ strip out)
unfolding feed strip
feed-strip [] [] h k = ground arith
feed-strip (b ∷ file) [] h k = strip-all_eol (b ∷ file) h
feed-strip [] (c ∷ out) h k = ground (arith, strip-all_eol out k.1)
feed-strip (b ∷ file) (c ∷ out) h k = ground (arith, feed-strip file out h.1 k.1)

abbrev pub feed_more : Option Bytes → Bytes → Option Bytes
feed_more none rx = none
feed_more (some file) rx = feed file rx

pub all_eol-append : (s t : Bytes) → all_eol (s ++ t) ≡ (all_eol s && all_eol t)
all_eol-append [] t = refl
all_eol-append (c ∷ s) t = ground (arith, all_eol-append s t)

-- The pieces of an output are as good as the whole.
pub feed-append : (file x y : Bytes) → feed file (x ++ y) ≡ feed_more (feed file x) y
unfolding feed
feed-append file [] y = ground arith
feed-append [] (c ∷ x) [] = ground (arith, append-nil x)
feed-append [] (c ∷ x) (d ∷ y) = ground (arith, all_eol-append x (d ∷ y))
feed-append (b ∷ file) (c ∷ x) y = ground (arith, feed-append file x y)
