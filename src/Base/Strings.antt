-- ===== src/Base/Strings.antt =====
-- What C does with strings: `strcmp` and a text in an array.
use Prim.Native.Nat.{ℕ}
use mathlib.Core.Path.{◌≡◌, refl}
use mathlib.Core.Bool.{Bool, true, false, ◌&&◌}
use mathlib.Core.List.{List, [], ◌∷◌}
use native.Mathlib.Omega.{arith}
use kudos_judge.Base.Lists.{length}
use kudos_judge.Base.Results.{Result, ok, fault}
use kudos_judge.Base.Tests.{ltb, ◌==◌, if◌then◌else◌}

-- `strcmp(…)==0`
unfoldable pub same_text : List ℕ → List ℕ → Bool
same_text [] [] = true
same_text [] (d ∷ t) = false
same_text (c ∷ s) [] = false
same_text (c ∷ s) (d ∷ t) = c == d && same_text s t

-- The string that bytes start: all before the first NUL.
abbrev pub c_string : List ℕ → List ℕ
c_string [] = []
c_string (c ∷ s) = let more = c_string s in if c == 0 then [] else c ∷ more

-- A text in an array of this size, which has to hold its terminator too.
unfoldable pub store : ℕ → List ℕ → Result (List ℕ)
store size s = if ltb (length s) size then ok s else fault

pub same_text_refl : (s : List ℕ) → same_text s s ≡ true
unfolding same_text
same_text_refl [] = refl
same_text_refl (c ∷ s) = ground (arith, same_text_refl s)
