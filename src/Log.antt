-- ===== src/Log.antt =====
-- log.c: the tags in focus, and which messages are printed for them.
mod Rows
mod Tags
mod Tests
use kudos_judge.Base.{
  ℕ, zero, suc, ◌+◌, ◌*◌, Bool, true, false, not, ◌||◌, Option, none, some, List, [], ◌∷◌, ◌++◌,
  Bytes, leb, length, take, drop, if◌then◌else◌, Result, ok, fault, c_string, same_text,
}

-- `_is_focus_tags`, and `_focus_tags` as its 200 bytes.
pub record Focus : Type 0 where
  pub is_focus_tags : Bool
  pub focus_tags : Bytes

abbrev pub zeros : ℕ → Bytes
zeros zero = []
zeros (suc n) = 0 ∷ zeros n

abbrev pub no_focus : Focus
no_focus = record { is_focus_tags = false; focus_tags = zeros 200 }

-- Bytes written over an array.
abbrev pub put : ℕ → Bytes → Bytes → Bytes
put at s array = take at array ++ (s ++ drop (at + length s) array)

-- `strncpy(…,19)`, which fills up with NULs.
abbrev pub copied : Bytes → Bytes
copied tag = take 19 (tag ++ zeros 19)

-- The rows have 10 bytes each. The last one that is written gets an empty text.
unfoldable pub copy_tags : ℕ → List Bytes → Bytes → Bytes
copy_tags i [] array = put (10 * i) (0 ∷ []) array
copy_tags i (tag ∷ tags) array =
    let more = copy_tags (suc i) tags (put (10 * i) (copied tag) array) in
    if leb i 8 then more else put (10 * i) (0 ∷ []) array

-- Without tags, what is read is behind NULL.
unfoldable pub debug_focus : Option (List Bytes) → Focus → Result Focus
unfolding copy_tags
debug_focus none f = fault
debug_focus (some tags) f =
    ok (record { is_focus_tags = true; focus_tags = copy_tags 0 tags f.focus_tags })

-- Whether a row from i on starts the string of this tag, `strncmp(…,20)==0`.
unfoldable pub inside : ℕ → ℕ → Bytes → Bytes → Bool
unfolding same_text
inside i zero tag array = false
inside i (suc left) tag array =
    let more = inside (suc i) left tag array in
    same_text (take 20 (c_string (drop (10 * i) array))) (take 20 tag) || more

-- `debugt`: whether the message is printed.
unfoldable pub prints : Focus → Bytes → Bool
unfolding inside
prints f tag = if f.is_focus_tags then inside 0 8 tag f.focus_tags else true
