-- ===== src/Log/Tags.antt =====
-- Which messages are printed while tags are in focus.
use kudos_judge.Base.{
  ℕ, zero, suc, ◌*◌, ◌-◌, ◌<◌, ◌≤◌, ◌≡◌, ◌≢◌, refl, sym, ap, ◌∙◌, Bool, true, false, ◌||◌, some,
  List, [], ◌∷◌, ◌++◌, append_assoc, Bytes, All, length, take, take_all, drop, drop-length,
  drop-add, ok, c_string, same_text, arith,
}
use kudos_judge.Interface.BufferLib.{NoNul}
use kudos_judge.Log.{Focus, zeros, no_focus, copy_tags, debug_focus, inside, prints}
use kudos_judge.Log.Rows.{Short, row, rows, length-row, copy_tags-rows}

-- What lies behind a NUL is no part of the string.
c_string-zeros :
    (tag rest : Bytes) (n : ℕ) → NoNul tag → 0 < n → c_string (tag ++ (zeros n ++ rest)) ≡ tag
c_string-zeros [] rest zero h pos = absurd (omega (arith, pos))
c_string-zeros [] rest (suc n) h pos = refl
c_string-zeros (c ∷ tag) rest n h pos = ground (arith, c_string-zeros tag rest n h.1 pos)

c_string-row : (tag rest : Bytes) → Short tag → c_string (row tag ++ rest) ≡ tag
unfolding row
c_string-row tag rest h =
    ap c_string (append_assoc tag (zeros (10 - length tag)) rest)
    ∙ c_string-zeros tag rest (10 - length tag) h.0 (omega (arith, h.2))

c_string_none : (k : ℕ) → c_string (zeros k) ≡ []
c_string_none zero = refl
c_string_none (suc k) = refl

drop-zeros : (n k : ℕ) → drop n (zeros k) ≡ zeros (k - n)
drop-zeros zero k = let e : k ≡ k - 0 = omega arith in ap zeros e
drop-zeros (suc n) zero = let e : 0 ≡ 0 - suc n = omega arith in ap zeros e
drop-zeros (suc n) (suc k) =
    let e : k - n ≡ suc k - suc n = omega arith in drop-zeros n k ∙ ap zeros e

-- The tag is one of these.
abbrev pub is_one_of : Bytes → List Bytes → Bool
is_one_of tag [] = false
is_one_of tag (t ∷ tags) = same_text t tag || is_one_of tag tags

-- The row behind.
next_row :
    (i : ℕ) (array front rest : Bytes)
    → drop (10 * i) array ≡ front ++ rest
    → length front ≡ 10
    → drop (10 * suc i) array ≡ rest
next_row i array front rest at size =
    ap (λ n. drop n array) (omega arith)
    ∙ drop-add (10 * i) 10 array
    ∙ ap (drop 10) at
    ∙ ap (λ n. drop n (front ++ rest)) (sym size)
    ∙ drop-length front rest

same_text_none : (tag : Bytes) → tag ≢ [] → same_text [] tag ≡ false
unfolding same_text
same_text_none [] h = absurd (h refl)
same_text_none (c ∷ tag) h = refl

-- Only zeros are left.
inside-zeros :
    (i left : ℕ) (tag array : Bytes) (k : ℕ)
    → drop (10 * i) array ≡ zeros k
    → tag ≢ []
    → length tag ≤ 20
    → inside i left tag array ≡ false
unfolding inside
inside-zeros i zero tag array k at some_tag fits = refl
inside-zeros i (suc left) tag array k at some_tag fits =
    let here : same_text (take 20 (c_string (drop (10 * i) array))) (take 20 tag) ≡ false =
      ap (λ a. same_text (take 20 (c_string a)) (take 20 tag)) at
      ∙ ap (λ s. same_text (take 20 s) (take 20 tag)) (c_string_none k)
      ∙ ap (same_text []) (take_all 20 tag fits)
      ∙ same_text_none tag some_tag in
    let there : drop (10 * suc i) array ≡ zeros (k - 10) =
      ap (λ n. drop n array) (omega arith)
      ∙ drop-add (10 * i) 10 array
      ∙ ap (drop 10) at
      ∙ drop-zeros 10 k in
    ap (λ b. b || inside (suc i) left tag array) here
    ∙ inside-zeros (suc i) left tag array (k - 10) there some_tag fits

-- The rows of an array that goes on with these.
inside-rows :
    (i left : ℕ) (tag : Bytes) (tags : List Bytes) (array : Bytes) (k : ℕ)
    → drop (10 * i) array ≡ rows tags ++ zeros k
    → All Short tags
    → tag ≢ []
    → length tag ≤ 20
    → length tags ≤ left
    → inside i left tag array ≡ is_one_of tag tags
unfolding inside rows
inside-rows i left tag [] array k at h some_tag fits all =
    inside-zeros i left tag array k at some_tag fits
inside-rows i zero tag (t ∷ tags) array k at h some_tag fits all = absurd (omega (arith, all))
inside-rows i (suc left) tag (t ∷ tags) array k at h some_tag fits all =
    let split = at ∙ append_assoc (row t) (rows tags) (zeros k) in
    let text : c_string (drop (10 * i) array) ≡ t =
      ap c_string split ∙ c_string-row t (rows tags ++ zeros k) h.0 in
    let here : same_text (take 20 (c_string (drop (10 * i) array))) (take 20 tag)
        ≡ same_text t tag =
      ap (λ s. same_text (take 20 s) (take 20 tag)) text
      ∙ ap (λ s. same_text s (take 20 tag)) (take_all 20 t (omega (arith, h.0.2)))
      ∙ ap (same_text t) (take_all 20 tag fits) in
    let there = next_row i array (row t) (rows tags ++ zeros k) split (length-row t h.0.2) in
    ap (λ b. b || inside (suc i) left tag array) here
    ∙ ap (λ b. same_text t tag || b)
        (inside-rows (suc i) left tag tags array k there h.1 some_tag fits (omega (arith, all)))

-- Where at most eight tags are brought into focus for the first time, each not empty, without NUL
-- and of at most nine bytes, a message whose tag is not empty and has at most 20 bytes is printed
-- exactly if its tag is one of them.
pub prints_one_of :
    (tags : List Bytes) (tag : Bytes)
    → All Short tags
    → length tags ≤ 8
    → tag ≢ []
    → length tag ≤ 20
    → (f : Focus) × (debug_focus (some tags) no_focus ≡ ok f) × (prints f tag ≡ is_one_of tag tags)
unfolding debug_focus prints
prints_one_of tags tag h few some_tag fits =
    let (k, e, _) = copy_tags-rows 0 tags [] 200 h refl (omega (arith, few)) refl in
    (
      record { is_focus_tags = true; focus_tags = copy_tags 0 tags (zeros 200) },
      refl,
      ap (inside 0 8 tag) e
          ∙ inside-rows 0 8 tag tags (rows tags ++ zeros k) k refl h some_tag fits few,
    )
