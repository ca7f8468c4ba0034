-- ===== src/Log/Rows.antt =====
-- The tags in focus as rows of their array.
use kudos_judge.Base.{
  ℕ, zero, suc, ◌+◌, ◌*◌, ◌-◌, ◌<◌, ◌≤◌, ◌≡◌, ◌≢◌, refl, sym, ap, ◌∙◌, leb, true, List, [], ◌∷◌,
  ◌++◌, append_assoc, Bytes, All, length, length-append, take, take-length, drop, drop-length,
  drop-add, arith,
}
use kudos_judge.Interface.BufferLib.{NoNul}
use kudos_judge.Log.{zeros, put, copied, copy_tags}

pub length-zeros : (n : ℕ) → length (zeros n) ≡ n
length-zeros zero = refl
length-zeros (suc n) = ap suc (length-zeros n)

pub zeros-split : (n a b : ℕ) → n ≡ a + b → zeros n ≡ zeros a ++ zeros b
zeros-split n zero b e = ap zeros (omega (arith, e))
zeros-split zero (suc a) b e = absurd (omega (arith, e))
zeros-split (suc n) (suc a) b e = ap (λ s. 0 ∷ s) (zeros-split n a b (omega (arith, e)))

-- A tag that fits its row.
abbrev pub Short : Bytes → Type 0
Short tag = NoNul tag × (tag ≢ []) × (length tag < 10)

-- A tag as its row of 10 bytes.
unfoldable pub row : Bytes → Bytes
row tag = tag ++ zeros (10 - length tag)

unfoldable pub rows : List Bytes → Bytes
rows [] = []
rows (tag ∷ tags) = row tag ++ rows tags

pub length-row : (tag : Bytes) → length tag < 10 → length (row tag) ≡ 10
unfolding row
length-row tag h =
    length-append tag (zeros (10 - length tag))
    ∙ ap (λ n. length tag + n) (length-zeros (10 - length tag))
    ∙ omega arith

-- Bytes written over as many others.
pub put_over :
    (front s old rest : Bytes)
    → length old ≡ length s
    → put (length front) s (front ++ (old ++ rest)) ≡ front ++ (s ++ rest)
put_over front s old rest same =
    let behind : drop (length front + length s) (front ++ (old ++ rest)) ≡ rest =
      drop-add (length front) (length s) (front ++ (old ++ rest))
      ∙ ap (drop (length s)) (drop-length front (old ++ rest))
      ∙ ap (λ n. drop n (old ++ rest)) (sym same)
      ∙ drop-length old rest in
    ap (λ t. t ++ (s ++ drop (length front + length s) (front ++ (old ++ rest))))
      (take-length front (old ++ rest))
    ∙ ap (λ t. front ++ (s ++ t)) behind

-- A copied tag is its row and more zeros.
pub copied-row : (tag : Bytes) → length tag < 10 → copied tag ≡ row tag ++ zeros 9
unfolding row
copied-row tag h =
    let n = length tag in
    let split : zeros 19 ≡ zeros (19 - n) ++ zeros n = zeros-split 19 (19 - n) n (omega arith) in
    let parts : zeros (19 - n) ≡ zeros (10 - n) ++ zeros 9 =
      zeros-split (19 - n) (10 - n) 9 (omega arith) in
    let size : length (tag ++ zeros (19 - n)) ≡ 19 =
      length-append tag (zeros (19 - n)) ∙ ap (λ k. n + k) (length-zeros (19 - n)) ∙ omega arith in
    ap (λ z. take 19 (tag ++ z)) split
    ∙ ap (take 19) (sym (append_assoc tag (zeros (19 - n)) (zeros n)))
    ∙ ap (λ k. take k ((tag ++ zeros (19 - n)) ++ zeros n)) (sym size)
    ∙ take-length (tag ++ zeros (19 - n)) (zeros n)
    ∙ ap (λ z. tag ++ z) parts
    ∙ sym (append_assoc tag (zeros (10 - n)) (zeros 9))

-- One tag is copied where only zeros are left.
pub put_tag :
    (front tag : Bytes) (left : ℕ)
    → length tag < 10
    → 19 ≤ left
    → put (length front) (copied tag) (front ++ zeros left)
      ≡ (front ++ row tag) ++ zeros (left - 10)
put_tag front tag left h room =
    let copy = copied-row tag h in
    let size : length (zeros 19) ≡ length (copied tag) =
      sym
        (ap length copy ∙ length-append (row tag) (zeros 9) ∙ ap (λ n. n + 9) (length-row tag h)) in
    ap (λ z. put (length front) (copied tag) (front ++ z))
      (zeros-split left 19 (left - 19) (omega (arith, room)))
    ∙ put_over front (copied tag) (zeros 19) (zeros (left - 19)) size
    ∙ ap (λ c. front ++ (c ++ zeros (left - 19))) copy
    ∙ ap (λ z. front ++ z) (append_assoc (row tag) (zeros 9) (zeros (left - 19)))
    ∙ ap (λ z. front ++ (row tag ++ z))
        (sym (zeros-split (left - 10) 9 (left - 19) (omega (arith, room))))
    ∙ sym (append_assoc front (row tag) (zeros (left - 10)))

-- The tags are copied into their rows, where only zeros are left.
pub copy_tags-rows :
    (i : ℕ) (tags : List Bytes) (front : Bytes) (left : ℕ)
    → All Short tags
    → length front ≡ 10 * i
    → i + length tags < 9
    → left + 10 * i ≡ 200
    → (k : ℕ) × (copy_tags i tags (front ++ zeros left) ≡ front ++ (rows tags ++ zeros k))
      × (k + 10 * (i + length tags) ≡ 200)
unfolding copy_tags rows
copy_tags-rows i [] front left h at fits room = (
  left,
  ap (λ n. put n (0 ∷ []) (front ++ zeros left)) (sym at)
      ∙ ap (λ z. put (length front) (0 ∷ []) (front ++ z))
          (zeros-split left 1 (left - 1) (omega (arith, room, fits)))
      ∙ put_over front (0 ∷ []) (0 ∷ []) (zeros (left - 1)) refl
      ∙ ap (λ z. front ++ z) (sym (zeros-split left 1 (left - 1) (omega (arith, room, fits)))),
  omega (arith, room),
)
copy_tags-rows i (tag ∷ tags) front left h at fits room =
    let (k, e, spare) =
      copy_tags-rows (suc i) tags (front ++ row tag) (left - 10) h.1
        (length-append front (row tag)
          ∙ ap (λ n. length front + n) (length-row tag h.0.2)
          ∙ omega (arith, at))
        (omega (arith, fits)) (omega (arith, room, fits)) in
    let placed : put (10 * i) (copied tag) (front ++ zeros left)
        ≡ (front ++ row tag) ++ zeros (left - 10) =
      ap (λ n. put n (copied tag) (front ++ zeros left)) (sym at)
      ∙ put_tag front tag left h.0.2 (omega (arith, room, fits)) in
    let more : leb i 8 ≡ true = ground (arith, fits) in
    (
      k,
      rw more (
          ap (copy_tags (suc i) tags) placed
          ∙ e
          ∙ append_assoc front (row tag) (rows tags ++ zeros k)
          ∙ ap (λ z. front ++ z) (sym (append_assoc (row tag) (rows tags) (zeros k)))),
      omega (arith, spare),
    )
