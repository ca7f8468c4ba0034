-- ===== src/Compare/Blocks.antt =====
-- The loops of compare.c on texts with no carriage return.
use kudos_judge.Base.{
  ◌&&◌, ℕ, zero, suc, ◌+◌, ◌-◌, ◌≤◌, ◌<◌, ◌≡◌, refl, sym, ◌∙◌, ap, subst, true, ◌⊎◌, inl, inr, none,
  some, [], ◌∷◌, ◌++◌, Bytes, ◌==◌, if◌then◌else◌, arith, pos, length, take, drop, min,
  take-append-drop, length-take, length-append, drop-length, drop-add, Bool-cases,
}
use kudos_judge.Compare.Spec.{NoReturn, feed, all_eol-append}
use kudos_judge.Compare.{
  Descriptor, rdwr, read_size, read, all_eol, Match, differs, ran_out, match_block, Return,
  compare_loop, go_back, end_loop,
}

-- What a comparison of a block has found out of the whole file and the whole piece.
abbrev Matched : Bytes → Bytes → Bytes → ℕ → Match → Type 0
Matched block tail rx i m =
    ((k : ℕ) × (m ≡ differs (suc k)) × (feed (block ++ tail) rx ≡ none))
    ⊎ ((rest : Bytes) × (m ≡ ran_out (i + length block) 0 0 rest)
        × (feed (block ++ tail) rx ≡ feed tail rest)
        × (rx ≡ block ++ rest))

match_block-Matched :
    (block tail rx : Bytes) (i : ℕ)
    → NoReturn block
    → NoReturn rx
    → length block ≤ length rx
    → Matched block tail rx i (match_block block rx i 0 0)
unfolding match_block feed
match_block-Matched [] tail rx i h k le =
    inr (rx, ap (λ (n : ℕ). ran_out n 0 0 rx) (omega arith), refl, refl)
match_block-Matched (b ∷ block) tail [] i h k le = absurd (omega arith)
match_block-Matched (b ∷ block) tail (c ∷ rx) i h k le = elim (Bool-cases (c == b)) [
  | inl same ↦ elim (match_block-Matched block tail rx (i + 1) h.1 k.1 (omega arith)) [
    | inl (at, m, f) ↦ inl (at, ground arith, ground arith)
    | inr (rest, m, f, e) ↦ inr (rest, ground arith, ground arith, ground arith)
  ]
  | inr other ↦ inl (i, ground arith, ground arith)
]

NoReturn-drop : (n : ℕ) (s : Bytes) → NoReturn s → NoReturn (drop n s)
NoReturn-drop zero s h = h
NoReturn-drop (suc n) [] h = h
NoReturn-drop (suc n) (c ∷ s) h = NoReturn-drop n s h.1

NoReturn-take : (n : ℕ) (s : Bytes) → NoReturn s → NoReturn (take n s)
NoReturn-take zero s h = tt
NoReturn-take (suc n) [] h = h
NoReturn-take (suc n) (c ∷ s) h = (h.0, NoReturn-take n s h.1)

NoReturn-behind : (s t : Bytes) → NoReturn (s ++ t) → NoReturn t
NoReturn-behind [] t h = h
NoReturn-behind (c ∷ s) t h = NoReturn-behind s t h.1

-- The descriptor of the expected output as the judge opens it.
pub record IsReadable (fd : Descriptor) : Type 0 where
  pub opened : fd.is_open ≡ true
  pub read_write : fd.access ≡ rdwr
  pub no_return : NoReturn fd.content

abbrev pub left_of : Descriptor → Bytes
left_of fd = drop fd.offset fd.content

read-IsReadable :
    (fd : Descriptor) (n : ℕ)
    → IsReadable fd
    → read fd n
      ≡ some (take n (left_of fd), record fd { offset = fd.offset + length (take n (left_of fd)) })
unfolding read
read-IsReadable fd n v = ground arith

-- A comparison of the piece with what is left of the file, in its return value and in the file.
abbrev pub Compared : Descriptor → Bytes → Return → Type 0
Compared fd rx r =
    ((k : ℕ) × (fd' : Descriptor) × (r ≡ some (pos (suc k), fd')) × (feed (left_of fd) rx ≡ none))
    ⊎ ((o : ℕ) × (r ≡ some (pos 0, record fd { offset = o }))
        × (feed (left_of fd) rx ≡ some (drop o fd.content)))

take-nil : (n : ℕ) → take {A = ℕ} n [] ≡ []
take-nil zero = refl
take-nil (suc n) = refl

pub feed-nil : (file : Bytes) → feed file [] ≡ some file
unfolding feed
feed-nil [] = refl
feed-nil (b ∷ file) = refl

-- What a read of `n` bytes gives, once the bytes are known.
read-eq_some :
    (fd : Descriptor) (n : ℕ) (block : Bytes)
    → IsReadable fd
    → take n (left_of fd) ≡ block
    → read fd n ≡ some (block, record fd { offset = fd.offset + length block })
read-eq_some fd n block v e =
    read-IsReadable fd n v
    ∙ ap (λ (t : Bytes). some (t, record fd { offset = fd.offset + length t })) e

at_end :
    (fuel : ℕ) (fd : Descriptor) (c : ℕ) (rx : Bytes)
    → IsReadable fd
    → left_of fd ≡ []
    → Compared fd (c ∷ rx) (compare_loop (suc fuel) fd (c ∷ rx) 0 0)
unfolding compare_loop feed
at_end fuel fd c rx v e =
    let n = min read_size (length (c ∷ rx)) in
    let r = read-eq_some fd n [] v (ap (take n) e ∙ take-nil n) in
    let stays : drop (fd.offset + 0) fd.content ≡ [] = drop-add fd.offset 0 fd.content ∙ e in
    elim (Bool-cases (all_eol (c ∷ rx))) [
      | inl line_ends ↦ inr (fd.offset + 0, ground (arith, r), ground (arith, e, stays))
      | inr more ↦
          inl (19, record fd { offset = fd.offset + 0 }, ground (arith, r), ground (arith, e))
    ]

-- One round that reads `block`.
round :
    (fuel : ℕ) (fd : Descriptor) (c : ℕ) (rx : Bytes) (b : ℕ) (block tail : Bytes)
    → IsReadable fd
    → NoReturn (c ∷ rx)
    → left_of fd ≡ (b ∷ block) ++ tail
    → take (min read_size (length (c ∷ rx))) (left_of fd) ≡ b ∷ block
    → ((o : ℕ) (rest : Bytes)
        → length rest < length (c ∷ rx)
        → NoReturn rest
        → Compared
            (record fd { offset = o })
            rest
            (compare_loop fuel (record fd { offset = o }) rest 0 0))
    → Compared fd (c ∷ rx) (compare_loop (suc fuel) fd (c ∷ rx) 0 0)
unfolding compare_loop go_back
round fuel fd c rx b block tail v h split reads ih =
    let n = min read_size (length (c ∷ rx)) in
    let o = fd.offset + length (b ∷ block) in
    let r = read-eq_some fd n (b ∷ block) v reads in
    let fits : length (b ∷ block) ≤ length (c ∷ rx) =
      omega (arith, ap length reads, length-take n (left_of fd)) in
    let clean : NoReturn (b ∷ block) =
      subst NoReturn reads
        (NoReturn-take n (left_of fd) (NoReturn-drop fd.offset fd.content v.no_return)) in
    let moved : drop o fd.content ≡ tail =
      drop-add fd.offset (length (b ∷ block)) fd.content
      ∙ ap (drop (length (b ∷ block))) split
      ∙ drop-length (b ∷ block) tail in
    elim (match_block-Matched (b ∷ block) tail (c ∷ rx) 0 clean h fits) [
      | inl (k, m, f) ↦
          inl
            (k, record fd { offset = o }, ground (arith, r, m), ap (λ t. feed t (c ∷ rx)) split ∙ f)
      | inr (rest, m, f, e) ↦
          let next =
            ih o rest (omega (arith, ap length e, length-append (b ∷ block) rest))
              (NoReturn-behind (b ∷ block) rest (subst NoReturn e h)) in
          let fed : feed (left_of fd) (c ∷ rx) ≡ feed (drop o fd.content) rest =
            ap (λ t. feed t (c ∷ rx)) split ∙ f ∙ ap (λ t. feed t rest) (sym moved) in
          elim next [
            | inl (k, fd', s, f') ↦ inl (k, fd', ground (arith, r, m, s), fed ∙ f')
            | inr (o', s, f') ↦ inr (o', ground (arith, r, m, s), fed ∙ f')
          ]
    ]

compare_step :
    (fuel : ℕ) (fd : Descriptor) (c : ℕ) (rx file : Bytes)
    → IsReadable fd
    → NoReturn (c ∷ rx)
    → left_of fd ≡ file
    → ((o : ℕ) (rest : Bytes)
        → length rest < length (c ∷ rx)
        → NoReturn rest
        → Compared
            (record fd { offset = o })
            rest
            (compare_loop fuel (record fd { offset = o }) rest 0 0))
    → Compared fd (c ∷ rx) (compare_loop (suc fuel) fd (c ∷ rx) 0 0)
compare_step fuel fd c rx [] v h e ih = at_end fuel fd c rx v e
compare_step fuel fd c rx (b ∷ file) v h e ih =
    let m = min read_size (length (c ∷ rx)) - 1 in
    let more : min read_size (length (c ∷ rx)) ≡ suc m = omega arith in
    round fuel fd c rx b (take m file) (drop m file) v h
      (e ∙ ap (◌∷◌ b) (sym (take-append-drop m file)))
      (ap (λ k. take k (left_of fd)) more ∙ ap (take (suc m)) e) ih

pub compare_loop-Compared :
    (fuel : ℕ) (fd : Descriptor) (rx : Bytes)
    → IsReadable fd
    → NoReturn rx
    → length rx < fuel
    → Compared fd rx (compare_loop fuel fd rx 0 0)
compare_loop-Compared zero fd rx v h lt = absurd (omega arith)
compare_loop-Compared (suc fuel) fd [] v h lt =
    inr (fd.offset, unfold compare_loop in refl, feed-nil (left_of fd))
compare_loop-Compared (suc fuel) fd (c ∷ rx) v h lt =
    compare_step fuel fd c rx (left_of fd) v h refl (λ o rest less clean.
      compare_loop-Compared fuel (record fd { offset = o }) rest (moved_readable o) clean
        (omega arith))
  where
    moved_readable : (o : ℕ) → IsReadable (record fd { offset = o })
    moved_readable o = record {
      opened = v.opened;
      read_write = v.read_write;
      no_return = v.no_return;
    }

-- The call at the end: a file with nothing but line ends left is 0, any other is 10.
abbrev Ended : Descriptor → Return → Type 0
Ended fd r = (fd' : Descriptor) × (r ≡ some (pos (if all_eol (left_of fd) then 0 else 10), fd'))

end_step :
    (fuel : ℕ) (fd : Descriptor) (file : Bytes)
    → IsReadable fd
    → left_of fd ≡ file
    → ((o : ℕ)
        → length (drop o fd.content) < length (left_of fd)
        → Ended (record fd { offset = o }) (end_loop fuel (record fd { offset = o })))
    → Ended fd (end_loop (suc fuel) fd)
unfolding end_loop
end_step fuel fd [] v e ih =
    let r = read-eq_some fd read_size [] v (ap (take read_size) e) in
    (record fd { offset = fd.offset + 0 }, ground (arith, r, e))
end_step fuel fd (b ∷ file) v e ih =
    let block = b ∷ take 255 file in
    let tail = drop 255 file in
    let r = read-eq_some fd read_size block v (ap (take read_size) e) in
    let o = fd.offset + length block in
    let split : left_of fd ≡ block ++ tail = e ∙ ap (◌∷◌ b) (sym (take-append-drop 255 file)) in
    let moved : drop o fd.content ≡ tail =
      drop-add fd.offset (length block) fd.content
      ∙ ap (drop (length block)) split
      ∙ drop-length block tail in
    let parts : all_eol (left_of fd) ≡ (all_eol block && all_eol tail) =
      ap all_eol split ∙ all_eol-append block tail in
    elim (Bool-cases (all_eol block)) [
      | inl line_ends ↦
          let (fd', s) =
            ih o (omega (arith, ap length moved, ap length split, length-append block tail)) in
          (fd', ground (arith, r, line_ends, parts, s, ap all_eol moved))
      | inr more ↦ (record fd { offset = o }, ground (arith, r, more, parts))
    ]

pub end_loop-Ended :
    (fuel : ℕ) (fd : Descriptor)
    → IsReadable fd
    → length (left_of fd) < fuel
    → Ended fd (end_loop fuel fd)
end_loop-Ended zero fd v lt = absurd (omega arith)
end_loop-Ended (suc fuel) fd v lt = end_step fuel fd (left_of fd) v refl (λ o less.
    end_loop-Ended fuel (record fd { offset = o })
      (record { opened = v.opened; read_write = v.read_write; no_return = v.no_return })
      (omega arith))
