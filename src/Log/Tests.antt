-- ===== src/Log/Tests.antt =====
-- Two short tags, and a tag that does not fit its row.
use kudos_judge.Base.{
  arith, ◌≡◌, refl, Bool, true, false, some, [], ◌∷◌, List, Bytes, ok, Result, ◌>>=◌, same_text,
}
use kudos_judge.Log.Tags.{is_one_of, prints_one_of}
use kudos_judge.Log.{Focus, no_focus, copy_tags, debug_focus, inside, prints}
use kudos_judge.Verdict.{codes}

abbrev prints_with : List Bytes → Bytes → Result Bool
prints_with tags tag = do f ← debug_focus (some tags) no_focus; ok (prints f tag)

short_tags : prints_with (codes "queue" ∷ codes "lang" ∷ []) (codes "lang") ≡ ok true
unfolding debug_focus copy_tags prints inside same_text
short_tags = refl

other_tag : prints_with (codes "queue" ∷ codes "lang" ∷ []) (codes "feed") ≡ ok false
unfolding debug_focus copy_tags prints inside same_text
other_tag = refl

-- The second tag is written over the end of the first one.
long_tag :
    prints_with (codes "template_init" ∷ codes "lang" ∷ []) (codes "template_init") ≡ ok false
unfolding debug_focus copy_tags prints inside same_text
long_tag = refl

prints_one_of_example :
    (f : Focus) × (debug_focus (some (codes "queue" ∷ codes "lang" ∷ [])) no_focus ≡ ok f)
    × (prints f (codes "lang") ≡ is_one_of (codes "lang") (codes "queue" ∷ codes "lang" ∷ []))
prints_one_of_example =
    prints_one_of (codes "queue" ∷ codes "lang" ∷ []) (codes "lang") (ground arith) (omega arith)
      (λ e. ground (arith, e)) (omega arith)
