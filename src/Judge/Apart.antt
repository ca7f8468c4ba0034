-- ===== src/Judge/Apart.antt =====
-- Two workers do not touch each other's files.
use kudos_judge.Base.{
  ℕ, ◌≡◌, ◌≢◌, refl, ap, sym, ◌∙◌, some, List, ◌∷◌, ◌++◌, Bytes, pos, arith, inl, inr, false,
  Bool-cases, some_cancel, drop, length, drop-length,
}
use kudos_judge.Decimal.RoundTrip.{atoi-decimal_onto, decimal_onto-append}
use kudos_judge.Decimal.{is_digit, decimal, atoi}
use kudos_judge.Feed.{feed_name, new_file}
use kudos_judge.Judge.{Machine, make}
use kudos_judge.Lang.Process.{submission_name, is_positive}
use kudos_judge.Queue.Workers.{queue_worker_id, queue_worker_id_one}
use kudos_judge.Verdict.{codes}

append_cancel : (s t u : Bytes) → s ++ t ≡ s ++ u → t ≡ u
append_cancel s t u e = sym (drop-length s t) ∙ ap (drop (length s)) e ∙ drop-length s u

pos_cancel : {a b : ℕ} → pos a ≡ pos b → a ≡ b
pos_cancel e = cc

-- A number with a byte behind it that is no digit is read back.
decimal_cancel :
    (a b c : ℕ) (s t : Bytes)
    → is_digit c ≡ false
    → decimal a ++ (c ∷ s) ≡ decimal b ++ (c ∷ t)
    → a ≡ b
decimal_cancel a b c s t no_digit e =
    let read : (n : ℕ) (u : Bytes) → atoi (decimal n ++ (c ∷ u)) ≡ pos n =
      λ n u. ap atoi (sym (decimal_onto-append n (c ∷ u))) ∙ atoi-decimal_onto n c u no_digit in
    pos_cancel (sym (read a s) ∙ ap atoi e ∙ read b t)

feed_name-worker :
    (workspace : Bytes) (a b now now' : ℕ) (tag tag' : Bytes)
    → feed_name workspace a now tag ≡ feed_name workspace b now' tag'
    → a ≡ b
feed_name-worker workspace a b now now' tag tag' e =
    decimal_cancel a b b'_' _ _ refl (append_cancel (codes "/") _ _ (append_cancel workspace _ _ e))

submission_name-worker :
    (workspace : Bytes) (a b : ℕ)
    → submission_name workspace a ≡ submission_name workspace b
    → a ≡ b
submission_name-worker workspace a b e =
    decimal_cancel a b b'/' _ _ refl (append_cancel (codes "/") _ _ (append_cancel workspace _ _ e))

make-named :
    (m : Machine) (content tag name : Bytes)
    → (make m content tag).filename ≡ some name
    → name ≡ feed_name m.feed_workspace m.worker_id m.feed.now tag
unfolding new_file
make-named m content tag name e =
    let full = feed_name m.feed_workspace m.worker_id m.feed.now tag in
    elim (Bool-cases (m.feed.opens full)) [
      | inr shut ↦ absurd (ground (arith, e, shut))
      | inl opens ↦ elim (Bool-cases (is_positive (m.feed.fputs content))) [
        | inr empty ↦ absurd (ground (arith, e, opens, empty))
        | inl put ↦ some_cancel (ground (arith, e, opens, put))
      ]
    ]

-- Where two different threads are found to be workers, and both work in the same directories, then
-- whatever texts, tags and times, no file that jug_feed_new_file names for one has the name of one
-- that it names for the other, and they compile to different names.
pub workers_apart :
    (threads : List ℕ) (s t : ℕ) (m m' : Machine) (content content' tag tag' name name' : Bytes)
    → queue_worker_id threads s ≡ pos m.worker_id
    → queue_worker_id threads t ≡ pos m'.worker_id
    → s ≢ t
    → m.feed_workspace ≡ m'.feed_workspace
    → m.lang_workspace ≡ m'.lang_workspace
    → (make m content tag).filename ≡ some name
    → (make m' content' tag').filename ≡ some name'
    → (name ≢ name')
      × (submission_name m.lang_workspace m.worker_id
          ≢ submission_name m'.lang_workspace m'.worker_id)
workers_apart threads s t m m' content content' tag tag' name name' is is' apart feeds langs made
      made' =
    let at = make-named m content tag name made in
    let at' = make-named m' content' tag' name' made' in
    let same : feed_name m'.feed_workspace m'.worker_id m'.feed.now tag'
        ≡ feed_name m.feed_workspace m'.worker_id m'.feed.now tag' =
      ap (λ w. feed_name w m'.worker_id m'.feed.now tag') (sym feeds) in
    (
      (λ e. apart (
          queue_worker_id_one threads s t m.worker_id m'.worker_id is is' (
            feed_name-worker m.feed_workspace m.worker_id m'.worker_id m.feed.now m'.feed.now tag
              tag' (sym at ∙ e ∙ at' ∙ same)))),
      (λ e. apart (
          queue_worker_id_one threads s t m.worker_id m'.worker_id is is' (
            submission_name-worker m.lang_workspace m.worker_id m'.worker_id
              (e ∙ ap (λ w. submission_name w m'.worker_id) (sym langs))))),
    )
