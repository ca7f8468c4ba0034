-- ===== src/Feed.antt =====
-- `jug_feed_new_file` of feed.c: a text of a request becomes a file for the runner.
use kudos_judge.Base.{
  ℕ, Bool, true, Option, none, some, ◌++◌, Bytes, if◌then◌else◌, not, ℤ, ◌≡◌, ◌↔◌, arith,
  Bool-cases, inl, inr,
}
use kudos_judge.Decimal.{decimal}
use kudos_judge.Lang.Process.{is_positive}
use kudos_judge.Verdict.{codes}

-- What the system answers: the time, `fopen(…,"w+")` of a name, and `fputs` of a text.
pub record Answers : Type 0 where
  pub now : ℕ
  pub opens : Bytes → Bool
  pub fputs : Bytes → ℤ

-- What is left of a call: the name, and the text in the file of that name where one was made.
pub record Made : Type 0 where
  pub filename : Option Bytes
  pub file : Option (Bytes × Bytes)

-- "%s/%d_%d_%s.data"
abbrev pub feed_name : Bytes → ℕ → ℕ → Bytes → Bytes
feed_name workspace worker_id now tag =
    workspace
    ++ (codes "/"
        ++ (decimal worker_id
            ++ (codes "_" ++ (decimal now ++ (codes "_" ++ (tag ++ codes ".data"))))))

-- A text that cannot be written leaves an empty file.
unfoldable pub new_file : Answers → Bytes → Bytes → ℕ → Bytes → Made
new_file a workspace content worker_id tag =
    let name = feed_name workspace worker_id a.now tag in
    if not (a.opens name)
    then record { filename = none; file = none }
    else if not (is_positive (a.fputs content))
    then record { filename = none; file = some (name, codes "") }
    else record { filename = some name; file = some (name, content) }

-- jug_feed_new_file returns the name made of the worker, the time and the tag exactly where the
-- file of that name holds the text and fputs has returned a positive value.
pub new_file_named :
    (a : Answers) (workspace content : Bytes) (worker_id : ℕ) (tag : Bytes)
    → ((new_file a workspace content worker_id tag).filename
        ≡ some (feed_name workspace worker_id a.now tag))
      ↔ (((new_file a workspace content worker_id tag).file
            ≡ some (feed_name workspace worker_id a.now tag, content))
          × (is_positive (a.fputs content) ≡ true))
unfolding new_file
new_file_named a workspace content worker_id tag =
    let name = feed_name workspace worker_id a.now tag in
    elim (Bool-cases (a.opens name)) [
      | inr shut ↦
          ((λ c. absurd (ground (arith, shut, c))), (λ c. absurd (ground (arith, shut, c.0))))
      | inl opened ↦ elim (Bool-cases (is_positive (a.fputs content))) [
        | inr empty ↦ (
          (λ c. absurd (ground (arith, opened, empty, c))),
          (λ c. absurd (ground (arith, empty, c.1))),
        )
        | inl put ↦ ((λ _. (ground (arith, opened, put), put)), (λ _. ground (arith, opened, put)))
      ]
    ]
