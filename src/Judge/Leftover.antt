-- ===== src/Judge/Leftover.antt =====
-- A request whose expected output cannot be written to its file.
mod Tests
use kudos_judge.Base.{
  ◌≡◌, ap, ◌∙◌, true, false, some, none, [], ◌∷◌, Bytes, pos, is_ℕ, ok, arith, refl,
}
use kudos_judge.Feed.{feed_name, new_file}
use kudos_judge.Interface.Decode.RoundTrip.{judging}
use kudos_judge.Interface.Decode.{decode}
use kudos_judge.Judge.{Machine, make, open_file, judge_submission, services, process}
use kudos_judge.Lang.Process.{filled, is_positive}
use kudos_judge.Lang.{BinaryInformation}
use kudos_judge.Runner.{judge}
use kudos_judge.Verdict.{internal, codes}
use kudos_judge.Worker.Verdicts.{
  verdicts, files_created, files_removed, submission_of, files_of, serve_answered, serve_files,
}
use kudos_judge.Worker.{serve}

module _ (m : Machine) (source input output string : Bytes) (info : BinaryInformation)
    (decoded : decode string ≡ ok (judging source input output))
    (compiled : (process m source).code ≡ pos 0) (filled_in : (process m source).info ≡ filled info)
    (opens : (name : Bytes) → m.feed.opens name ≡ true)
    (put : is_positive (m.feed.fputs input) ≡ true)
    (lost : is_positive (m.feed.fputs output) ≡ false) where
  abbrev name_of : Bytes → Bytes
  name_of tag = feed_name m.feed_workspace m.worker_id m.feed.now tag

  input_made : make m input (codes "input") ≡ record {
    filename = some (name_of (codes "input"));
    file = some (name_of (codes "input"), input);
  }
  unfolding new_file
  input_made = rw (opens (name_of (codes "input")), put) refl

  output_made :
      make m output (codes "output")
      ≡ record { filename = none; file = some (name_of (codes "output"), codes "") }
  unfolding new_file
  output_made = rw (opens (name_of (codes "output")), lost) refl

  judged :
      judge_submission m
        (files_of (services m) input output)
        (submission_of (services m) info source input output)
      ≡ some internal
  unfolding judge_submission judge open_file
  judged = ground (arith, output_made)

  -- A request that decodes and compiles, whose files can be made, whose input can be written, but
  -- whose expected output cannot, is answered with INTERNAL ERROR and nothing else, both files are
  -- made, and only the one of the input is removed.
  pub serve-leftover :
      (verdicts (serve (services m) (some string)) ≡ internal ∷ [])
      × (files_created (serve (services m) (some string))
          ≡ feed_name m.feed_workspace m.worker_id m.feed.now (codes "input")
            ∷ feed_name m.feed_workspace m.worker_id m.feed.now (codes "output")
            ∷ [])
      × (files_removed (serve (services m) (some string))
          ≡ feed_name m.feed_workspace m.worker_id m.feed.now (codes "input") ∷ [])
  serve-leftover =
      let zero = ap (λ z. is_ℕ z 0) compiled in
      let (made, removed) =
        serve_files (services m) info source input output string internal decoded zero filled_in
          judged in
      (
        serve_answered (services m) info source input output string internal decoded zero filled_in
            judged,
        made ∙ rw (input_made, output_made) refl,
        removed ∙ rw (input_made, output_made) refl,
      )
