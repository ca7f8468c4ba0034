-- ===== src/Judge/Leftover/Tests.antt =====
-- A file system that is full where the expected output is to be written.
use kudos_judge.Base.{◌≡◌, refl, [], ◌∷◌, some, pos, same_text, Bytes, ℤ, if◌then◌else◌}
use kudos_judge.Feed.{feed_name}
use kudos_judge.Judge.Leftover.{serve-leftover}
use kudos_judge.Judge.Tests.{machine, request, binary, output, judged}
use kudos_judge.Judge.{Machine, services}
use kudos_judge.Verdict.{internal, codes}
use kudos_judge.Worker.Verdicts.{verdicts, files_created, files_removed}
use kudos_judge.Worker.{serve}

abbrev fputs : Bytes → ℤ
fputs text = if same_text text output then pos 0 else pos 1

abbrev full : Machine
full = record machine { feed = record machine.feed { fputs = fputs } }

serve-leftover_example :
    (verdicts (serve (services full) (some request)) ≡ internal ∷ [])
    × (files_created (serve (services full) (some request))
        ≡ feed_name (codes "/f") 3 5 (codes "input")
          ∷ feed_name (codes "/f") 3 5 (codes "output")
          ∷ [])
    × (files_removed (serve (services full) (some request))
        ≡ feed_name (codes "/f") 3 5 (codes "input") ∷ [])
unfolding same_text
serve-leftover_example =
    serve-leftover full (codes "ok") (codes "7") output request binary judged.decoded
      judged.compiled judged.filled_in (λ name. refl) refl refl
