-- ===== src/Judge/Refused/Tests.antt =====
-- A submission that does not compile.
use kudos_judge.Base.{◌≡◌, ◌↔◌, refl, false, some, [], ◌∷◌, same_text}
use kudos_judge.Decimal.{atoi, decimal_onto}
use kudos_judge.Feed.{new_file}
use kudos_judge.Interface.Decode.{decode}
use kudos_judge.Interface.Request.{number_line, sized_text, skip_line, advance}
use kudos_judge.Judge.Refused.{serve-Uncompiled}
use kudos_judge.Judge.Tests.{machine, request, output, judged}
use kudos_judge.Judge.{Machine, services}
use kudos_judge.Lang.Process.Outcomes.{Known, Uncompiled}
use kudos_judge.Lang.Process.{submission_name, lang_process, process_lang, compile}
use kudos_judge.Lang.{Lang, lang_get}
use kudos_judge.Verdict.{compile_error, codes}
use kudos_judge.Worker.Verdicts.{verdicts}
use kudos_judge.Worker.{serve}

abbrev pub broken : Machine
broken = record machine { host = record machine.host { generates = λ command output. false } }

refused : verdicts (serve (services broken) (some request)) ≡ compile_error ∷ []
unfolding serve decode number_line sized_text skip_line advance atoi lang_process process_lang
    compile lang_get same_text decimal_onto new_file
refused = refl

serve-Uncompiled_example :
    (verdicts (serve (services broken) (some request)) ≡ compile_error ∷ []) ↔ (
      (lang : Lang) × Known broken.host broken.langs (codes "c") lang
      × Uncompiled broken.host lang (submission_name (codes "/w") 3) (codes "ok"))
serve-Uncompiled_example =
    serve-Uncompiled broken (codes "ok") (codes "7") output request judged.decoded
