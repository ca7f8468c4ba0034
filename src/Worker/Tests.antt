-- ===== src/Worker/Tests.antt =====
-- Runs of the worker on services that answer in fixed ways.
use kudos_judge.Base.{◌≡◌, refl, false, true, some, [], ◌∷◌, Bytes, ℤ, pos, ok}
use kudos_judge.Decimal.{atoi}
use kudos_judge.Interface.Decode.RoundTrip.{judging}
use kudos_judge.Interface.Decode.{decode}
use kudos_judge.Interface.Request.{number_line, sized_text, skip_line, advance}
use kudos_judge.Lang.Process.{filled}
use kudos_judge.Lang.{BinaryInformation}
use kudos_judge.Verdict.{wrong, codes}
use kudos_judge.Worker.Session.{Session, making, serve-Session}
use kudos_judge.Worker.Verdicts.{verdicts, files_created, files_removed, ends_closed, serve_judged}
use kudos_judge.Worker.{Services, crashes, creates_file, serve}

abbrev binary : BinaryInformation
binary = record {
  bin_cmd = codes "/w/Submission";
  bin_path = codes "/w/Submission";
  interpreted = false;
}

-- Every file is made, the compiler ends with this code, and each submission is wrong.
abbrev answering : ℤ → Services
answering code = record {
  new_file = λ content tag. record { filename = some tag; file = some (tag, content) };
  lang_result = λ source. record { code = code; info = filled binary; effects = [] };
  judge = λ files submission. some wrong;
}

abbrev request : Bytes
request = codes "0\n0\n1\n7\n0\n1\n7\n2\nok"

decoded : decode request ≡ ok (judging (codes "ok") (codes "7") (codes "7"))
unfolding decode number_line sized_text skip_line advance atoi
decoded = refl

-- A reference in place of the input: the worker frees a pointer that was never set.
by_reference :
    serve (answering (pos 0)) (some (codes "0\n1\n5\n0\n1\n7\n2\nok"))
    ≡ creates_file (codes "output") ∷ crashes ∷ []
unfolding serve decode number_line sized_text skip_line advance atoi
by_reference = refl

serve_judged_example :
    (verdicts (serve (answering (pos 0)) (some request)) ≡ wrong ∷ [])
    × (files_created (serve (answering (pos 0)) (some request))
        ≡ files_removed (serve (answering (pos 0)) (some request)))
    × (ends_closed (serve (answering (pos 0)) (some request)) ≡ true)
serve_judged_example =
    serve_judged (answering (pos 0)) binary (codes "ok") (codes "7") (codes "7") request wrong
      decoded refl refl refl refl refl

serve-Session_example : Session making (serve (answering (pos 0)) (some request))
serve-Session_example = serve-Session (answering (pos 0)) (some request)
