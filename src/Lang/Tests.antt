-- ===== src/Lang/Tests.antt =====
-- Languages of the configuration file that the daemon comes with.
use kudos_judge.Base.{same_text, ◌≡◌, ◌↔◌, refl, true, [], ◌∷◌, List, arith, ok, pos}
use kudos_judge.Lang.Entries.{
  IsEntry, entry, vm_entry, as_compiled, as_interpreted, as_vm, lang_init-entries,
}
use kudos_judge.Decimal.{decimal_onto}
use kudos_judge.Lang.Process.Codes.{lang_process-Binary}
use kudos_judge.Lang.Process.Outcomes.{Known, Binary}
use kudos_judge.Lang.Process.{
  Host, filled, submission_name, fill, compile, process_lang, lang_process,
}
use kudos_judge.Lang.{BinaryInformation, Lang, lang_vm, lang_init, lang_get}
use kudos_judge.Verdict.{codes}

abbrev java : Lang
java = record {
  type = lang_vm;
  id = codes "java";
  version = codes "1.7.0";
  label = codes " Java openJDK";
  cmd_compile = codes " javac %s";
  cmd_interpr = codes "java %s";
  cmd_vm = codes "java %s";
  ext_compile = codes "java";
  ext_interpr = codes "java";
  ext_vm = codes "class";
}

java-IsEntry : IsEntry java
java-IsEntry = record {
  id = ground arith;
  version = ground arith;
  label = ground arith;
  cmd_compile = ground arith;
  ext_compile = ground arith;
  cmd_interpr = ground arith;
  ext_interpr = ground arith;
  cmd_vm = ground arith;
  ext_vm = ground arith;
}

lang_init-entries_example :
    lang_init
      (entry java (codes " javac %s") (codes "java") ∷ [])
      (entry java (codes "java %s") (codes "java") ∷ [])
      (vm_entry java ∷ [])
    ≡ ok (as_compiled java ∷ as_interpreted java ∷ as_vm java ∷ [])
lang_init-entries_example = lang_init-entries java java-IsEntry

-- Everything succeeds, and a format is used without its arguments.
abbrev host : Host
host = record {
  has_directory = true;
  opens = λ name. true;
  fputs = λ text. pos 1;
  generates = λ command output. true;
  format = λ format args. format;
}

abbrev langs : List Lang
langs = as_interpreted java ∷ []

abbrev class : BinaryInformation
class = record {
  bin_cmd = codes "java %s";
  bin_path = codes "/w/3/Submission.class";
  interpreted = true;
}

-- The class file of the compiler.
lang_process-Binary_example :
    (((lang_process host (as_vm java ∷ langs) (codes "/w") (codes "java") (codes "ok") 3).code
        ≡ pos 0)
      × ((lang_process host (as_vm java ∷ langs) (codes "/w") (codes "java") (codes "ok") 3).info
          ≡ filled class))
    ↔ ((lang : Lang) × Known host (as_vm java ∷ langs) (codes "java") lang
        × Binary host lang (submission_name (codes "/w") 3) (codes "ok") class)
lang_process-Binary_example =
    lang_process-Binary host (as_vm java ∷ langs) (codes "/w") (codes "java") (codes "ok") 3 class

class_made :
    ((lang_process host (as_vm java ∷ langs) (codes "/w") (codes "java") (codes "ok") 3).code
      ≡ pos 0)
    × ((lang_process host (as_vm java ∷ langs) (codes "/w") (codes "java") (codes "ok") 3).info
        ≡ filled class)
unfolding lang_process process_lang compile fill lang_get same_text decimal_onto
class_made = (refl, refl)

-- The text of an interpreted language is not written anywhere.
unwritten : (lang_process host langs (codes "/w") (codes "java") (codes "ok") 3).effects ≡ []
unfolding lang_process process_lang lang_get same_text
unwritten = refl
