-- ===== src/Lang/Process.antt =====
-- `lang_process` of lang.c: a submission's source code is written to a file and compiled. The compiler
-- and the file system are an interface. The arrays for the names and the command are taken to be
-- large enough.
use kudos_judge.Base.{
  ℕ, suc, Bool, true, false, not, Option, none, some, List, [], ◌∷◌, ◌++◌, Bytes, if◌then◌else◌, ℤ,
  pos, negsuc,
}
use kudos_judge.Decimal.{decimal}
use kudos_judge.Lang.{
  BinaryInformation, LangType, lang_compiled, lang_interpreted, lang_vm, Lang, lang_get,
}
use kudos_judge.Verdict.{codes}
pub mod Outcomes
pub mod Codes

-- What the system answers.
pub record Host : Type 0 where
  -- the worker's directory is there, or `mkdir` makes it
  pub has_directory : Bool
  -- `fopen(…,"w+")`
  pub opens : Bytes → Bool
  -- `fputs` of a text
  pub fputs : Bytes → ℤ
  -- `stat` of the output file after the command
  pub generates : Bytes → Bytes → Bool
  -- `sprintf` with a format of the configuration
  pub format : Bytes → List Bytes → Bytes

pub data Effect : Type 0 where
  writes : (filename text : Bytes) → Effect
  creates : Bytes → Effect
  unlinks : Bytes → Effect
  system : Bytes → Effect

-- `binInfo`: untouched, with its two pointers allocated, or filled.
pub data Info : Type 0 where
  untouched allocated : Info
  filled : BinaryInformation → Info

pub record Processed : Type 0 where
  pub code : ℤ
  pub info : Info
  pub effects : List Effect

-- "%s/%d/Submission"
abbrev pub submission_name : Bytes → ℕ → Bytes
submission_name workspace worker_id =
    workspace ++ (codes "/" ++ (decimal worker_id ++ codes "/Submission"))

abbrev pub with_extension : Bytes → Bytes → Bytes
with_extension name ext = name ++ (codes "." ++ ext)

abbrev pub is_positive : ℤ → Bool
is_positive (pos (suc n)) = true
is_positive _ = false

-- The file that the compiler is to write.
abbrev pub output_name : Lang → Bytes → Bytes
output_name lang name = elim lang.type [
  | lang_vm ↦ with_extension name lang.ext_vm
  | lang_interpreted ↦ with_extension name lang.ext_interpr
  | lang_compiled ↦ name
]

-- What `binInfo` is filled with at the end.
unfoldable pub fill : Host → Lang → Bytes → BinaryInformation
fill h lang output = elim lang.type [
  | lang_compiled ↦ record { bin_cmd = output; bin_path = output; interpreted = false }
  | lang_vm ↦ record {
    bin_cmd = h.format lang.cmd_vm (output ∷ []);
    bin_path = output;
    interpreted = true;
  }
  | lang_interpreted ↦ record {
    bin_cmd = h.format lang.cmd_interpr (output ∷ []);
    bin_path = output;
    interpreted = true;
  }
]

-- The compiling layer.
unfoldable pub compile : Host → Lang → Bytes → Bytes → Processed
unfolding fill
compile h lang name source =
    let text = with_extension name lang.ext_compile in
    let output = output_name lang name in
    let command = h.format lang.cmd_compile (text ∷ output ∷ []) in
    if not (h.opens text)
    then record { code = negsuc 1; info = allocated; effects = [] }
    else if not (is_positive (h.fputs source))
    then record { code = negsuc 4; info = allocated; effects = creates text ∷ [] }
    else if not (h.generates command output)
    then record {
      code = negsuc 2;
      info = allocated;
      effects = writes text source ∷ unlinks output ∷ system command ∷ [];
    }
    else record {
      code = pos 0;
      info = filled (fill h lang output);
      effects = writes text source ∷ unlinks output ∷ system command ∷ unlinks text ∷ [];
    }

unfoldable pub process_lang : Host → Lang → Bytes → Bytes → Processed
unfolding compile
process_lang h lang name source = elim lang.type [
  | lang_interpreted ↦ record {
    code = pos 0;
    info = filled (fill h lang (output_name lang name));
    effects = [];
  }
  | _ ↦ compile h lang name source
]

unfoldable pub lang_process : Host → List Lang → Bytes → Bytes → Bytes → ℕ → Processed
unfolding process_lang
lang_process h langs workspace langid source worker_id =
    if not h.has_directory
    then record { code = negsuc 1; info = untouched; effects = [] }
    else elim (lang_get langid langs) [
      | none ↦ record { code = negsuc 0; info = untouched; effects = [] }
      | some lang ↦ process_lang h lang (submission_name workspace worker_id) source
    ]
