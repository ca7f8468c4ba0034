-- ===== src/Lang.antt =====
-- lang.c: the languages of the configuration file (`lang_init`) and the lookup by id (`lang_get`). The
-- sections are the lists that config.c makes of the file.
pub mod Process
mod Entries
mod Tests
use kudos_judge.Config.{KeyVal}
use kudos_judge.Base.{
  same_text, store, ℕ, suc, Bool, true, false, ◌&&◌, Option, none, some, List, [], ◌∷◌, ◌++◌, Bytes,
  ltb, leb, ◌==◌, if◌then◌else◌, length, Result, ok, fault, ◌>>=◌,
}

-- `lang_type`
pub data LangType : Type 0 where
  lang_compiled lang_interpreted lang_vm : LangType

-- `Lang`; a field that is not set is the empty string.
pub record Lang : Type 0 where
  pub type : LangType
  pub id : Bytes
  pub version : Bytes
  pub label : Bytes
  pub cmd_compile : Bytes
  pub cmd_interpr : Bytes
  pub cmd_vm : Bytes
  pub ext_compile : Bytes
  pub ext_interpr : Bytes
  pub ext_vm : Bytes

-- `BinaryInformation` of lang.h
pub record BinaryInformation : Type 0 where
  pub bin_cmd : Bytes
  pub bin_path : Bytes
  pub interpreted : Bool

-- `strchr(p,',')`: the text before the comma and behind it. Without a comma NULL is computed with.
unfoldable pub cut : Bytes → Result (Bytes × Bytes)
cut [] = fault
cut (c ∷ s) =
    let more = cut s in
    if c == b',' then ok ([], s) else (do (text, behind) ← more; ok (c ∷ text, behind))

-- A part of a value up to the next comma.
unfoldable pub part : ℕ → Bytes → Result (Bytes × Bytes)
unfolding cut store
part size s = do (text, behind) ← cut s; text' ← store size text; ok (text', behind)

unfoldable pub compiler : KeyVal → Result Lang
unfolding part
compiler entry = do
  id ← store 20 entry.key
  (version, s) ← part 30 entry.value
  (label, s) ← part 80 s
  (cmd, s) ← part 100 s
  ext ← store 20 s
  ok (record {
    type = lang_compiled;
    id = id;
    version = version;
    label = label;
    cmd_compile = cmd;
    cmd_interpr = [];
    cmd_vm = [];
    ext_compile = ext;
    ext_interpr = [];
    ext_vm = [];
  })

unfoldable pub interpreter : KeyVal → Result Lang
unfolding part
interpreter entry = do
  id ← store 20 entry.key
  (version, s) ← part 30 entry.value
  (label, s) ← part 80 s
  (cmd, s) ← part 100 s
  ext ← store 20 s
  ok (record {
    type = lang_interpreted;
    id = id;
    version = version;
    label = label;
    cmd_compile = [];
    cmd_interpr = cmd;
    cmd_vm = [];
    ext_compile = [];
    ext_interpr = ext;
    ext_vm = [];
  })

unfoldable pub virtual_machine : KeyVal → Result Lang
unfolding part
virtual_machine entry = do
  id ← store 20 entry.key
  (version, s) ← part 30 entry.value
  (label, s) ← part 80 s
  (cmd, s) ← part 100 s
  (ext, s) ← part 20 s
  (cmd_vm, s) ← part 100 s
  ext_vm ← store 20 s
  ok (record {
    type = lang_vm;
    id = id;
    version = version;
    label = label;
    cmd_compile = cmd;
    cmd_interpr = [];
    cmd_vm = cmd_vm;
    ext_compile = ext;
    ext_interpr = [];
    ext_vm = ext_vm;
  })

-- The size of `g_languages`
abbrev pub languages_max : ℕ
languages_max = 19

-- A section's languages behind those that are there.
unfoldable pub load : (KeyVal → Result Lang) → List KeyVal → List Lang → Result (List Lang)
load read [] langs = ok langs
load read (entry ∷ entries) langs = do
  lang ← read entry
  langs' ← if ltb (length langs) languages_max then ok (langs ++ (lang ∷ [])) else fault
  load read entries langs'

-- The sections in `lang_init`
unfoldable pub lang_init : List KeyVal → List KeyVal → List KeyVal → Result (List Lang)
unfolding load compiler interpreter virtual_machine
lang_init compilers interpreters vms = do
  langs ← load compiler compilers []
  langs ← load interpreter interpreters langs
  load virtual_machine vms langs

unfoldable pub lang_get : Bytes → List Lang → Option Lang
unfolding same_text
lang_get langid [] = none
lang_get langid (lang ∷ langs) =
    let more = lang_get langid langs in if same_text lang.id langid then some lang else more
