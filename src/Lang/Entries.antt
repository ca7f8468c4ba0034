-- ===== src/Lang/Entries.antt =====
-- The entries of the configuration file that make a language.
use kudos_judge.Config.{KeyVal}
use kudos_judge.Base.{
  store, ℕ, ◌<◌, ◌≡◌, ◌≢◌, refl, [], ◌∷◌, ◌++◌, Bytes, All, arith, length, ok, ◌>>=◌,
}
use kudos_judge.Lang.{
  lang_compiled, lang_interpreted, lang_vm, Lang, cut, part, compiler, interpreter, virtual_machine,
  lang_init, load,
}

-- No comma in a text, and room for it.
abbrev pub Fits : ℕ → Bytes → Type 0
Fits size s = All (λ c. c ≢ b',') s × (length s < size)

cut-comma : (s rest : Bytes) → All (λ c. c ≢ b',') s → cut (s ++ (b',' ∷ rest)) ≡ ok (s, rest)
unfolding cut
cut-comma [] rest h = refl
cut-comma (c ∷ s) rest h = ground (arith, cut-comma s rest h.1, h.0)

store-Fits : (size : ℕ) (s : Bytes) → length s < size → store size s ≡ ok s
unfolding store
store-Fits size s h = ground (arith, h)

part-comma :
    (size : ℕ) (s rest : Bytes) → Fits size s → part size (s ++ (b',' ∷ rest)) ≡ ok (s, rest)
unfolding part
part-comma size s rest (clean, short) =
    simp (cut-comma s rest clean, ◌>>=◌, store-Fits size s short)

-- The texts of a language that the configuration can hold.
pub record IsEntry (lang : Lang) : Type 0 where
  pub id : length lang.id < 20
  pub version : Fits 30 lang.version
  pub label : Fits 80 lang.label
  pub cmd_compile : Fits 100 lang.cmd_compile
  pub ext_compile : Fits 20 lang.ext_compile
  pub cmd_interpr : Fits 100 lang.cmd_interpr
  pub ext_interpr : length lang.ext_interpr < 20
  pub cmd_vm : Fits 100 lang.cmd_vm
  pub ext_vm : length lang.ext_vm < 20

-- An entry of the section of virtual machines.
abbrev pub vm_entry : Lang → KeyVal
vm_entry lang = record {
  key = lang.id;
  value =
      lang.version
      ++ (b','
          ∷ (lang.label
              ++ (b','
                  ∷ (lang.cmd_compile
                      ++ (b','
                          ∷ (lang.ext_compile
                              ++ (b',' ∷ (lang.cmd_vm ++ (b',' ∷ lang.ext_vm)))))))));
}

-- The language that each section makes of these texts.
abbrev pub as_compiled : Lang → Lang
as_compiled lang = record lang {
  type = lang_compiled;
  cmd_interpr = [];
  cmd_vm = [];
  ext_interpr = [];
  ext_vm = [];
}

abbrev pub as_interpreted : Lang → Lang
as_interpreted lang = record lang {
  type = lang_interpreted;
  cmd_compile = [];
  cmd_vm = [];
  ext_compile = [];
  ext_vm = [];
}

abbrev pub as_vm : Lang → Lang
as_vm lang = record lang { type = lang_vm; cmd_interpr = []; ext_interpr = [] }

-- An entry of the two other sections.
abbrev pub entry : Lang → Bytes → Bytes → KeyVal
entry lang cmd ext = record {
  key = lang.id;
  value = lang.version ++ (b',' ∷ (lang.label ++ (b',' ∷ (cmd ++ (b',' ∷ ext)))));
}

compiler-entry :
    (lang : Lang)
    → IsEntry lang
    → compiler (entry lang lang.cmd_compile lang.ext_compile) ≡ ok (as_compiled lang)
unfolding compiler
compiler-entry lang v = simp (
  ◌>>=◌,
  store-Fits 20 lang.id v.id,
  part-comma 30 lang.version _ v.version,
  part-comma 80 lang.label _ v.label,
  part-comma 100 lang.cmd_compile _ v.cmd_compile,
  store-Fits 20 lang.ext_compile v.ext_compile.1,
)

interpreter-entry :
    (lang : Lang)
    → IsEntry lang
    → interpreter (entry lang lang.cmd_interpr lang.ext_interpr) ≡ ok (as_interpreted lang)
unfolding interpreter
interpreter-entry lang v = simp (
  ◌>>=◌,
  store-Fits 20 lang.id v.id,
  part-comma 30 lang.version _ v.version,
  part-comma 80 lang.label _ v.label,
  part-comma 100 lang.cmd_interpr _ v.cmd_interpr,
  store-Fits 20 lang.ext_interpr v.ext_interpr,
)

virtual_machine-vm_entry :
    (lang : Lang) → IsEntry lang → virtual_machine (vm_entry lang) ≡ ok (as_vm lang)
unfolding virtual_machine
virtual_machine-vm_entry lang v = simp (
  ◌>>=◌,
  store-Fits 20 lang.id v.id,
  part-comma 30 lang.version _ v.version,
  part-comma 80 lang.label _ v.label,
  part-comma 100 lang.cmd_compile _ v.cmd_compile,
  part-comma 20 lang.ext_compile _ v.ext_compile,
  part-comma 100 lang.cmd_vm _ v.cmd_vm,
  store-Fits 20 lang.ext_vm v.ext_vm,
)

-- Where the texts of a language fit their arrays and those before a comma hold none, an entry of
-- each section makes the language of that section, with its other fields empty.
pub lang_init-entries :
    (lang : Lang)
    → IsEntry lang
    → lang_init
        (entry lang lang.cmd_compile lang.ext_compile ∷ [])
        (entry lang lang.cmd_interpr lang.ext_interpr ∷ [])
        (vm_entry lang ∷ [])
      ≡ ok (as_compiled lang ∷ as_interpreted lang ∷ as_vm lang ∷ [])
unfolding lang_init load
lang_init-entries lang v =
    simp (◌>>=◌, compiler-entry lang v, interpreter-entry lang v, virtual_machine-vm_entry lang v)
