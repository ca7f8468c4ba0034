-- ===== src/Lang/Process/Outcomes.antt =====
-- What `lang_process` leaves behind.
use kudos_judge.Base.{
  subst, ◌≡◌, ◌↔◌, sym, ap, ◌∙◌, Bool, true, false, some, List, [], ◌∷◌, Bytes, arith, pos, negsuc,
  Bool-cases, inl, inr,
}
use kudos_judge.Lang.Process.{
  Host, filled, Processed, is_positive, with_extension, output_name, fill, compile, process_lang,
}
use kudos_judge.Lang.{
  BinaryInformation, Lang, LangType, lang_compiled, lang_interpreted, lang_vm, lang_get,
}

-- The source code is written to its file, and the compiler then leaves this output file or not.
abbrev pub Compiles : Host → Lang → Bytes → Bytes → Bytes → Bool → Type 0
Compiles h lang name source output there =
    (h.opens (with_extension name lang.ext_compile) ≡ true)
    × (is_positive (h.fputs source) ≡ true)
    × (h.generates (h.format lang.cmd_compile (with_extension name lang.ext_compile ∷ output ∷ []))
          output
        ≡ there)

-- The ways for the compiling layer to end.
pub data Ended (h : Host) (lang : Lang) (name source output : Bytes) (b : BinaryInformation)
    (p : Processed) : Type 0 where
  unopened :
      h.opens (with_extension name lang.ext_compile) ≡ false
      → p.code ≡ negsuc 1
      → Ended h lang name source output b p
  unwritten :
      is_positive (h.fputs source) ≡ false → p.code ≡ negsuc 4 → Ended h lang name source output b p
  ungenerated :
      Compiles h lang name source output false
      → p.code ≡ negsuc 2
      → Ended h lang name source output b p
  generated :
      Compiles h lang name source output true
      → p.code ≡ pos 0
      → p.info ≡ filled b
      → Ended h lang name source output b p

compile-Ended :
    (h : Host) (lang : Lang) (name source : Bytes)
    → Ended h lang name source
        (output_name lang name)
        (fill h lang (output_name lang name))
        (compile h lang name source)
unfolding compile
compile-Ended h lang name source =
    let text = with_extension name lang.ext_compile in
    let output = output_name lang name in
    let command = h.format lang.cmd_compile (text ∷ output ∷ []) in
    elim (Bool-cases (h.opens text)) [
      | inr shut ↦ unopened shut (ground (arith, shut))
      | inl opened ↦ elim (Bool-cases (is_positive (h.fputs source))) [
        | inr empty ↦ unwritten empty (ground (arith, opened, empty))
        | inl put ↦ elim (Bool-cases (h.generates command output)) [
          | inr missing ↦ ungenerated (opened, put, missing) (ground (arith, opened, put, missing))
          | inl there ↦
              generated (opened, put, there) (ground (arith, opened, put, there))
                (ground (arith, opened, put, there))
        ]
      ]
    ]

-- What is run of a submission, for a type of languages.
abbrev pub native : Bytes → BinaryInformation
native output = record { bin_cmd = output; bin_path = output; interpreted = false }

abbrev pub by_command : Host → Bytes → Bytes → BinaryInformation
by_command h format output = record {
  bin_cmd = h.format format (output ∷ []);
  bin_path = output;
  interpreted = true;
}

-- The ways for a language to be processed.
pub data Treated (h : Host) (lang : Lang) (name source : Bytes) (p : Processed) : Type 0 where
  compiled :
      lang.type ≡ lang_compiled
      → Ended h lang name source name (native name) p
      → Treated h lang name source p
  for_machine :
      lang.type ≡ lang_vm
      → Ended h lang name source
          (with_extension name lang.ext_vm)
          (by_command h lang.cmd_vm (with_extension name lang.ext_vm))
          p
      → Treated h lang name source p
  left :
      lang.type ≡ lang_interpreted
      → p.code ≡ pos 0
      → p.info ≡ filled (by_command h lang.cmd_interpr (with_extension name lang.ext_interpr))
      → Treated h lang name source p

Ended-as :
    (h : Host) (lang : Lang) (name source : Bytes) {o o' : Bytes} {b b' : BinaryInformation}
    {p p' : Processed}
    → o ≡ o'
    → b ≡ b'
    → p ≡ p'
    → Ended h lang name source o b p
    → Ended h lang name source o' b' p'
Ended-as h lang name source {o} {o'} {b} {b'} {p} {p'} same_o same_b same_p e =
    subst (λ p. Ended h lang name source o' b' p) same_p
      (subst (λ b. Ended h lang name source o' b p) same_b
        (subst (λ o. Ended h lang name source o b p) same_o e))

pub process_lang-Treated :
    (h : Host) (lang : Lang) (name source : Bytes) (type : LangType)
    → lang.type ≡ type
    → Treated h lang name source (process_lang h lang name source)
unfolding process_lang fill
process_lang-Treated h lang name source lang_compiled e = compiled e (
    Ended-as h lang name source (ground (arith, e)) (ground (arith, e)) (ground (arith, e))
      (compile-Ended h lang name source))
process_lang-Treated h lang name source lang_vm e = for_machine e (
    Ended-as h lang name source (ground (arith, e)) (ground (arith, e)) (ground (arith, e))
      (compile-Ended h lang name source))
process_lang-Treated h lang name source lang_interpreted e =
    left e (ground (arith, e)) (ground (arith, e))

-- The language is known and the worker has its directory.
abbrev pub Known : Host → List Lang → Bytes → Lang → Type 0
Known h langs langid lang = (h.has_directory ≡ true) × (lang_get langid langs ≡ some lang)

-- A binary for this source code: of a compiled language, of a virtual machine or of an interpreter.
pub data Binary (h : Host) (lang : Lang) (name source : Bytes) (b : BinaryInformation)
    : Type 0 where
  executable :
      lang.type ≡ lang_compiled
      → Compiles h lang name source name true
      → b ≡ native name
      → Binary h lang name source b
  bytecode :
      lang.type ≡ lang_vm
      → Compiles h lang name source (with_extension name lang.ext_vm) true
      → b ≡ by_command h lang.cmd_vm (with_extension name lang.ext_vm)
      → Binary h lang name source b
  script :
      lang.type ≡ lang_interpreted
      → b ≡ by_command h lang.cmd_interpr (with_extension name lang.ext_interpr)
      → Binary h lang name source b

-- The compiler has left no output file for this source code.
pub data Uncompiled (h : Host) (lang : Lang) (name source : Bytes) : Type 0 where
  no_executable :
      lang.type ≡ lang_compiled
      → Compiles h lang name source name false
      → Uncompiled h lang name source
  no_bytecode :
      lang.type ≡ lang_vm
      → Compiles h lang name source (with_extension name lang.ext_vm) false
      → Uncompiled h lang name source

-- What an end of the compiling layer says of the code and of `binInfo`.
pub Ended-success :
    {h : Host} {lang : Lang} {name source output : Bytes} {b c : BinaryInformation} {p : Processed}
    → Ended h lang name source output b p
    → ((p.code ≡ pos 0) × (p.info ≡ filled c)) ↔ (Compiles h lang name source output true × (c ≡ b))
Ended-success (unopened shut code) = (
  (λ (zero, _). absurd (ground (arith, code, zero))),
  (λ ((opened, _, _), _). absurd (ground (arith, shut, opened))),
)
Ended-success (unwritten empty code) = (
  (λ (zero, _). absurd (ground (arith, code, zero))),
  (λ ((_, put, _), _). absurd (ground (arith, empty, put))),
)
Ended-success (ungenerated (_, _, missing) code) = (
  (λ (zero, _). absurd (ground (arith, code, zero))),
  (λ ((_, _, there), _). absurd (ground (arith, missing, there))),
)
Ended-success (generated there code info) = (
  (λ (_, info'). (there, ground (arith, info, info'))),
  (λ (_, same). (code, info ∙ ap filled (sym same))),
)

pub Ended-failure :
    {h : Host} {lang : Lang} {name source output : Bytes} {b : BinaryInformation} {p : Processed}
    → Ended h lang name source output b p
    → (p.code ≡ negsuc 2) ↔ Compiles h lang name source output false
Ended-failure (unopened shut code) = (
  (λ three. absurd (ground (arith, code, three))),
  (λ (opened, _, _). absurd (ground (arith, shut, opened))),
)
Ended-failure (unwritten empty code) = (
  (λ three. absurd (ground (arith, code, three))),
  (λ (_, put, _). absurd (ground (arith, empty, put))),
)
Ended-failure (ungenerated missing code) = ((λ _. missing), (λ _. code))
Ended-failure (generated (_, _, there) code info) = (
  (λ three. absurd (ground (arith, code, three))),
  (λ (_, _, missing). absurd (ground (arith, missing, there))),
)
