-- ===== src/Lang/Process/Codes.antt =====
-- The return codes of `lang_process`: when it succeeds, and when the compiler has failed.
use kudos_judge.Base.{
  ℕ, ◌≡◌, ◌↔◌, refl, sym, ap, subst, ◌∙◌, true, false, none, List, Bytes, arith, pos, negsuc,
  Option-cases, Bool-cases, inl, inr,
}
use kudos_judge.Lang.Process.Outcomes.{
  Treated, compiled, for_machine, left, Known, Binary, executable, bytecode, script, Uncompiled,
  no_executable, no_bytecode, process_lang-Treated, Ended-success, Ended-failure,
}
use kudos_judge.Lang.Process.{Host, filled, Processed, submission_name, process_lang, lang_process}
use kudos_judge.Lang.{BinaryInformation, Lang, lang_get}

Treated-success :
    {h : Host} {lang : Lang} {name source : Bytes} {p : Processed} {b : BinaryInformation}
    → Treated h lang name source p
    → ((p.code ≡ pos 0) × (p.info ≡ filled b)) ↔ Binary h lang name source b
Treated-success (compiled type e) = (
  (λ ok. let (there, same) = (Ended-success e).0 ok in executable type there same),
  (λ binary. elim binary [
    | executable _ there same ↦ (Ended-success e).1 (there, same)
    | bytecode other _ _ ↦ absurd (ground (arith, type, other))
    | script other _ ↦ absurd (ground (arith, type, other))
  ]),
)
Treated-success (for_machine type e) = (
  (λ ok. let (there, same) = (Ended-success e).0 ok in bytecode type there same),
  (λ binary. elim binary [
    | executable other _ _ ↦ absurd (ground (arith, type, other))
    | bytecode _ there same ↦ (Ended-success e).1 (there, same)
    | script other _ ↦ absurd (ground (arith, type, other))
  ]),
)
Treated-success (left type code info) = (
  (λ (_, info'). script type (ground (arith, info, info'))),
  (λ binary. elim binary [
    | executable other _ _ ↦ absurd (ground (arith, type, other))
    | bytecode other _ _ ↦ absurd (ground (arith, type, other))
    | script _ same ↦ (code, info ∙ ap filled (sym same))
  ]),
)

Treated-failure :
    {h : Host} {lang : Lang} {name source : Bytes} {p : Processed}
    → Treated h lang name source p
    → (p.code ≡ negsuc 2) ↔ Uncompiled h lang name source
Treated-failure (compiled type e) = (
  (λ three. no_executable type ((Ended-failure e).0 three)),
  (λ failed. elim failed [
    | no_executable _ missing ↦ (Ended-failure e).1 missing
    | no_bytecode other _ ↦ absurd (ground (arith, type, other))
  ]),
)
Treated-failure (for_machine type e) = (
  (λ three. no_bytecode type ((Ended-failure e).0 three)),
  (λ failed. elim failed [
    | no_executable other _ ↦ absurd (ground (arith, type, other))
    | no_bytecode _ missing ↦ (Ended-failure e).1 missing
  ]),
)
Treated-failure (left type code info) = (
  (λ three. absurd (ground (arith, code, three))),
  (λ failed. elim failed [
    | no_executable other _ ↦ absurd (ground (arith, type, other))
    | no_bytecode other _ ↦ absurd (ground (arith, type, other))
  ]),
)

module _ (h : Host) (langs : List Lang) (workspace langid source : Bytes) (worker_id : ℕ) where
  abbrev name : Bytes
  name = submission_name workspace worker_id

  abbrev processed : Processed
  processed = lang_process h langs workspace langid source worker_id

  unready_code : h.has_directory ≡ false → processed.code ≡ negsuc 1
  unfolding lang_process
  unready_code missing = ground (arith, missing)

  unknown_code : h.has_directory ≡ true → lang_get langid langs ≡ none → processed.code ≡ negsuc 0
  unfolding lang_process
  unknown_code made absent = ground (arith, made, absent)

  treated : (lang : Lang) → Known h langs langid lang → Treated h lang name source processed
  unfolding lang_process
  treated lang (made, found) =
      let same : processed ≡ process_lang h lang name source = ground (arith, made, found) in
      subst (Treated h lang name source) (sym same)
        (process_lang-Treated h lang name source lang.type refl)

  -- lang_process returns 0 and leaves these names exactly when the language is known, the worker
  -- has its directory, and either it is an interpreted language and the names are its script; or
  -- the source code was written to its file and the output file is there behind the compiler,
  -- which was called with these two files, and the names are those of the output file, as it is
  -- for a compiled language and in the command of a virtual machine.
  pub lang_process-Binary :
      (b : BinaryInformation)
      → ((processed.code ≡ pos 0) × (processed.info ≡ filled b))
        ↔ ((lang : Lang) × Known h langs langid lang × Binary h lang name source b)
  lang_process-Binary b = elim (Bool-cases h.has_directory) [
    | inr missing ↦ (
      (λ (c, _). absurd (ground (arith, unready_code missing, c))),
      (λ (lang, k, _). absurd (ground (arith, missing, k.0))),
    )
    | inl made ↦ elim (Option-cases (lang_get langid langs)) [
      | inl absent ↦ (
        (λ (c, _). absurd (ground (arith, unknown_code made absent, c))),
        (λ (lang, k, _). absurd (ground (arith, absent, k.1))),
      )
      | inr (lang, found) ↦ (
        (λ ok. (lang, (made, found), (Treated-success (treated lang (made, found))).0 ok)),
        (λ (lang', k, binary). (Treated-success (treated lang' k)).1 binary),
      )
    ]
  ]

  -- lang_process returns -3 exactly when the language is known and none of the interpreters, the
  -- worker has its directory, the source code was written to its file, and no output file is there
  -- behind the compiler.
  pub lang_process-Uncompiled :
      (processed.code ≡ negsuc 2)
      ↔ ((lang : Lang) × Known h langs langid lang × Uncompiled h lang name source)
  lang_process-Uncompiled = elim (Bool-cases h.has_directory) [
    | inr missing ↦ (
      (λ c. absurd (ground (arith, unready_code missing, c))),
      (λ (lang, k, _). absurd (ground (arith, missing, k.0))),
    )
    | inl made ↦ elim (Option-cases (lang_get langid langs)) [
      | inl absent ↦ (
        (λ c. absurd (ground (arith, unknown_code made absent, c))),
        (λ (lang, k, _). absurd (ground (arith, absent, k.1))),
      )
      | inr (lang, found) ↦ (
        (λ three. (lang, (made, found), (Treated-failure (treated lang (made, found))).0 three)),
        (λ (lang', k, failed). (Treated-failure (treated lang' k)).1 failed),
      )
    ]
  ]
