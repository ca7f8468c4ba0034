-- ===== src/Worker/Verdicts.antt =====
-- The verdicts that a worker sends, and the files that it leaves.
use kudos_judge.Base.{
  ◌≡◌, ◌≢◌, ◌↔◌, refl, Bool, true, false, Option, none, some, List, [], ◌∷◌, ◌++◌, Bytes, ℤ, negsuc,
  is_ℕ, ok, error, arith, Bool-cases, inl, inr,
}
use kudos_judge.Interface.Decode.RoundTrip.{judging}
use kudos_judge.Interface.Decode.{decode}
use kudos_judge.Feed.{Made}
use kudos_judge.Lang.Process.{Info, untouched, allocated, filled}
use kudos_judge.Lang.{BinaryInformation}
use kudos_judge.Verdict.{Verdict, accepted, compile_error, codes}
use kudos_judge.Worker.{
  Submission, Services, Action, Files, file_of, creates_file, sends, closes_socket, removes_file,
  error_verdict, serve_decoded, serve,
}

-- The verdicts sent, in order.
abbrev pub verdicts : List Action → List Verdict
verdicts [] = []
verdicts (sends v ∷ rest) = v ∷ verdicts rest
verdicts (_ ∷ rest) = verdicts rest

abbrev pub files_created : List Action → List Bytes
files_created [] = []
files_created (creates_file f ∷ rest) = f ∷ files_created rest
files_created (_ ∷ rest) = files_created rest

abbrev pub named : Option Bytes → List Bytes → List Bytes
named none rest = rest
named (some name) rest = name ∷ rest

abbrev pub files_removed : List Action → List Bytes
files_removed [] = []
files_removed (removes_file f ∷ rest) = named f (files_removed rest)
files_removed (_ ∷ rest) = files_removed rest

abbrev pub ends_closed : List Action → Bool
ends_closed [] = false
ends_closed (closes_socket ∷ []) = true
ends_closed (_ ∷ rest) = ends_closed rest

-- The submission that a compiled request becomes.
abbrev pub submission_of : Services → BinaryInformation → Bytes → Bytes → Bytes → Submission
submission_of s info source input output = record {
  source = source;
  input_filename = (s.new_file input (codes "input")).filename;
  output_filename = (s.new_file output (codes "output")).filename;
  interpreted = info.interpreted;
  bin_cmd = info.bin_cmd;
  bin_path = info.bin_path;
}

-- The files that the worker makes of a request.
abbrev pub files_of : Services → Bytes → Bytes → Files
files_of s input output =
    file_of (s.new_file output (codes "output")) ++ file_of (s.new_file input (codes "input"))

abbrev pub on_disk : Made → List Bytes → List Bytes
on_disk made rest = elim made.file [ none ↦ rest | some (name, _) ↦ name ∷ rest ]

-- A file was made exactly if its name is returned.
abbrev pub Named : Made → Type 0
Named made = made.filename ≡ elim made.file [ none ↦ none | some (name, _) ↦ some name ]

module _ (s : Services) (info : BinaryInformation) (source input output string : Bytes)
    (v : Verdict) where
  module _ (decoded : decode string ≡ ok (judging source input output))
      (zero : is_ℕ (s.lang_result source).code 0 ≡ true)
      (compiled : (s.lang_result source).info ≡ filled info)
      (judged : s.judge (files_of s input output) (submission_of s info source input output)
        ≡ some v) where
    -- A request with its input and output as data that compiles is answered with exactly one
    -- verdict, that of the runner on the submission made of it.
    pub serve_answered : verdicts (serve s (some string)) ≡ v ∷ []
    unfolding serve
    serve_answered = ground arith

    -- What is made for such a request, and what is removed again.
    pub serve_files :
        (files_created (serve s (some string))
          ≡ on_disk
              (s.new_file input (codes "input"))
              (on_disk (s.new_file output (codes "output")) []))
        × (files_removed (serve s (some string))
            ≡ named
                (s.new_file input (codes "input")).filename
                (named (s.new_file output (codes "output")).filename []))
    unfolding serve
    serve_files = ground arith

    -- A request with its input and output as data that compiles and that the runner comes to a
    -- verdict on, where each file that was made has its name returned, is answered with exactly
    -- one verdict, that of the runner on the submission and the files made of it; the files made
    -- for it are the files removed; and the last action is to close the socket.
    pub serve_judged :
        Named (s.new_file input (codes "input"))
        → Named (s.new_file output (codes "output"))
        → (verdicts (serve s (some string)) ≡ v ∷ [])
          × (files_created (serve s (some string)) ≡ files_removed (serve s (some string)))
          × (ends_closed (serve s (some string)) ≡ true)
    unfolding serve
    serve_judged input_named output_named = ground arith

module _ (s : Services) (source input output string : Bytes)
    (decoded : decode string ≡ ok (judging source input output))
    (never : (files : Files) (submission : Submission)
      → s.judge files submission ≢ some compile_error) where
  -- A request that decodes is answered COMPILE ERROR exactly when the code of lang_process is -3,
  -- where the runner never gives that verdict.
  pub serve_compile_error :
      (verdicts (serve s (some string)) ≡ compile_error ∷ [])
      ↔ ((s.lang_result source).code ≡ negsuc 2)
  unfolding serve error_verdict
  serve_compile_error = (by_code, (λ three. ground (arith, decoded, three)))
    where
      by_info :
          verdicts (serve s (some string)) ≡ compile_error ∷ []
          → is_ℕ (s.lang_result source).code 0 ≡ true
          → (info : Info) → (s.lang_result source).info ≡ info
          → ⊥
      by_info c zero untouched e = ground (arith, decoded, zero, c, e)
      by_info c zero allocated e = ground (arith, decoded, zero, c, e)
      by_info c zero (filled info) e =
          let judged = never (files_of s input output) (submission_of s info source input output) in
          ground (arith, decoded, zero, c, e, judged)

      by_code :
          verdicts (serve s (some string)) ≡ compile_error ∷ []
          → (s.lang_result source).code ≡ negsuc 2
      by_code c = elim (Bool-cases (is_ℕ (s.lang_result source).code 0)) [
        | inr failed ↦ ground (arith, decoded, failed, c)
        | inl zero ↦ absurd (by_info c zero (s.lang_result source).info refl)
      ]

-- A request that is refused by the decoder is answered with exactly one verdict, ACCEPTED; no file
-- is made; and the socket is not closed last.
pub serve_undecoded :
    (s : Services) (string : Bytes) (code : ℤ)
    → decode string ≡ error code
    → (verdicts (serve s (some string)) ≡ accepted ∷ [])
      × (files_created (serve s (some string)) ≡ [])
      × (ends_closed (serve s (some string)) ≡ false)
unfolding serve
serve_undecoded s string code e = rw (e, serve_decoded) (refl, refl, refl)
