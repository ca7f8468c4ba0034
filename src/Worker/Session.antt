-- ===== src/Worker/Session.antt =====
-- The order in which a worker acts on a connection, as a type of the lists of its actions.
use kudos_judge.Base.{
  ◌≡◌, ◌⊎◌, inl, inr, subst, sym, Option, none, some, List, [], ◌∷◌, ◌++◌, Bytes, ℤ, Result, ok,
  error, fault, if◌then◌else◌, Bool, true, false, is_ℕ, arith,
}
use kudos_judge.Feed.{Made}
use kudos_judge.Interface.Decode.{decode}
use kudos_judge.Interface.Request.{Request}
use kudos_judge.Lang.Process.{Info, untouched, allocated, filled}
use kudos_judge.Verdict.{Verdict, codes}
use kudos_judge.Worker.{
  Action, creates_file, sends, closes_socket, removes_binary, removes_file, crashes, Submission,
  Services, Files, files_of_feed, created, free_request, refuse, conclude, submit, then_do,
  judge_source, serve_request, serve_decoded, serve, feed_file,
}

-- Files are made, then removed, then a verdict is sent, then the connection is closed.
pub data Stage : Type 0 where
  making cleaning answered closed : Stage

-- What a worker may still do from a stage on. A crash ends it; a connection may stay open behind its
-- verdict; a request that is not a submission, or that the runner does not return from, gets none.
pub data Session : Stage → List Action → Type 0 where
  unanswered : Session making []
  creates :
      {name : Bytes} {rest : List Action}
      → Session making rest
      → Session making (creates_file name ∷ rest)
  cleans :
      {path : Bytes} {rest : List Action}
      → Session cleaning rest
      → Session making (removes_binary path ∷ rest)
  removes :
      {name : Option Bytes} {rest : List Action}
      → Session cleaning rest
      → Session cleaning (removes_file name ∷ rest)
  answers :
      {v : Verdict} {rest : List Action} → Session answered rest → Session cleaning (sends v ∷ rest)
  refuses :
      {v : Verdict} {rest : List Action} → Session answered rest → Session making (sends v ∷ rest)
  stays_open : Session answered []
  closes : {rest : List Action} → Session closed rest → Session answered (closes_socket ∷ rest)
  done : Session closed []
  crashed : {stage : Stage} → Session stage (crashes ∷ [])

conclude-Session :
    (s : Services) (files : Files) (submission : Submission)
    → Session making (conclude s files submission)
unfolding conclude
conclude-Session s files submission = by_verdict (s.judge files submission)
  where
    by_verdict :
        (o : Option Verdict)
        → Session making (elim o [
          | none ↦ []
          | some verdict ↦
              removes_binary submission.bin_path
              ∷ removes_file submission.input_filename
              ∷ removes_file submission.output_filename
              ∷ sends verdict
              ∷ closes_socket
              ∷ []
        ])
    by_verdict none = unanswered
    by_verdict (some verdict) = cleans (removes (removes (answers (closes done))))

submit-Session :
    (s : Services) (files : Files) (source : Bytes) (info : Info) (input output : Option Made)
    → Session making (submit s files source info input output)
unfolding submit
submit-Session s files source (filled info) (some input) (some output) = conclude-Session s files _
submit-Session s files source _ _ _ = crashed

created-Session :
    (o : Option Made) (rest : List Action)
    → Session making rest
    → Session making (created o ++ rest)
unfolding created
created-Session none rest h = h
created-Session (some made) rest h = by_file made.file
  where
    by_file :
        (file : Option (Bytes × Bytes))
        → Session making
            ((elim file [ none ↦ [] | some (name, _) ↦ creates_file name ∷ [] ]) ++ rest)
    by_file none = h
    by_file (some (name, _)) = creates h

free_request-cases : (r : Request) → (free_request r ≡ []) ⊎ (free_request r ≡ crashes ∷ [])
unfolding free_request
free_request-cases r = ground arith

freed : (r : Request) → Session closed (free_request r)
freed r = elim (free_request-cases r) [
  | inl none_left ↦ subst (Session closed) (sym none_left) done
  | inr bad ↦ subst (Session closed) (sym bad) crashed
]

refuse-Session : (code : ℤ) (info : Info) (r : Request) → Session making (refuse code info r)
unfolding refuse
refuse-Session code untouched r = refuses (closes crashed)
refuse-Session code allocated r = refuses (closes (freed r))
refuse-Session code (filled _) r = refuses (closes (freed r))

then_do-Session :
    (r : Request) (rest : List Action)
    → Session making rest
    → Session making (then_do (free_request r) rest)
unfolding then_do
then_do-Session r rest h = elim (free_request-cases r) [
  | inl freed ↦ subst (λ xs. Session making (then_do xs rest)) (sym freed) h
  | inr bad ↦ subst (λ xs. Session making (then_do xs rest)) (sym bad) crashed
]

if-Session :
    (b : Bool) (xs ys : List Action)
    → Session making xs
    → Session making ys
    → Session making (if b then xs else ys)
if-Session true xs ys h k = h
if-Session false xs ys h k = k

judge_source-Session :
    (s : Services) (r : Request) (source : Bytes) → Session making (judge_source s r source)
unfolding judge_source
judge_source-Session s r source =
    let input = feed_file s r.in_type r.input (codes "input") in
    let output = feed_file s r.out_type r.output (codes "output") in
    let files = files_of_feed output ++ files_of_feed input in
    let processed = s.lang_result source in
    let goes_on =
      then_do-Session r (submit s files source processed.info input output)
        (submit-Session s files source processed.info input output) in
    let verdict =
      if-Session (is_ℕ processed.code 0)
        (then_do (free_request r) (submit s files source processed.info input output))
        (refuse processed.code processed.info r) goes_on
        (refuse-Session processed.code processed.info r) in
    created-Session input _ (created-Session output _ verdict)

serve_request-Session : (s : Services) (r : Request) → Session making (serve_request s r)
unfolding serve_request
serve_request-Session s r = if-Session (is_ℕ r.type 0) _ [] (by_source r.sourcecode) unanswered
  where
    by_source :
        (code : Option Bytes)
        → Session making (elim code [ none ↦ crashes ∷ [] | some source ↦ judge_source s r source ])
    by_source none = crashed
    by_source (some source) = judge_source-Session s r source

serve_decoded-Session : (s : Services) (r : Result Request) → Session making (serve_decoded s r)
unfolding serve_decoded
serve_decoded-Session s fault = crashed
serve_decoded-Session s (error code) = refuses stays_open
serve_decoded-Session s (ok r) = serve_request-Session s r

-- Whatever is received and whatever the other parts answer, the actions of a worker for a
-- connection are of the type of the ordered ones: files are made before any is removed, the binary
-- is removed before the files, at most one verdict is sent and nothing is made, removed or sent
-- behind it, the socket is closed only behind a verdict, and a crash is the last action.
pub serve-Session : (s : Services) (received : Option Bytes) → Session making (serve s received)
unfolding serve
serve-Session s none = refuses stays_open
serve-Session s (some string) = serve_decoded-Session s (decode string)
