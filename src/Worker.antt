-- ===== src/Worker.antt =====
-- `queue_worker_serv` of queue.c: what a worker does for one connection, as the list of its actions
-- that others can see. The components that it calls are an interface.
pub mod Verdicts
mod Session
mod Tests
use kudos_judge.Base.{
  ℕ, suc, Bool, Option, none, some, List, [], ◌∷◌, ◌++◌, Bytes, if◌then◌else◌, ◌==◌, ℤ, pos, negsuc,
  is_ℕ, Result, ok, error, fault,
}
use kudos_judge.Feed.{Made}
use kudos_judge.Interface.Decode.{decode}
use kudos_judge.Interface.Request.{Request}
use kudos_judge.Lang.Process.{Info, untouched, allocated, filled, Processed}
use kudos_judge.Verdict.{Verdict, accepted, compile_error, internal, codes}

-- The fields of `jug_submission` that the worker sets. A file name that is `none` is NULL.
pub record Submission : Type 0 where
  pub source : Bytes
  pub input_filename : Option Bytes
  pub output_filename : Option Bytes
  pub interpreted : Bool
  pub bin_cmd : Bytes
  pub bin_path : Bytes

-- Files by their names, the latest first.
abbrev pub Files : Type 0
Files = List (Bytes × Bytes)

-- The other components, as this worker sees them during this connection.
pub record Services : Type 0 where
  -- `jug_feed_new_file(content, worker_id, tag)`
  pub new_file : Bytes → Bytes → Made
  -- `lang_process("c", source, worker_id, &binInfo)`
  pub lang_result : Bytes → Processed
  -- `jug_runner_judge` where these files were made; `none` where it does not return
  pub judge : Files → Submission → Option Verdict

pub data Action : Type 0 where
  creates_file : Bytes → Action
  sends : Verdict → Action
  closes_socket : Action
  removes_binary : Bytes → Action
  removes_file : Option Bytes → Action
  -- a pointer that was never set is freed or read
  crashes : Action

-- The file made of a feed's data; by reference no file is made and the pointer of `submission` is
-- never set.
feed_file : Services → ℤ → Option Bytes → Bytes → Option Made
feed_file s feedtype (some text) tag = if is_ℕ feedtype 0 then some (s.new_file text tag) else none
feed_file s feedtype none tag = none

-- What is in the file system behind a call, with a name or without one.
abbrev pub file_of : Made → Files
file_of made = elim made.file [ none ↦ [] | some file ↦ file ∷ [] ]

files_of_feed : Option Made → Files
files_of_feed none = []
files_of_feed (some made) = file_of made

created : Option Made → List Action
created none = []
created (some made) = elim made.file [ none ↦ [] | some (name, _) ↦ creates_file name ∷ [] ]

-- `free` of the fields of `request`
free_request : Request → List Action
free_request r = free_pointer r.sourcecode (free_pointer r.input (free_pointer r.output []))
  where
    free_pointer : Option Bytes → List Action → List Action
    free_pointer none rest = crashes ∷ []
    free_pointer (some _) rest = rest

pub error_verdict : ℤ → Verdict
error_verdict (pos n) = internal
error_verdict (negsuc n) = if n == 2 then compile_error else internal

-- `lang_process` failed
refuse : ℤ → Info → Request → List Action
unfolding error_verdict free_request
refuse code untouched r = sends (error_verdict code) ∷ closes_socket ∷ crashes ∷ []
refuse code _ r = sends (error_verdict code) ∷ closes_socket ∷ free_request r

-- Behind `jug_int_free_request`: the sandbox, the removal of the files, the verdict.
conclude : Services → Files → Submission → List Action
conclude s files submission = elim (s.judge files submission) [
  | none ↦ []
  | some verdict ↦
      removes_binary submission.bin_path
      ∷ removes_file submission.input_filename
      ∷ removes_file submission.output_filename
      ∷ sends verdict
      ∷ closes_socket
      ∷ []
]

submit : Services → Files → Bytes → Info → Option Made → Option Made → List Action
unfolding conclude
submit s files source (filled info) (some input) (some output) = conclude s files (record {
  source = source;
  input_filename = input.filename;
  output_filename = output.filename;
  interpreted = info.interpreted;
  bin_cmd = info.bin_cmd;
  bin_path = info.bin_path;
})
submit s files source _ _ _ = crashes ∷ []

-- A list of actions that ends in a crash goes no further.
then_do : List Action → List Action → List Action
then_do [] rest = rest
then_do (crashes ∷ _) rest = crashes ∷ []
then_do (a ∷ actions) rest = a ∷ then_do actions rest

judge_source : Services → Request → Bytes → List Action
unfolding feed_file files_of_feed created free_request refuse submit then_do
judge_source s r source =
    let input = feed_file s r.in_type r.input (codes "input") in
    let output = feed_file s r.out_type r.output (codes "output") in
    let files = files_of_feed output ++ files_of_feed input in
    let processed = s.lang_result source in
    created input
    ++ (created output
        ++ (if is_ℕ processed.code 0
            then then_do (free_request r) (submit s files source processed.info input output)
            else refuse processed.code processed.info r))

-- A request that was decoded.
serve_request : Services → Request → List Action
unfolding judge_source
serve_request s r =
    if is_ℕ r.type 0
    then elim r.sourcecode [ none ↦ crashes ∷ [] | some source ↦ judge_source s r source ]
    else []

serve_decoded : Services → Result Request → List Action
unfolding serve_request
serve_decoded s fault = crashes ∷ []
serve_decoded s (error code) = sends accepted ∷ []
serve_decoded s (ok r) = serve_request s r

-- `queue_worker_serv` on what `jug_int_receive` returned: NULL, or a buffer with its string.
unfoldable pub serve : Services → Option Bytes → List Action
unfolding serve_decoded
serve s none = sends internal ∷ []
serve s (some string) = serve_decoded s (decode string)
