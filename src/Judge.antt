-- ===== src/Judge.antt =====
-- One request on one machine: `queue_worker_serv` of queue.c over the models of feed.c, lang.c and
-- runner.c. What the system answers to each of them is a machine.
mod Ran
pub mod Accepted
pub mod Exchange
mod Apart
mod Refused
mod Leftover
pub mod Watched
mod Tests
use kudos_judge.Base.{
  same_text, ℕ, Bool, true, false, Option, none, some, List, [], ◌∷◌, ◌++◌, Bytes, ℤ, pos, Result,
  ok, error, fault, if◌then◌else◌,
}
use kudos_judge.Compare.{Descriptor, rdwr}
use kudos_judge.Feed
use kudos_judge.Feed.{Made, new_file}
use kudos_judge.Lang.Process.{Host, Processed, lang_process}
use kudos_judge.Lang.{Lang}
use kudos_judge.Runner
use kudos_judge.Runner.Drain.{settle}
use kudos_judge.Runner.Launch.{Launcher, RunParams, launch, run_params}
use kudos_judge.Runner.Result.{SandboxResult}
use kudos_judge.Runner.Run.{
  Settings, Round, Output, Fed, State, Outcome, finishes, start, run_loop, conclude,
}
use kudos_judge.Runner.{judge}
use kudos_judge.Verdict.{Verdict, codes}
use kudos_judge.Worker.{Files, Submission, Services}

pub record Machine : Type 0 where
  pub worker_id : ℕ
  pub feed : Feed.Answers
  pub feed_workspace : Bytes
  pub host : Host
  pub langs : List Lang
  pub lang_workspace : Bytes
  pub use_erfs : ℤ
  -- what the head of `jug_runner_run` finds, the descriptors that `open` gives for the input and the
  -- expected output, and the size that `stat` gives for the input
  pub launcher : Launcher
  pub infd : ℤ
  pub rightfd : ℤ
  pub input_size : ℕ
  -- what `runp.result` holds before it is set
  pub unset : SandboxResult
  pub settings : Settings
  -- the rounds of the loop of `jug_runner_run`, and the emptying of the pipes behind it
  pub rounds : List Round
  pub reads : List Output
  pub feeds : List Fed

abbrev pub make : Machine → Bytes → Bytes → Made
make m content tag = new_file m.feed m.feed_workspace content m.worker_id tag

unfoldable pub find : Bytes → Files → Option Bytes
find name [] = none
find name ((name', text) ∷ files) =
    let more = find name files in if same_text name' name then some text else more

abbrev pub opened : Bytes → Descriptor
opened text = record { is_open = true; access = rdwr; content = text; offset = 0 }

-- `open` with O_RDWR
unfoldable pub open_file : Files → Option Bytes → Option Descriptor
unfolding find
open_file files none = none
open_file files (some name) = elim (find name files) [
  | none ↦ none
  | some text ↦ some (opened text)
]

-- The language is fixed in `queue_worker_serv`.
abbrev pub process : Machine → Bytes → Processed
process m source = lang_process m.host m.langs m.lang_workspace (codes "c") source m.worker_id

-- A step of a run that may not come to an end.
infixl 5 ◌>>=◌
abbrev pub ◌>>=◌ {ℓ κ} : {A : Type ℓ} {B : Type κ} → Option A → (A → Option B) → Option B
none >>= f = none
some a >>= f = f a

abbrev pub final : Outcome → Option State
final (finishes q) = some q
final _ = none

-- `jug_runner_run` from its loop on; `none` where it does not come to a result.
unfoldable pub run_launched : Machine → Files → Submission → Option SandboxResult
unfolding open_file
run_launched m files submission = do
  fd ← open_file files submission.output_filename
  q ← final (run_loop m.settings m.rounds (start fd))
  result ← conclude q
  settle result m.settings.datasource_size q.ds_sent_acc m.reads m.feeds

-- `runp` of `jug_runner_judge`
abbrev pub parameters : Machine → RunParams
parameters m = run_params m.infd m.rightfd m.worker_id m.input_size

-- The head of `jug_runner_run`, called with the path as the only argument.
abbrev pub launched : Machine → Submission → Result RunParams
launched m submission =
    launch m.launcher m.worker_id (parameters m) submission.bin_path (submission.bin_path ∷ [])

-- `jug_runner_run` on a submission: its return value, and `runp.result` after it.
unfoldable pub run_submission : Machine → Files → Submission → Option (ℤ × SandboxResult)
unfolding run_launched
run_submission m files submission = elim (launched m submission) [
  | ok params ↦ do result ← run_launched m files submission; some (pos 0, result)
  | error code ↦ some (code, m.unset)
  | fault ↦ none
]

abbrev pub is_some {ℓ} : {A : Type ℓ} → Option A → Bool
is_some none = false
is_some (some a) = true

-- What `jug_runner_judge` finds.
abbrev pub answers : Machine → Files → Runner.Answers
answers m files = record {
  opens = λ name. is_some (open_file files name);
  use_erfs = m.use_erfs;
  run = run_submission m files;
}

-- `jug_runner_judge` on a submission; `none` where it does not return.
unfoldable pub judge_submission : Machine → Files → Submission → Option Verdict
unfolding run_submission
judge_submission m files submission = do
  judgement ← judge (answers m files) submission
  some judgement.verdict

-- What the worker calls.
abbrev pub services : Machine → Services
services m = record { new_file = make m; lang_result = process m; judge = judge_submission m }
