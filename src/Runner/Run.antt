-- ===== src/Runner/Run.antt =====
-- The loop of `jug_runner_run` of runner.c: the watcher is polled, fed with the input, and its output
-- compared as it comes. What the system answers in a round is an argument. The counters are not
-- bounded here, where C has `int`.
mod Ends
pub mod Trace
pub mod Watched
pub mod Accepted
pub mod Unset
mod Alive
mod Known
mod Outcomes
pub mod Finishes
use kudos_judge.Base.{
  ℕ, zero, suc, ◌+◌, ◌/◌, Bool, true, false, ◌||◌, Option, none, some, List, [], ◌∷◌, Bytes, ltb,
  if◌then◌else◌, ℤ, pos, negsuc, length,
}
use kudos_judge.Compare.{Descriptor, Return, compare_output}
use kudos_judge.Runner.Result.{
  SandboxResult, js_correct, js_wrong, js_comp_error, js_pipe_error, js_outputlimit, js_unknown,
  result_of,
}

-- `waitpid(watcher_pid,&iw_status,WNOHANG)`
pub data Waited : Type 0 where
  wait_failed still_runs signaled other_status : Waited
  exited : ℕ → Waited

-- `sendfile` to the watcher: a count, EAGAIN or another error.
pub data Fed : Type 0 where
  fed : ℕ → Fed
  feed_again feed_failed : Fed

-- `read` of the watcher's output: bytes, 0, EAGAIN or another error.
pub data Output : Type 0 where
  got : ℕ → Bytes → Output
  end_of_file read_again read_failed : Output

pub record Round : Type 0 where
  pub waited : Waited
  pub input : Fed
  pub output : Output

pub record Settings : Type 0 where
  pub kill_on_compout : Bool
  pub output_size_limit_mb : ℤ
  pub datasource_size : ℕ

-- The variables of the loop; `none` is a variable that was never set. `signals` counts the SIGUSR2
-- to the watcher.
pub record State : Type 0 where
  pub watcher_alive : Bool
  pub endoffile : Bool
  pub compout_detected : Bool
  pub spawn_succeeded : Bool
  pub watcher_result : Option SandboxResult
  pub comp_result : Option SandboxResult
  pub ds_sent_acc : ℕ
  pub compare_stage : ℕ
  pub received_bytes : ℕ
  pub signals : ℕ
  pub fd_output_ref : Descriptor

unfoldable pub start : Descriptor → State
start fd = record {
  watcher_alive = true;
  endoffile = false;
  compout_detected = false;
  spawn_succeeded = true;
  watcher_result = none;
  comp_result = none;
  ds_sent_acc = 0;
  compare_stage = 0;
  received_bytes = 0;
  signals = 0;
  fd_output_ref = fd;
}

-- The exit code is read as a signed `char`.
unfoldable pub watcher_ended : Waited → State → State
watcher_ended wait_failed p = record p { watcher_alive = false }
watcher_ended still_runs p = p
watcher_ended signaled p = record p { watcher_alive = false; watcher_result = some js_unknown }
watcher_ended other_status p = record p { watcher_alive = false; watcher_result = some js_unknown }
watcher_ended (exited code) p =
    if ltb code 128
    then record p { watcher_alive = false; watcher_result = some (result_of code) }
    else record p { watcher_alive = false; spawn_succeeded = false }

unfoldable pub poll_watcher : Waited → State → State
unfolding watcher_ended
poll_watcher w p = if p.watcher_alive then watcher_ended w p else p

abbrev pub kill_watcher : Settings → State → State
kill_watcher s p = if s.kill_on_compout then record p { signals = p.signals + 1 } else p

-- A failed transfer ends the comparison.
unfoldable pub pipe_failed : Settings → State → State
pipe_failed s p =
    kill_watcher s (record p { comp_result = some js_pipe_error; compout_detected = true })

unfoldable pub feed_watcher : Settings → Fed → State → State
unfolding pipe_failed
feed_watcher s input p =
    if ltb p.ds_sent_acc s.datasource_size
    then elim input [
      | fed n ↦ record p { ds_sent_acc = p.ds_sent_acc + n }
      | feed_again ↦ p
      | feed_failed ↦ pipe_failed s p
    ]
    else p

-- `nequal` as a result
unfoldable pub comparison : ℤ → SandboxResult
comparison (pos zero) = js_correct
comparison (pos (suc n)) = js_wrong
comparison (negsuc n) = js_comp_error

-- `(received_bytes/1000000) > output_size_limit_mb_default`
abbrev pub exceeds : ℕ → ℤ → Bool
exceeds bytes (pos limit) = ltb limit (bytes / 1000000)
exceeds bytes (negsuc limit) = true

-- A round goes on, ends the loop, or hangs in `compare_output`.
pub data Outcome : Type 0 where
  goes_on : State → Outcome
  finishes : State → Outcome
  hangs : Outcome

abbrev pub note_equality : Settings → ℤ → State → State
note_equality s (pos zero) p = p
note_equality s _ p = kill_watcher s (record p { compout_detected = true })

abbrev pub limit_output : Settings → ℕ → State → State
limit_output s count p =
    let received = p.received_bytes + count in
    if exceeds received s.output_size_limit_mb
    then record p {
      received_bytes = received;
      signals = p.signals + 1;
      comp_result = some js_outputlimit;
    }
    else record p { received_bytes = received }

-- The branch `count>0`, once `compare_output` has returned.
unfoldable pub after_piece : Settings → ℕ → ℤ → Descriptor → State → State
unfolding comparison
after_piece s count nequal fd p = limit_output s count (
    note_equality s nequal (record p {
      fd_output_ref = fd;
      comp_result = some (comparison nequal);
      compare_stage = p.compare_stage + 1;
    }))

unfoldable pub take_output : Settings → Bytes → State → Outcome
unfolding after_piece
take_output s bytes p = elim (compare_output p.fd_output_ref bytes (pos p.compare_stage)) [
  | none ↦ hangs
  | some (nequal, fd) ↦ goes_on (after_piece s (length bytes) nequal fd p)
]

unfoldable pub after_last : ℤ → Descriptor → State → State
unfolding comparison
after_last nequal fd p = record p { fd_output_ref = fd; comp_result = some (comparison nequal) }

-- The last call of `compare_output`, in the branch `count==0` and where a dead watcher left no more.
unfoldable pub last_comparison : (State → Outcome) → State → Outcome
unfolding after_last
last_comparison next p = elim (compare_output p.fd_output_ref [] (negsuc 0)) [
  | none ↦ hangs
  | some (nequal, fd) ↦ next (after_last nequal fd p)
]

unfoldable pub read_output : Settings → Output → State → Outcome
unfolding take_output last_comparison pipe_failed
read_output s (got byte bytes) p = take_output s (byte ∷ bytes) p
read_output s end_of_file p = last_comparison goes_on (record p { endoffile = true })
read_output s read_again p = if p.watcher_alive then goes_on p else last_comparison finishes p
read_output s read_failed p = goes_on (pipe_failed s p)

-- The state in which a round comes to the output.
unfoldable pub before_output : Settings → Round → State → State
unfolding poll_watcher feed_watcher
before_output s r p = feed_watcher s r.input (poll_watcher r.waited p)

unfoldable pub round : Settings → Round → State → Outcome
unfolding before_output read_output
round s r p =
    let q = before_output s r p in
    if q.endoffile || q.compout_detected
    then (if q.watcher_alive then goes_on q else finishes q)
    else read_output s r.output q

unfoldable pub run_loop : Settings → List Round → State → Outcome
unfolding round
run_loop s [] p = goes_on p
run_loop s (r ∷ rounds) p = elim (round s r p) [
  | goes_on q ↦ run_loop s rounds q
  | finishes q ↦ finishes q
  | hangs ↦ hangs
]

-- `result` behind the loop; `none` where it is read from a variable that was never set.
unfoldable pub conclude : State → Option SandboxResult
conclude p =
    if p.spawn_succeeded
    then elim p.watcher_result [ some js_correct ↦ p.comp_result | other ↦ other ]
    else some js_unknown
