-- ===== src/Runner/Drain.antt =====
-- Behind the loop `jug_runner_run` empties the pipe of the output and throws the rest of the input to
-- the watcher, so that the next submission of this worker finds both pipes clean.
pub mod Patience
use kudos_judge.Base.{
  ℕ, suc, ◌+◌, Bool, true, false, Option, none, some, List, [], ◌∷◌, Bytes, ltb, leb, if◌then◌else◌,
  length,
}
use kudos_judge.Runner.Result.{SandboxResult, js_unknown}
use kudos_judge.Runner.Run.{
  Output, got, end_of_file, read_again, read_failed, Fed, fed, feed_again, feed_failed,
}

-- A loop that has ended, has met an error, or needs more of the system's answers.
pub data Drained : Type 0 where
  drained broken drains : Drained

-- EAGAIN is borne this often in a row.
abbrev pub blocking_max : ℕ
blocking_max = 10000

-- `blocking_count` counts the EAGAINs in a row.
unfoldable pub drain_output : List Output → ℕ → Drained
drain_output [] blocking_count = drains
drain_output (end_of_file ∷ reads) blocking_count = drained
drain_output (read_failed ∷ reads) blocking_count = broken
drain_output (got byte bytes ∷ reads) blocking_count = drain_output reads 0
drain_output (read_again ∷ reads) blocking_count =
    let more = drain_output reads (blocking_count + 1) in
    if ltb blocking_max (blocking_count + 1) then drained else more

-- `sent` is `flush_acc + ds_sent_acc`.
unfoldable pub drain_input : ℕ → List Fed → ℕ → Drained
drain_input datasource_size [] sent = drains
drain_input datasource_size (feed_failed ∷ feeds) sent = broken
drain_input datasource_size (fed n ∷ feeds) sent =
    let more = drain_input datasource_size feeds (sent + n) in
    if leb datasource_size (sent + n) then drained else more
drain_input datasource_size (feed_again ∷ feeds) sent =
    let more = drain_input datasource_size feeds sent in
    if leb datasource_size sent then drained else more

-- What becomes of the result; `none` is a loop that has not ended.
unfoldable pub settle : SandboxResult → ℕ → ℕ → List Output → List Fed → Option SandboxResult
unfolding drain_output drain_input
settle result datasource_size ds_sent_acc reads feeds = elim (drain_output reads 0) [
  | drains ↦ none
  | broken ↦ some js_unknown
  | drained ↦ elim (drain_input datasource_size feeds ds_sent_acc) [
    | drains ↦ none
    | broken ↦ some js_unknown
    | drained ↦ some result
  ]
]
