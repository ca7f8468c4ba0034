-- ===== src/Start/Ready.antt =====
-- The queue and the runner, once both are up.
use kudos_judge.Base.{
  ℕ, zero, suc, ◌+◌, ◌≤◌, ◌<◌, ◌≡◌, refl, ap, subst, inl, inr, Bool, true, false, List, All, length,
  arith, ℤ, pos, negsuc, is_ℕ, Result, ok, error, fault, >>=-eq-ok, ok_cancel, Bool-cases,
  if◌then◌else◌, reaches,
}
use kudos_judge.Start.{
  Lookup, QueueSettings, queue_init, create_workers, launch_workers, queue_start, runner_init,
  sandbox_init, TemplateCalls, worker_pipes, template_init, RunnerStarted, runner_start, failing,
  rounds,
}

-- The pipes of a worker are in their arrays, and there.
abbrev pub HasPipes : TemplateCalls → ℕ → Type 0
HasPipes sys i = (i < 24) × (sys.pipe_in i ≡ true) × (sys.pipe_out i ≡ true)

create_workers-HasPipes :
    (creates : ℕ → Bool) (sys : TemplateCalls) (i left : ℕ)
    → is_ℕ (create_workers creates i left).0 0 ≡ true
    → worker_pipes sys i left ≡ true
    → i + left ≤ 24
    → All (HasPipes sys) (create_workers creates i left).1
      × (length (create_workers creates i left).1 ≡ left)
unfolding create_workers worker_pipes
create_workers-HasPipes creates sys i zero e p h = ground arith
create_workers-HasPipes creates sys i (suc left) e p h = elim (Bool-cases (creates i)) [
  | inr fails ↦ absurd (ground (arith, e, fails))
  | inl runs ↦
      let (all, counted) =
        create_workers-HasPipes creates sys (suc i) left (ground (arith, e, runs))
          (ground (arith, p)) (omega arith) in
      let mine : HasPipes sys i = ground (arith, p, h) in rw runs ((mine, all), ap suc counted)
]

pub failing_ok {ℓ} :
    {A : Type ℓ} (code : ℤ) (r : Result A) {a : A} → failing code r ≡ ok a → r ≡ ok a
failing_ok code (ok a) e = e
failing_ok code (error z) e = cc
failing_ok code fault e = cc

reaches_rounds : (n : ℤ) → reaches 24 n ≡ true → rounds n ≤ 24
reaches_rounds (pos n) h = ground arith
reaches_rounds (negsuc n) h = omega arith

if_ok {ℓ} :
    {A : Type ℓ} (b : Bool) (a : A) (code : ℤ) {d : A}
    → (if b then ok a else error code) ≡ ok d
    → (b ≡ true) × (a ≡ d)
if_ok true a code e = (refl, ok_cancel e)
if_ok false a code e = cc

template_init-worker_pipes :
    (sys : TemplateCalls) (n pid : ℤ)
    → template_init sys n ≡ ok pid
    → (rounds n ≤ 24) × (worker_pipes sys 0 (rounds n) ≡ true)
unfolding template_init
template_init-worker_pipes sys n pid e = elim (Bool-cases (reaches 24 n)) [
  | inr many ↦ absurd (ground (arith, e, many))
  | inl few ↦ elim (Bool-cases (worker_pipes sys 0 (rounds n))) [
    | inl pipes ↦ (reaches_rounds n few, pipes)
    | inr broken ↦ absurd (ground (arith, e, few, broken))
  ]
]

-- Where the queue and the runner are started, the workers are as many as configured, and have pipes.
pub runner_start-HasPipes :
    (get : Lookup) (creates : ℕ → Bool) (has_tmp : Bool) (sys : TemplateCalls)
    (settings : QueueSettings) (workers : List ℕ) (started : RunnerStarted)
    → queue_start get creates ≡ ok (settings, workers)
    → runner_start get has_tmp sys settings.num_worker_threads ≡ ok started
    → All (HasPipes sys) workers × (length workers ≡ rounds settings.num_worker_threads)
unfolding queue_start launch_workers runner_start
runner_start-HasPipes get creates has_tmp sys settings workers started q r =
    let (settings', _, q) = >>=-eq-ok (queue_init get) _ q in
    let (_, _, r) = >>=-eq-ok (failing (negsuc 0) (runner_init get)) _ r in
    let (_, _, r) = >>=-eq-ok (failing (negsuc 0) (sandbox_init get has_tmp)) _ r in
    let (pid, r, _) =
      >>=-eq-ok (failing (negsuc 1) (template_init sys settings.num_worker_threads)) _ r in
    let (few, pipes) =
      template_init-worker_pipes sys settings.num_worker_threads pid (failing_ok (negsuc 1) _ r) in
    let launched = launch_workers creates settings'.num_worker_threads in
    let (runs, same) = if_ok (is_ℕ launched.0 0) (settings', launched.1) launched.0 q in
    let set : settings' ≡ settings = ap (λ (x : QueueSettings × List ℕ). x.0) same in
    let few' : rounds settings'.num_worker_threads ≤ 24 = rw set few in
    let there : All (HasPipes sys) launched.1
        × (length launched.1 ≡ rounds settings'.num_worker_threads) =
      create_workers-HasPipes creates sys 0 (rounds settings'.num_worker_threads) runs
        (rw set pipes) (omega (arith, few')) in
    subst
      (λ (x : QueueSettings × List ℕ).
        All (HasPipes sys) x.1 × (length x.1 ≡ rounds x.0.num_worker_threads))
      same there
