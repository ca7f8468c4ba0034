-- ===== src/Runner/Launch/Handed.antt =====
-- What the template process is handed for a run that goes ahead.
use kudos_judge.Base.{
  ◌≡◌, ◌≢◌, ◌⊎◌, inl, inr, refl, sym, ap, ◌∙◌, true, false, some, List, [], ◌∷◌, Bytes, ℤ, ℕ, pos,
  negsuc, ok, error, arith, none, subst, append-nil, length, ok_cancel, Bool-cases,
}
use kudos_judge.Interface.BufferLib.{NoNul}
use kudos_judge.Runner.Launch.{
  Launcher, RunParams, prepare, child_params, clone_request, launch, run_params, is_clone_error,
}
use kudos_judge.Runner.Serial.RoundTrip.{unserialize-serialize}
use kudos_judge.Runner.Serial.{serialize, unserialize}

-- The parameters that the loop starts with.
abbrev pub given : Launcher → ℕ → RunParams → Bytes → List Bytes → RunParams
given l order p path argv = record (prepare l order p) {
  watcher_pid = some (l.template_clone (clone_request l order p path argv));
}

is_clone_error-negsuc : (pid : ℤ) → is_clone_error pid ≡ true → pid ≡ negsuc 0
is_clone_error-negsuc (pos n) h = absurd (ground (arith, h))
is_clone_error-negsuc (negsuc n) h = ground (arith, h)

-- A descriptor that the loop needs is not valid.
abbrev pub Closed : Launcher → ℕ → RunParams → Type 0
Closed l order p =
    (l.is_valid (l.io_pipes_in order).write_to ≡ false) ⊎ (l.is_valid p.fd_datasource ≡ false)

-- The head of jug_runner_run returns -2, where the template process answers -1; or -3, where the
-- writing end of the input pipe or the descriptor of the input is not valid; or none of that is
-- the case and the loop starts with the limits and pipes filled in and the answered pid as the
-- watcher, whatever that pid is.
pub launch-cases :
    (l : Launcher) (order : ℕ) (p : RunParams) (path : Bytes) (argv : List Bytes)
    → ((l.template_clone (clone_request l order p path argv) ≡ negsuc 0)
        × (launch l order p path argv ≡ error (negsuc 1)))
      ⊎ ((Closed l order p × (launch l order p path argv ≡ error (negsuc 2)))
          ⊎ ((l.template_clone (clone_request l order p path argv) ≢ negsuc 0)
              × (¬ Closed l order p)
              × (launch l order p path argv ≡ ok (given l order p path argv))))
unfolding launch
launch-cases l order p path argv =
    elim (Bool-cases (is_clone_error (l.template_clone (clone_request l order p path argv)))) [
      | inl failed ↦ inl (is_clone_error-negsuc _ failed, rw failed refl)
      | inr cloned ↦ elim (Bool-cases (l.is_valid (l.io_pipes_in order).write_to)) [
        | inr closed ↦ inr (inl (inl closed, rw (cloned, closed) refl))
        | inl open_pipe ↦ elim (Bool-cases (l.is_valid p.fd_datasource)) [
          | inr closed ↦ inr (inl (inr closed, rw (cloned, open_pipe, closed) refl))
          | inl open_fd ↦ inr (
              inr (
                (λ e. absurd (ground (arith, cloned, ap is_clone_error e))),
                (λ shut. elim shut [
                  | inl pipe ↦ absurd (ground (arith, pipe, open_pipe))
                  | inr fd ↦ absurd (ground (arith, fd, open_fd))
                ]),
                rw (cloned, open_pipe, open_fd) refl,
              ))
        ]
      ]
    ]

launch-given :
    (l : Launcher) (order : ℕ) (p q : RunParams) (path : Bytes) (argv : List Bytes)
    → launch l order p path argv ≡ ok q
    → q ≡ given l order p path argv
launch-given l order p q path argv e = elim (launch-cases l order p path argv) [
  | inl (_, failed) ↦ absurd (ground (arith, e, failed))
  | inr (inl (_, shut)) ↦ absurd (ground (arith, e, shut))
  | inr (inr (_, _, gone)) ↦ ok_cancel (sym e ∙ gone)
]

module _ (l : Launcher) (infd rightfd : ℤ) (id size : ℕ) (path : Bytes) where
  abbrev start : RunParams
  start = run_params infd rightfd id size

  -- What the template process was handed: the parameters of the loop, but for the watcher's pid,
  -- with the limits of the configuration and the pipes of the thread, and the path as the only
  -- argument. The watcher is the one that it answered.
  pub record Handed (p : RunParams) : Type 0 where
    pub watcher :
        p.watcher_pid ≡ some (l.template_clone (clone_request l id start path (path ∷ [])))
    pub request_read :
        unserialize
          (length (l.run_params_bytes (record p { watcher_pid = none })))
          (length (l.sandbox_bytes l.sandbox))
          (clone_request l id start path (path ∷ []))
        ≡ ok (child_params l (record p { watcher_pid = none }) path (path ∷ []))
    pub mem_limit : p.mem_limit_mb ≡ l.sandbox.mem_limit_mb_default
    pub time_limit : p.time_limit_ms ≡ l.sandbox.time_limit_ms_default
    pub writes_to : p.out_pipe ≡ some (l.io_pipes_out id)
    pub reads_from : p.in_pipe ≡ some (l.io_pipes_in id)

  given-Handed : NoNul path → Handed (given l id start path (path ∷ []))
  unfolding prepare
  given-Handed clean =
      let sent = child_params l (prepare l id start) path (path ∷ []) in
      let (_, text) = unserialize-serialize sent [] clean (clean, tt) (omega arith) in
      record {
        watcher = refl;
        request_read =
            ap (λ s. unserialize (length sent.run_params_struct) (length sent.sandbox_struct) s)
              (sym (append-nil (serialize sent)))
            ∙ text;
        mem_limit = refl;
        time_limit = refl;
        writes_to = refl;
        reads_from = refl;
      }

  -- A run that goes ahead has handed this over.
  pub launch-Handed :
      (p : RunParams) → NoNul path → launch l id start path (path ∷ []) ≡ ok p → Handed p
  launch-Handed p clean e =
      subst Handed (sym (launch-given l id start p path (path ∷ []) e)) (given-Handed clean)
