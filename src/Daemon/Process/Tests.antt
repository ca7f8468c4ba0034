-- ===== src/Daemon/Process/Tests.antt =====
-- A daemon that gets SIGTERM with two workers.
use kudos_judge.Base.{◌≡◌, refl, true, some, [], ◌∷◌, pos}
use kudos_judge.Daemon.Process.{
  returns, child, daemonize, detach, stop_workers, template_term, sighandler,
}

in_background : daemonize child (pos 5) child ≡ returns (pos 0)
unfolding daemonize detach
in_background = refl

shut_down : sighandler 15 (pos 2) (pos 77) ≡ record {
  workers = 0 ∷ 1 ∷ [];
  template = some (pos 77);
  unlinks_pid_file = true;
  exit = some (pos 0);
}
unfolding sighandler stop_workers template_term
shut_down = refl
