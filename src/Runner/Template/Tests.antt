-- ===== src/Runner/Template/Tests.antt =====
-- One request of one byte, from the lock to the unlock.
use kudos_judge.Base.{◌≡◌, refl, some, [], ◌∷◌, pos}
use kudos_judge.Runner.Template.{
  start, ok, request, reply, Shared, idle, awaits_start, sleeping, awaits_ok, lock, see_start,
  signal, see_ready, write, send, see_reply, take_pid, confirm, unlock, announce, interrupt_sleep,
  enter, see_request, read_request, clone_watcher, write_pid, answer, booted, Reach, boot, asked,
  served,
}
use kudos_judge.Runner.Template.Handshake.{answers-clones}
use kudos_judge.Runner.Template.Progress.{Leads, Reach-Leads}

abbrev announced : Shared
announced = record booted { flag = start }

abbrev answered : Shared
answered = record booted {
  flag = ok;
  payload = reply (pos 7);
  clones = (request (1 ∷ []), reply (pos 7)) ∷ [];
  answers = (request (1 ∷ []), reply (pos 7)) ∷ [];
}

asks_for : Reach announced (awaits_start (1 ∷ [])) sleeping
asks_for = asked (served boot announce) (lock _)

exchange : Reach answered idle awaits_ok
exchange =
    let e1 = asked (asked asks_for (see_start refl)) signal in
    let e2 = asked (served (served e1 (interrupt_sleep refl)) enter) (see_ready refl) in
    let e3 = served (asked (asked e2 write) send) (see_request refl) in
    let e4 = served (served (served e3 read_request) (clone_watcher (pos 7))) write_pid in
    let e5 = asked (asked (served e4 answer) (see_reply refl)) take_pid in
    asked (asked e5 confirm) unlock

answers-clones_example : answered.answers ≡ answered.clones
answers-clones_example = answers-clones exchange

Reach-Leads_example : Leads (some (1 ∷ [])) announced (awaits_start (1 ∷ [])) sleeping
Reach-Leads_example = Reach-Leads asks_for
