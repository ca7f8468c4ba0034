-- ===== src/Client/Main/Tests.antt =====
-- Calls of the client.
use kudos_judge.Base.{◌≡◌, refl, true, none, some, [], ◌∷◌, arith, fault, ok}
use kudos_judge.Client.Main.Exits.{main_unnamed}
use kudos_judge.Client.Main.{Calls, main, returns, is_host_flag, print_hr_duration}
use kudos_judge.Decimal.{decimal_onto}
use kudos_judge.Verdict.{codes}

abbrev connected : Calls
connected = record {
  socket = true;
  connect = true;
  fopen = λ name. elim name [ none ↦ none | some n ↦ some [] ];
  sends = [];
  init = [];
  arrivals = [];
}

usage : main connected (codes "client" ∷ codes "a.c" ∷ []) ≡ ok (returns 0)
unfolding main
usage = refl

duration : print_hr_duration 2003004 ≡ codes "2s 3ms 4us\n"
unfolding print_hr_duration decimal_onto
duration = refl

main_unnamed_example :
    main connected (codes "client" ∷ codes "-h" ∷ codes "10.0.0.1" ∷ codes "a.c" ∷ codes "in" ∷ [])
    ≡ fault
unfolding is_host_flag
main_unnamed_example =
    main_unnamed connected (codes "client") (codes "-h") (codes "10.0.0.1") (codes "a.c")
      (codes "in") refl (omega arith) refl refl refl
