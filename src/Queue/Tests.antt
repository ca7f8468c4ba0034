-- ===== src/Queue/Tests.antt =====
-- Short histories of the queue.
use kudos_judge.Base.{◌≡◌, refl, none, some, [], ◌∷◌, arith}
use kudos_judge.Queue.Refinement.{Holds, pushes, pops, run, run-fifo, push_race}
use kudos_judge.Queue.Schedule.{System, boot, accept, wake, Reach, booted, next, Inv, Reach-Inv}
use kudos_judge.Queue.{Queue, write, init, push_first, push_behind, push_connection, pop_connection}

-- One connection, 7.
abbrev one : Queue
one = push_first init 7

one_run : push_connection init 7 ≡ some one
unfolding push_connection init
one_run = refl

one-Holds : Holds one (7 ∷ [])
unfolding push_first init
one-Holds = (omega arith, omega arith, (refl, refl))

run-fifo_example :
    run init (pushes 7 ∷ pushes 8 ∷ pops ∷ pops ∷ pops ∷ []) ≡ some (some 7 ∷ some 8 ∷ none ∷ [])
run-fifo_example = run-fifo (pushes 7 ∷ pushes 8 ∷ pops ∷ pops ∷ pops ∷ [])

abbrev woken : System
woken = record {
  queue = record one { work_semaphore = 0 };
  woken = 1;
  pushed = 7 ∷ [];
  served = [];
  idle_wakes = 0;
}

woken-Reach : Reach woken
unfolding push_first init
woken-Reach =
    next (next booted (accept boot 7 one one_run))
      (wake (record boot { queue = one; pushed = 7 ∷ [] }) 0 refl)

Reach-Inv_example : Inv woken
Reach-Inv_example = Reach-Inv woken-Reach

abbrev popped : Queue
popped = record one { head = 0; entries = write one.entries one.head none }

popped_run : pop_connection one ≡ some (some 7, popped)
unfolding pop_connection push_first init
popped_run = refl

push_race_example : (push_connection one 8 ≡ push_behind one 8) × (push_behind popped 8 ≡ none)
push_race_example = push_race one popped 7 8 one-Holds popped_run
