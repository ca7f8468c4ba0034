-- ===== src/Daemon/Accept.antt =====
-- The loop of the daemon, `while(1)` in `main` of kudosd.c, which pushes the connections that it
-- accepts.
use kudos_judge.Base.{
  ℕ, ◌≡◌, refl, sym, ◌∙◌, subst, Option, none, some, List, [], ◌∷◌, ◌++◌, append-nil, append_assoc,
}
use kudos_judge.Queue.Refinement.{Holds, push_connection-Holds}
use kudos_judge.Queue.{Queue, push_connection}

-- What is left of the loop, by what `accept` returns: the queue, where the loop waits for the next
-- connection or `accept` has failed and `main` returns 1. `none` is a fault.
pub data Loop : Type 0 where
  listens : Queue → Loop
  returns_1 : Queue → Loop

unfoldable pub accept_loop : List (Option ℕ) → Queue → Option Loop
unfolding push_connection
accept_loop [] q = some (listens q)
accept_loop (none ∷ more) q = some (returns_1 q)
accept_loop (some connection ∷ more) q = elim (push_connection q connection) [
  | none ↦ none
  | some q' ↦ accept_loop more q'
]

-- The connections before the first failure.
abbrev pub accepted_of : List (Option ℕ) → List ℕ
accepted_of [] = []
accepted_of (none ∷ more) = []
accepted_of (some connection ∷ more) = connection ∷ accepted_of more

abbrev pub queue_of : Loop → Queue
queue_of (listens q) = q
queue_of (returns_1 q) = q

accept_loop-push :
    (more : List (Option ℕ)) (q q' : Queue) (c : ℕ)
    → push_connection q c ≡ some q'
    → accept_loop (some c ∷ more) q ≡ accept_loop more q'
unfolding accept_loop
accept_loop-push more q q' c e = simp (accept_loop, e)

-- From a queue that holds some connections, the loop never touches memory that is not its own, and
-- its queue holds those and the accepted ones in their order.
pub accept_loop-Holds :
    (accepts : List (Option ℕ)) (q : Queue) (cs : List ℕ)
    → Holds q cs
    → (l : Loop) × (accept_loop accepts q ≡ some l) × Holds (queue_of l) (cs ++ accepted_of accepts)
unfolding accept_loop
accept_loop-Holds [] q cs h = (listens q, refl, subst (Holds q) (sym (append-nil cs)) h)
accept_loop-Holds (none ∷ more) q cs h =
    (returns_1 q, refl, subst (Holds q) (sym (append-nil cs)) h)
accept_loop-Holds (some c ∷ more) q cs h =
    let (q', pushed, held, _) = push_connection-Holds q cs c h in
    let (l, runs, holds) = accept_loop-Holds more q' (cs ++ (c ∷ [])) held in
    (
      l,
      accept_loop-push more q q' c pushed ∙ runs,
      subst (Holds (queue_of l)) (append_assoc cs (c ∷ []) (accepted_of more)) holds,
    )
