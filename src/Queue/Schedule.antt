-- ===== src/Queue/Schedule.antt =====
-- The listening thread and the workers of `queue_worker_main`, as interleavings. A push is one step
-- here, as if it took the lock that only the pop takes.
use kudos_judge.Base.{
  ℕ, suc, ◌+◌, ◌≡◌, refl, sym, ap, some_cancel, subst, ◌∙◌, Option, none, some, List, [], ◌∷◌, ◌++◌,
  append_assoc, arith, length, length-append,
}
use kudos_judge.Queue.Refinement.{Holds, init-Holds, push_connection-Holds, pop_connection-Pops}
use kudos_judge.Queue.{Queue, init, push_connection, pop_connection}

-- The shared state. `woken` counts the workers between their `sem_wait` and their pop; the two lists
-- are the connections pushed and those handed to workers, in order; `idle_wakes` counts the pops
-- that gave NULL.
pub record System : Type 0 where
  pub queue : Queue
  pub woken : ℕ
  pub pushed : List ℕ
  pub served : List ℕ
  pub idle_wakes : ℕ

abbrev pub boot : System
boot = record { queue = init; woken = 0; pushed = []; served = []; idle_wakes = 0 }

abbrev hand_over : System → Option ℕ × Queue → System
hand_over s (none, q) = record s { queue = q; idle_wakes = s.idle_wakes + 1 }
hand_over s (some c, q) = record s { queue = q; served = s.served ++ c ∷ [] }

-- `accept` takes a whole push for one step; the source has no lock there, and Refinement has what comes
-- of it when a pop comes in between.
pub data Step : System → System → Type 0 where
  accept :
      (s : System) (c : ℕ) (q : Queue)
      → push_connection s.queue c ≡ some q
      → Step s (record s { queue = q; pushed = s.pushed ++ c ∷ [] })
  wake :
      (s : System) (n : ℕ)
      → s.queue.work_semaphore ≡ suc n
      → Step s (record s { queue = record (s.queue) { work_semaphore = n }; woken = suc s.woken })
  fetch :
      (s : System) (n : ℕ) (r : Option ℕ × Queue)
      → s.woken ≡ suc n
      → pop_connection s.queue ≡ some r
      → Step s (record (hand_over s r) { woken = n })

pub data Reach : System → Type 0 where
  booted : Reach boot
  next : {s t : System} → Reach s → Step s t → Reach t

pub record Inv (s : System) : Type 0 where
  pub waiting : List ℕ
  pub held : Holds s.queue waiting
  pub in_order : s.pushed ≡ s.served ++ waiting
  pub counted : s.queue.work_semaphore + s.woken ≡ length waiting
  pub never_idle : s.idle_wakes ≡ 0

Holds-semaphore :
    (q : Queue) (cs : List ℕ) (n : ℕ) → Holds q cs → Holds (record q { work_semaphore = n }) cs
Holds-semaphore q [] n h = h
Holds-semaphore q (c ∷ cs) n h = h

accept-Inv :
    (s : System) (c : ℕ) (q : Queue)
    → push_connection s.queue c ≡ some q
    → Inv s
    → Inv (record s { queue = q; pushed = s.pushed ++ c ∷ [] })
accept-Inv s c q e v =
    let (q', e', held, count) = push_connection-Holds s.queue v.waiting c v.held in
    let same : q' ≡ q = some_cancel (sym e' ∙ e) in
    record {
      waiting = v.waiting ++ c ∷ [];
      held = subst (λ p. Holds p (v.waiting ++ c ∷ [])) same held;
      in_order = ap (λ l. l ++ c ∷ []) v.in_order ∙ append_assoc s.served v.waiting (c ∷ []);
      counted = omega (
        arith,
        ap (λ (p : Queue). p.work_semaphore) same,
        count,
        v.counted,
        length-append v.waiting (c ∷ []),
      );
      never_idle = v.never_idle;
    }

-- A woken worker finds a connection, the oldest.
fetch-Inv :
    (s : System) (n : ℕ) (r : Option ℕ × Queue) (waiting : List ℕ)
    → s.woken ≡ suc n
    → pop_connection s.queue ≡ some r
    → Holds s.queue waiting
    → s.pushed ≡ s.served ++ waiting
    → s.queue.work_semaphore + s.woken ≡ length waiting
    → s.idle_wakes ≡ 0
    → Inv (record (hand_over s r) { woken = n })
fetch-Inv s n r [] w e held order count idle = absurd (omega arith)
fetch-Inv s n r (c ∷ cs) w e held order count idle =
    let (q', e', held', sem, _) = pop_connection-Pops s.queue (c ∷ cs) held in
    let handed : (some c, q') ≡ r = some_cancel (sym e' ∙ e) in
    subst (λ x. Inv (record (hand_over s x) { woken = n })) handed
      (record {
        waiting = cs;
        held = held';
        in_order = order ∙ sym (append_assoc s.served (c ∷ []) cs);
        counted = omega (arith, sem, count, w);
        never_idle = idle;
      })

Step-Inv : {s t : System} → Step s t → Inv s → Inv t
Step-Inv (accept s c q e) v = accept-Inv s c q e v
Step-Inv (wake s n e) v = record {
  waiting = v.waiting;
  held = Holds-semaphore s.queue v.waiting n v.held;
  in_order = v.in_order;
  counted = omega (arith, e, v.counted);
  never_idle = v.never_idle;
}
Step-Inv (fetch s n r w e) v =
    fetch-Inv s n r v.waiting w e v.held v.in_order v.counted v.never_idle

-- In every state that the interleavings of whole pushes, wake-ups and pops reach, the connections
-- pushed are those handed to workers and then those that wait in the queue, in the order of the
-- pushes; the semaphore and the woken workers together count the waiting ones; and no woken worker
-- has found the queue empty.
pub Reach-Inv : {s : System} → Reach s → Inv s
Reach-Inv booted = record {
  waiting = [];
  held = init-Holds;
  in_order = refl;
  counted = unfold init in omega arith;
  never_idle = refl;
}
Reach-Inv (next r st) = Step-Inv st (Reach-Inv r)

-- In every state that the interleavings of whole pushes, wake-ups and pops reach, a woken worker's pop is neither a fault nor empty-
-- handed.
woken-fetch :
    {s : System} (n : ℕ)
    → Reach s
    → s.woken ≡ suc n
    → (c : ℕ) × (q : Queue) × (pop_connection s.queue ≡ some (some c, q))
woken-fetch {s} n r w = let v = Reach-Inv r in found s n v.waiting w v.held v.counted
  where
    found :
        (s : System) (n : ℕ) (waiting : List ℕ)
        → s.woken ≡ suc n
        → Holds s.queue waiting
        → s.queue.work_semaphore + s.woken ≡ length waiting
        → (c : ℕ) × (q : Queue) × (pop_connection s.queue ≡ some (some c, q))
    found s n [] w held count = absurd (omega arith)
    found s n (c ∷ cs) w held count =
        let (q, e, _, _, _) = pop_connection-Pops s.queue (c ∷ cs) held in (c, q, e)
