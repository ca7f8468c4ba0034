-- ===== src/Queue/Workers.antt =====
-- Which worker a thread is: `queue_worker_id` of queue.c.
use kudos_judge.Base.{
  ℕ, suc, ◌≡◌, ap, sym, ◌∙◌, inl, inr, some, List, [], ◌∷◌, ℤ, pos, negsuc, ◌==◌, if◌then◌else◌,
  get_elem?, arith, Bool-cases, ◌+◌, some_cancel,
}

-- The loop over `g_workers` from i on, whose threads are known by numbers.
unfoldable pub worker_from : ℕ → List ℕ → ℕ → ℤ
worker_from i [] current = negsuc 0
worker_from i (thread ∷ threads) current =
    let more = worker_from (suc i) threads current in if thread == current then pos i else more

-- `queue_worker_id`, called by this thread.
unfoldable pub queue_worker_id : List ℕ → ℕ → ℤ
unfolding worker_from
queue_worker_id g_workers current = worker_from 0 g_workers current

worker_from-own :
    (i : ℕ) (threads : List ℕ) (current a : ℕ)
    → worker_from i threads current ≡ pos a
    → (k : ℕ) × (a ≡ i + k) × (get_elem? threads k ≡ some current)
unfolding worker_from
worker_from-own i [] current a e = absurd (ground (arith, e))
worker_from-own i (thread ∷ threads) current a e = elim (Bool-cases (thread == current)) [
  | inl same ↦ (0, ground (arith, e, same), ground (arith, same))
  | inr other ↦
      let (k, at, found) = worker_from-own (suc i) threads current a (ground (arith, e, other)) in
      (suc k, omega (arith, at), found)
]

-- The number that a worker finds is the one of its own thread.
pub queue_worker_id-own :
    (threads : List ℕ) (current a : ℕ)
    → queue_worker_id threads current ≡ pos a
    → get_elem? threads a ≡ some current
unfolding queue_worker_id
queue_worker_id-own threads current a e =
    let (k, at, found) = worker_from-own 0 threads current a e in
    ap (get_elem? threads) (omega (arith, at)) ∙ found

-- Threads with the same number are the same.
pub queue_worker_id_one :
    (threads : List ℕ) (s t a b : ℕ)
    → queue_worker_id threads s ≡ pos a
    → queue_worker_id threads t ≡ pos b
    → a ≡ b
    → s ≡ t
queue_worker_id_one threads s t a b es et same = some_cancel (
    sym (queue_worker_id-own threads s a es)
    ∙ ap (get_elem? threads) same
    ∙ queue_worker_id-own threads t b et)
