-- ===== src/Runner/Template/Handshake.antt =====
-- The invariant of the shared memory.
use kudos_judge.Base.{◌≡◌, refl, sym, ◌∙◌, true, false, List, [], ◌∷◌, ◌++◌, append-nil, arith}
use kudos_judge.Runner.Template.{
  start, ready, ok, Payload, request, reply, Shared, Client, idle, awaits_start, signals,
  awaits_ready, writes, sends, awaits_reply, reads, confirms, unlocks, Template, looping, sleeping,
  entered, awaits_request, reads_request, clones_watcher, writes_pid, answers_pid, awaits_ok,
  leaves, Ask, lock, see_start, signal, give_up, see_ready, write, send, see_reply, take_pid,
  confirm, unlock, Serve, announce, wake, interrupt_loop, interrupt_sleep, enter, see_request,
  read_request, clone_watcher, write_pid, answer, see_ok, leave, Reach, boot, asked, served,
}

-- The template process is done with the last request.
abbrev pub Quiet : Shared → Template → Type 0
Quiet m looping = m.pending ≡ false
Quiet m sleeping = m.pending ≡ false
Quiet m awaits_ok = (m.pending ≡ false) × (m.flag ≡ ok)
Quiet m leaves = (m.pending ≡ false) × (m.flag ≡ ok)
Quiet m _ = ⊥

-- The watchers that no thread has been told of.
abbrev pub Outstanding : Shared → List (Payload × Payload) → Type 0
Outstanding m rest = m.clones ≡ m.answers ++ rest

-- Where the two sides can stand together.
abbrev pub Joint : Shared → Client → Template → Type 0
Joint m idle t = Quiet m t × Outstanding m []
Joint m (awaits_start q) t = Quiet m t × Outstanding m []
Joint m (signals q) looping = (m.pending ≡ false) × (m.flag ≡ start) × Outstanding m []
Joint m (signals q) sleeping = (m.pending ≡ false) × (m.flag ≡ start) × Outstanding m []
Joint m (awaits_ready q) looping = (m.pending ≡ true) × (m.flag ≡ start) × Outstanding m []
Joint m (awaits_ready q) sleeping = (m.pending ≡ true) × (m.flag ≡ start) × Outstanding m []
Joint m (awaits_ready q) entered = (m.pending ≡ false) × (m.flag ≡ start) × Outstanding m []
Joint m (awaits_ready q) awaits_request = (m.pending ≡ false) × (m.flag ≡ ready) × Outstanding m []
Joint m (writes q) awaits_request = (m.pending ≡ false) × (m.flag ≡ ready) × Outstanding m []
Joint m (sends q) awaits_request =
    (m.pending ≡ false) × (m.flag ≡ ready) × (m.payload ≡ request q) × Outstanding m []
Joint m (awaits_reply q) awaits_request =
    (m.pending ≡ false) × (m.flag ≡ ok) × (m.payload ≡ request q) × Outstanding m []
Joint m (awaits_reply q) reads_request =
    (m.pending ≡ false) × (m.flag ≡ ok) × (m.payload ≡ request q) × Outstanding m []
Joint m (awaits_reply q) (clones_watcher p) =
    (m.pending ≡ false) × (m.flag ≡ ok) × (p ≡ request q) × Outstanding m []
Joint m (awaits_reply q) (writes_pid pid) =
    (m.pending ≡ false) × (m.flag ≡ ok) × Outstanding m ((request q, reply pid) ∷ [])
Joint m (awaits_reply q) answers_pid =
    (m.pending ≡ false) × (m.flag ≡ ok) × Outstanding m ((request q, m.payload) ∷ [])
Joint m (awaits_reply q) awaits_ok =
    (m.pending ≡ false) × (m.flag ≡ ready) × Outstanding m ((request q, m.payload) ∷ [])
Joint m (reads q) awaits_ok =
    (m.pending ≡ false) × (m.flag ≡ ready) × Outstanding m ((request q, m.payload) ∷ [])
Joint m (confirms q p) awaits_ok =
    (m.pending ≡ false) × (m.flag ≡ ready) × Outstanding m ((request q, p) ∷ [])
Joint m (unlocks q p) t = Quiet m t × Outstanding m ((request q, p) ∷ [])
Joint m _ _ = ⊥

Ask-Joint :
    {m m' : Shared} {c c' : Client} (t : Template) → Ask m c m' c' → Joint m c t → Joint m' c' t
Ask-Joint t (lock q) j = j
Ask-Joint looping (see_start e) j = ground arith
Ask-Joint _ (see_start e) j = ground arith
Ask-Joint looping signal j = ground arith
Ask-Joint _ signal j = ground arith
Ask-Joint looping give_up j = ground arith
Ask-Joint _ give_up j = ground arith
Ask-Joint looping (see_ready e) j = ground arith
Ask-Joint _ (see_ready e) j = ground arith
Ask-Joint looping write j = ground arith
Ask-Joint _ write j = ground arith
Ask-Joint looping send j = ground arith
Ask-Joint _ send j = ground arith
Ask-Joint looping (see_reply e) j = ground arith
Ask-Joint _ (see_reply e) j = ground arith
Ask-Joint looping take_pid j = ground arith
Ask-Joint _ take_pid j = ground arith
Ask-Joint looping confirm j = ground arith
Ask-Joint _ confirm j = ground arith
Ask-Joint t (unlock {q} {p}) (quiet, told) = (quiet, told ∙ sym (append-nil _))

Serve-Joint :
    {m m' : Shared} (c : Client) {t t' : Template} → Serve m t m' t' → Joint m c t → Joint m' c t'
Serve-Joint idle announce j = ground arith
Serve-Joint _ announce j = ground arith
Serve-Joint idle wake j = ground arith
Serve-Joint _ wake j = ground arith
Serve-Joint idle (interrupt_loop e) j = ground arith
Serve-Joint _ (interrupt_loop e) j = ground arith
Serve-Joint idle (interrupt_sleep e) j = ground arith
Serve-Joint _ (interrupt_sleep e) j = ground arith
Serve-Joint idle enter j = ground arith
Serve-Joint _ enter j = ground arith
Serve-Joint idle (see_request e) j = ground arith
Serve-Joint _ (see_request e) j = ground arith
Serve-Joint idle read_request j = ground arith
Serve-Joint _ read_request j = ground arith
Serve-Joint {m} (awaits_reply q) (clone_watcher pid) j = ground (arith, append-nil m.answers)
Serve-Joint idle (clone_watcher pid) j = ground arith
Serve-Joint _ (clone_watcher pid) j = ground arith
Serve-Joint idle write_pid j = ground arith
Serve-Joint _ write_pid j = ground arith
Serve-Joint idle answer j = ground arith
Serve-Joint _ answer j = ground arith
Serve-Joint idle (see_ok e) j = ground arith
Serve-Joint _ (see_ok e) j = ground arith
Serve-Joint idle leave j = ground arith
Serve-Joint _ leave j = ground arith

pub Reach-Joint : {m : Shared} {c : Client} {t : Template} → Reach m c t → Joint m c t
Reach-Joint boot = (refl, refl)
Reach-Joint (asked {t} r step) = Ask-Joint t step (Reach-Joint r)
Reach-Joint (served {c} r step) = Serve-Joint c step (Reach-Joint r)

-- In every interleaving, whenever no thread holds the mutex, the requests that were answered, each
-- with the pid that the thread read, are in this order those that a clone was tried for, each with
-- the pid of that clone, or -2 where it failed.
pub answers-clones : {m : Shared} {t : Template} → Reach m idle t → m.answers ≡ m.clones
answers-clones {m} r = sym ((Reach-Joint r).1 ∙ append-nil m.answers)
