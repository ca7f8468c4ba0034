-- ===== src/Runner/Template/Progress.antt =====
-- A request to the template process can always be brought to its answer.
use kudos_judge.Base.{◌≡◌, refl, true, Option, none, some, Bytes, pos}
use kudos_judge.Runner.Template.Handshake.{Quiet, Joint, Reach-Joint}
use kudos_judge.Runner.Template.{
  ready, ok, Payload, Shared, Client, idle, awaits_start, signals, awaits_ready, writes, sends,
  awaits_reply, reads, confirms, unlocks, Template, looping, sleeping, entered, awaits_request,
  reads_request, clones_watcher, writes_pid, answers_pid, awaits_ok, leaves, Ask, see_start, signal,
  see_ready, write, send, see_reply, take_pid, confirm, Serve, announce, wake, interrupt_loop,
  interrupt_sleep, enter, see_request, read_request, clone_watcher, write_pid, answer, see_ok,
  leave, Reach,
}

-- The request of the thread that holds the mutex.
abbrev pub request_of : Client → Option Bytes
request_of idle = none
request_of (awaits_start q) = some q
request_of (signals q) = some q
request_of (awaits_ready q) = some q
request_of (writes q) = some q
request_of (sends q) = some q
request_of (awaits_reply q) = some q
request_of (reads q) = some q
request_of (confirms q p) = some q
request_of (unlocks q p) = some q

-- Steps of both sides lead to the thread's unlocking of the mutex with an answer to this request; where
-- no thread holds it, there is nothing to come to.
pub data Leads : Option Bytes → Shared → Client → Template → Type 0 where
  free : {m : Shared} {t : Template} → Leads none m idle t
  told : {m : Shared} {t : Template} {q : Bytes} {p : Payload} → Leads (some q) m (unlocks q p) t
  asks :
      {m m' : Shared} {c c' : Client} {t : Template} {r : Option Bytes}
      → Ask m c m' c'
      → Leads r m' c' t
      → Leads r m c t
  serves :
      {m m' : Shared} {c : Client} {t t' : Template} {r : Option Bytes}
      → Serve m t m' t'
      → Leads r m' c t'
      → Leads r m c t

module _ (q : Bytes) where
  from_reads : (m : Shared) (t : Template) → Leads (some q) m (reads q) t
  from_reads m t = asks take_pid (asks confirm told)

  from_answer : (m : Shared) → m.flag ≡ ready → Leads (some q) m (awaits_reply q) awaits_ok
  from_answer m e = asks (see_reply e) (from_reads m awaits_ok)

  from_pid : (m : Shared) → Leads (some q) m (awaits_reply q) answers_pid
  from_pid m = serves answer (from_answer _ refl)

  from_clone : (m : Shared) (p : Payload) → Leads (some q) m (awaits_reply q) (clones_watcher p)
  from_clone m p = serves (clone_watcher (pos 1)) (serves write_pid (from_pid _))

  from_request : (m : Shared) → m.flag ≡ ok → Leads (some q) m (awaits_reply q) awaits_request
  from_request m e = serves (see_request e) (serves read_request (from_clone _ _))

  from_writes : (m : Shared) → Leads (some q) m (writes q) awaits_request
  from_writes m = asks write (asks send (from_request _ refl))

  from_ready : (m : Shared) → m.flag ≡ ready → Leads (some q) m (awaits_ready q) awaits_request
  from_ready m e = asks (see_ready e) (from_writes m)

  from_entered : (m : Shared) → Leads (some q) m (awaits_ready q) entered
  from_entered m = serves enter (from_ready _ refl)

  from_sleep : (m : Shared) → m.pending ≡ true → Leads (some q) m (awaits_ready q) sleeping
  from_sleep m e = serves (interrupt_sleep e) (from_entered _)

  from_loop : (m : Shared) → m.pending ≡ true → Leads (some q) m (awaits_ready q) looping
  from_loop m e = serves (interrupt_loop e) (from_entered _)

  from_looping : (m : Shared) → Leads (some q) m (awaits_start q) looping
  from_looping m = serves announce (asks (see_start refl) (asks signal (from_sleep _ refl)))

  from_quiet : (m : Shared) (t : Template) → Quiet m t → Leads (some q) m (awaits_start q) t
  from_quiet m looping quiet = from_looping m
  from_quiet m sleeping quiet = serves wake (from_looping m)
  from_quiet m awaits_ok (_, e) = serves (see_ok e) (serves leave (from_looping _))
  from_quiet m leaves quiet = serves leave (from_looping _)
  from_quiet m _ quiet = elim quiet [ ]

  Joint-Leads_ready :
      (m : Shared) (t : Template) → Joint m (awaits_ready q) t → Leads (some q) m (awaits_ready q) t
  Joint-Leads_ready m looping (e, _, _) = from_loop m e
  Joint-Leads_ready m sleeping (e, _, _) = from_sleep m e
  Joint-Leads_ready m entered j = from_entered m
  Joint-Leads_ready m awaits_request (_, e, _) = from_ready m e
  Joint-Leads_ready m _ j = elim j [ ]

  Joint-Leads_reply :
      (m : Shared) (t : Template) → Joint m (awaits_reply q) t → Leads (some q) m (awaits_reply q) t
  Joint-Leads_reply m awaits_request (_, e, _, _) = from_request m e
  Joint-Leads_reply m reads_request j = serves read_request (from_clone _ _)
  Joint-Leads_reply m (clones_watcher p) j = from_clone m p
  Joint-Leads_reply m (writes_pid pid) j = serves write_pid (from_pid _)
  Joint-Leads_reply m answers_pid j = from_pid m
  Joint-Leads_reply m awaits_ok (_, e, _) = from_answer m e
  Joint-Leads_reply m _ j = elim j [ ]

Joint-Leads : (m : Shared) (c : Client) (t : Template) → Joint m c t → Leads (request_of c) m c t
Joint-Leads m idle t j = free
Joint-Leads m (awaits_start q) t (quiet, _) = from_quiet q m t quiet
Joint-Leads m (signals q) looping j = asks signal (from_loop q _ refl)
Joint-Leads m (signals q) sleeping j = asks signal (from_sleep q _ refl)
Joint-Leads m (awaits_ready q) t j = Joint-Leads_ready q m t j
Joint-Leads m (writes q) awaits_request j = from_writes q m
Joint-Leads m (sends q) awaits_request j = asks send (from_request q _ refl)
Joint-Leads m (awaits_reply q) t j = Joint-Leads_reply q m t j
Joint-Leads m (reads q) t j = from_reads q m t
Joint-Leads m (confirms q p) t j = asks confirm told
Joint-Leads m (unlocks q p) t j = told
Joint-Leads m _ _ j = elim j [ ]

-- From every state that the interleavings reach with a thread in possession of the mutex, there
-- are steps of the two sides by which this thread comes to unlock it with an answer read for its
-- own request.
pub Reach-Leads :
    {m : Shared} {c : Client} {t : Template} → Reach m c t → Leads (request_of c) m c t
Reach-Leads {m} {c} {t} r = Joint-Leads m c t (Reach-Joint r)
