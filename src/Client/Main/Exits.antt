-- ===== src/Client/Main/Exits.antt =====
-- What comes of a call of the client.
use kudos_judge.Base.{
  ℕ, zero, suc, ◌+◌, ◌*◌, ◌<◌, ◌≤◌, ◌≡◌, refl, sym, ap, ◌∙◌, true, Option, none, some, List, [],
  ◌∷◌, ◌++◌, append_assoc, append-nil, Bytes, All, arith, ok, fault, length, take, drop, leb,
  Bool-cases, ◌⊎◌, c_string, ◌>>=◌, ◌/◌, ◌%◌, inl, inr, false, pos,
}
use kudos_judge.Client.Main.{
  Calls, main, arguments, converse, kudosjudge_send, printed, is_host_flag, host_size,
  print_hr_duration,
}
use kudos_judge.Client.Receive.{Received, receive_answer}
use kudos_judge.Client.{forge, read_text, file_size}
use kudos_judge.Decimal.{decimal_onto}
use kudos_judge.Verdict.{codes}
use kudos_judge.Interface.Send.Delivery.{Takes, send_loop_total, send_loop-whole}
use kudos_judge.Interface.Send.{Send, took, refused, Sent, send_loop}

-- Called with three files, the client sends the request and prints what it receives.
pub main-printed :
    (c : Calls) (program s i o source input output request sent : Bytes) (reply : Received)
    → c.socket ≡ true
    → c.connect ≡ true
    → c.fopen (some s) ≡ some source
    → c.fopen (some i) ≡ some input
    → c.fopen (some o) ≡ some output
    → forge (some source) (some input) (some output) ≡ ok request
    → kudosjudge_send c.sends request ≡ some sent
    → receive_answer c.init c.arrivals ≡ ok reply
    → main c (program ∷ s ∷ i ∷ o ∷ []) ≡ ok (printed sent reply)
unfolding main arguments converse
main-printed c program s i o source input output request sent reply up linked es ei eo forged gone
      e =
    simp (main, arguments, converse, ◌>>=◌, up, linked, es, ei, eo, forged, gone, e)

read_text-cases :
    (room : ℕ) (file : Option Bytes)
    → (read_text room file ≡ fault) ⊎ ((text : Bytes) × (read_text room file ≡ ok text))
unfolding read_text
read_text-cases room none = inl refl
read_text-cases room (some content) = elim (Bool-cases (leb 10000 (length content))) [
  | inl full ↦ inl (rw full refl)
  | inr part ↦ elim (Bool-cases (leb room (length (c_string content)))) [
    | inl long ↦ inl (rw (part, long) refl)
    | inr fits ↦ inr (c_string content, rw (part, fits) refl)
  ]
]

forge_unnamed : (source input : Option Bytes) → forge source input none ≡ fault
unfolding forge
forge_unnamed source input = elim (read_text-cases 1000 source) [
  | inl bad ↦ simp (forge, ◌>>=◌, bad)
  | inr (text, good) ↦ elim (read_text-cases (file_size input + 1) input) [
    | inl bad ↦ simp (forge, ◌>>=◌, good, bad)
    | inr (text', good') ↦ simp (forge, ◌>>=◌, good, good', read_text)
  ]
]

-- Called with -h, a host that fits its array and only two files, a client whose socket connects
-- works on a file that did not open, where fopen does not open NULL.
pub main_unnamed :
    (c : Calls) (program flag host s i : Bytes)
    → is_host_flag flag ≡ true
    → length host < host_size
    → c.socket ≡ true
    → c.connect ≡ true
    → c.fopen none ≡ none
    → main c (program ∷ flag ∷ host ∷ s ∷ i ∷ []) ≡ fault
unfolding main arguments
main_unnamed c program flag host s i flagged fits up linked missing =
    let short : leb host_size (length host) ≡ false = ground (arith, fits) in
    simp (
      main,
      arguments,
      ◌>>=◌,
      flagged,
      short,
      up,
      linked,
      missing,
      forge_unnamed (c.fopen (some s)) (c.fopen (some i)),
    )

-- What goes out is what the server's loop of the same kind sends.
pub kudosjudge_send-send_loop :
    (sends : List Send) (s : Bytes) (st t : Sent)
    → send_loop sends s st ≡ some t
    → (sent : Bytes) × (kudosjudge_send sends s ≡ some sent) × (t.bytes ≡ st.bytes ++ sent)
unfolding kudosjudge_send send_loop
kudosjudge_send-send_loop sends [] st t e = ([], refl, ground (arith, e, append-nil st.bytes))
kudosjudge_send-send_loop [] (c ∷ s) st t e = absurd (ground (arith, e))
kudosjudge_send-send_loop (refused ∷ sends) (c ∷ s) st t e =
    ([], refl, ground (arith, e, append-nil st.bytes))
kudosjudge_send-send_loop (took zero ∷ sends) (c ∷ s) st t e =
    ([], refl, ground (arith, e, append-nil st.bytes))
kudosjudge_send-send_loop (took (suc n) ∷ sends) (c ∷ s) st t e =
    let (more, gone, same) = kudosjudge_send-send_loop sends (drop n s) _ t e in
    (c ∷ (take n s ++ more), onward gone, same ∙ append_assoc st.bytes (c ∷ take n s) more)
  where
    onward :
        {more : Bytes}
        → kudosjudge_send sends (drop n s) ≡ some more
        → kudosjudge_send (took (suc n) ∷ sends) (c ∷ s) ≡ some (c ∷ (take n s ++ more))
    onward gone = simp (kudosjudge_send, gone)

-- A socket that always takes something gets the whole request.
pub kudosjudge_send_total :
    (sends : List Send) (s : Bytes)
    → All Takes sends
    → length s ≤ length sends
    → kudosjudge_send sends s ≡ some s
kudosjudge_send_total sends s h le =
    let empty : Sent = record { bytes = []; bytes_sent = pos 0 } in
    let (t, e) = send_loop_total sends s empty h le in
    let (sent, gone, same) = kudosjudge_send-send_loop sends s empty t e in
    gone ∙ ap some (sym same ∙ send_loop-whole sends s empty t h e)

-- The three numbers that are printed make up the duration.
pub print_hr_duration-parts :
    (useconds : ℕ)
    → (s ms us : ℕ) × (print_hr_duration useconds
        ≡ decimal_onto s
            (codes "s " ++ decimal_onto ms (codes "ms " ++ decimal_onto us (codes "us\n"))))
      × (s * 1000000 + ms * 1000 + us ≡ useconds)
      × (ms < 1000)
      × (us < 1000)
unfolding print_hr_duration
print_hr_duration-parts useconds =
    let rest = useconds % 1000000 in
    (useconds / 1000000, rest / 1000, rest % 1000, refl, omega arith, omega arith, omega arith)
