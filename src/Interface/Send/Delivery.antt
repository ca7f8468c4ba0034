-- ===== src/Interface/Send/Delivery.antt =====
-- What `jug_int_send_verdict` sends, and what its return value says of it.
use kudos_judge.Base.{
  ℕ, zero, suc, ◌≤◌, ◌≡◌, refl, sym, ap, ◌∙◌, some, List, [], ◌∷◌, ◌++◌, append_assoc, append-nil,
  Bytes, All, pos, length, length-drop, take, drop, take-append-drop, ok, arith,
}
use kudos_judge.Interface.Decode.RoundTrip.{number_line-decimal_onto}
use kudos_judge.Interface.Request.{number_line}
use kudos_judge.Interface.Send.{Send, took, refused, Sent, send_loop, send_verdict, response}
use kudos_judge.Verdict.{Verdict, verdict_to_string}

-- The loop behind a part of the text `whole`: it goes out from the start, and all of it where the
-- last `send` took something.
send_loop-prefix :
    (sends : List Send) (rest : Bytes) (s t : Sent) (whole : Bytes)
    → whole ≡ s.bytes ++ rest
    → send_loop sends rest s ≡ some t
    → (unsent : Bytes) × (whole ≡ t.bytes ++ unsent)
      × ((n : ℕ) → t.bytes_sent ≡ pos (suc n) → unsent ≡ [])
unfolding send_loop
send_loop-prefix sends [] s t whole e h = ([], ground arith, λ n _. refl)
send_loop-prefix [] (c ∷ rest) s t whole e h = absurd (ground arith)
send_loop-prefix (refused ∷ sends) (c ∷ rest) s t whole e h =
    (c ∷ rest, ground arith, λ n k. absurd (ground arith))
send_loop-prefix (took zero ∷ sends) (c ∷ rest) s t whole e h =
    (c ∷ rest, ground arith, λ n k. absurd (ground arith))
send_loop-prefix (took (suc n) ∷ sends) (c ∷ rest) s t whole e h =
    send_loop-prefix sends (drop n rest) _ t whole
      (e
        ∙ ap (λ r. s.bytes ++ (c ∷ r)) (sym (take-append-drop n rest))
        ∙ sym (append_assoc s.bytes (c ∷ take n rest) (drop n rest)))
      h

-- Whatever send returns, what goes out before the loop ends is the start of the response; a
-- positive return value says that all of it has gone out; and the response reads as the length and
-- the name of the verdict.
pub send_verdict-response :
    (sends : List Send) (verdict : Verdict) (t : Sent)
    → send_verdict sends verdict ≡ some t
    → (unsent : Bytes) × (response verdict ≡ t.bytes ++ unsent)
      × ((n : ℕ) → t.bytes_sent ≡ pos (suc n) → unsent ≡ [])
      × (number_line (response verdict)
          ≡ ok (pos (length (verdict_to_string verdict)), verdict_to_string verdict))
unfolding send_verdict
send_verdict-response sends verdict t h =
    let (unsent, e, all) =
      send_loop-prefix sends (response verdict) _ t (response verdict) refl h in
    (
      unsent,
      e,
      all,
      number_line-decimal_onto (length (verdict_to_string verdict)) (verdict_to_string verdict),
    )

-- A `send` that takes something.
abbrev pub Takes : Send → Type 0
Takes (took (suc n)) = Unit {0}
Takes _ = ⊥

pub send_loop_total :
    (sends : List Send) (rest : Bytes) (s : Sent)
    → All Takes sends
    → length rest ≤ length sends
    → (t : Sent) × (send_loop sends rest s ≡ some t)
unfolding send_loop
send_loop_total sends [] s h le = (s, refl)
send_loop_total [] (c ∷ rest) s h le = absurd (omega arith)
send_loop_total (refused ∷ sends) (c ∷ rest) s h le = absurd h.0
send_loop_total (took zero ∷ sends) (c ∷ rest) s h le = absurd h.0
send_loop_total (took (suc n) ∷ sends) (c ∷ rest) s h le =
    send_loop_total sends (drop n rest) _ h.1 (omega (arith, length-drop n rest))

pub send_loop-whole :
    (sends : List Send) (rest : Bytes) (s t : Sent)
    → All Takes sends
    → send_loop sends rest s ≡ some t
    → t.bytes ≡ s.bytes ++ rest
unfolding send_loop
send_loop-whole sends [] s t h e = ground (arith, append-nil s.bytes)
send_loop-whole [] (c ∷ rest) s t h e = absurd (ground arith)
send_loop-whole (refused ∷ sends) (c ∷ rest) s t h e = absurd h.0
send_loop-whole (took zero ∷ sends) (c ∷ rest) s t h e = absurd h.0
send_loop-whole (took (suc n) ∷ sends) (c ∷ rest) s t h e =
    send_loop-whole sends (drop n rest) _ t h.1 e
    ∙ append_assoc s.bytes (c ∷ take n rest) (drop n rest)
    ∙ ap (λ r. s.bytes ++ (c ∷ r)) (take-append-drop n rest)

-- A socket that always takes something gets the whole response within as many calls as the
-- response has bytes.
pub send_verdict_total :
    (sends : List Send) (verdict : Verdict)
    → All Takes sends
    → length (response verdict) ≤ length sends
    → (t : Sent) × (send_verdict sends verdict ≡ some t) × (t.bytes ≡ response verdict)
unfolding send_verdict
send_verdict_total sends verdict h le =
    let (t, e) = send_loop_total sends (response verdict) _ h le in
    (t, e, send_loop-whole sends (response verdict) _ t h e)
