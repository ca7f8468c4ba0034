-- ===== src/Interface/Send.antt =====
-- `jug_int_send_verdict` of interface.c: a verdict's name behind its length, sent in as many parts as
-- the socket takes.
pub mod Delivery
use kudos_judge.Base.{
  ℕ, zero, suc, ◌+◌, ◌-◌, Option, none, some, List, [], ◌∷◌, ◌++◌, Bytes, ℤ, pos, negsuc, length,
  take, drop,
}
use kudos_judge.Decimal.{decimal_onto}
use kudos_judge.Verdict.{Verdict, verdict_to_string}

-- `sprintf(response, "%d\n%s", (int)strlen(hr_vedict), hr_vedict)`
abbrev pub response : Verdict → Bytes
response verdict = let name = verdict_to_string verdict in decimal_onto (length name) (b'\n' ∷ name)

-- One return of `send`: a count, at most what it was given, or a failure.
pub data Send : Type 0 where
  took : ℕ → Send
  refused : Send

-- What has gone out, and the last `bytesSent`.
pub record Sent : Type 0 where
  pub bytes : Bytes
  pub bytes_sent : ℤ

-- `while(length > 0)`, with what `send` returns; `none` is a `send` that has not returned.
unfoldable pub send_loop : List Send → Bytes → Sent → Option Sent
send_loop sends [] s = some s
send_loop [] (c ∷ rest) s = none
send_loop (refused ∷ sends) (c ∷ rest) s = some (record s { bytes_sent = negsuc 0 })
send_loop (took zero ∷ sends) (c ∷ rest) s = some (record s { bytes_sent = pos 0 })
send_loop (took (suc n) ∷ sends) (c ∷ rest) s =
    send_loop sends (drop n rest)
      (record { bytes = s.bytes ++ (c ∷ take n rest); bytes_sent = pos (suc n) })

unfoldable pub send_verdict : List Send → Verdict → Option Sent
unfolding send_loop
send_verdict sends verdict =
    send_loop sends (response verdict) (record { bytes = []; bytes_sent = pos 0 })
