-- ===== src/Interface/Receive/Prefix.antt =====
-- A prefix of a header line with its body, for `jug_int_receive`.
use kudos_judge.Base.{
  ℕ, zero, suc, ◌-◌, ◌<◌, ◌≡◌, ◌≢◌, refl, ap, ◌∙◌, ◌⊎◌, inl, inr, [], ◌∷◌, ◌++◌, Bytes, All, arith,
  length, take, drop,
}
use kudos_judge.Decimal.RoundTrip.{IsDigit}
use kudos_judge.Interface.BufferLib.{NoNewline}

-- What has come of `h ++ "\n" ++ body`: nothing beyond `h`, or the newline too.
pub prefix_cases :
    (h s r body : Bytes)
    → NoNewline h
    → s ++ r ≡ h ++ (b'\n' ∷ body)
    → NoNewline s ⊎ ((t : Bytes) × (s ≡ h ++ (b'\n' ∷ t)) × (t ++ r ≡ body))
prefix_cases h [] r body nn e = inl tt
prefix_cases [] (c ∷ s) r body nn e = inr (s, ground arith, ground arith)
prefix_cases (d ∷ h) (c ∷ s) r body nn e = elim (prefix_cases h s r body nn.1 (ground arith)) [
  | inl a ↦ inl (ground arith, a)
  | inr (t, e', e'') ↦ inr (t, ground arith, e'')
]

pub drop-take-behind :
    (h : Bytes) (c k : ℕ) (body : Bytes)
    → drop (suc (length h)) (take k (h ++ (c ∷ body))) ≡ take (k - suc (length h)) body
drop-take-behind [] c zero body = refl
drop-take-behind [] c (suc k) body = ap (λ n. take n body) (omega arith)
drop-take-behind (d ∷ h) c zero body =
    let none_left : 0 - suc (suc (length h)) ≡ 0 = omega arith in rw none_left refl
drop-take-behind (d ∷ h) c (suc k) body =
    drop-take-behind h c k body ∙ ap (λ n. take n body) (omega arith)

pub IsDigit-NoNewline : (s : Bytes) → All IsDigit s → NoNewline s
IsDigit-NoNewline [] h = tt
IsDigit-NoNewline (c ∷ s) h = (ground arith, IsDigit-NoNewline s h.1)

pub nonempty : (s : Bytes) → s ≢ [] → 0 < length s
nonempty [] h = absurd (h refl)
nonempty (c ∷ s) h = omega arith
