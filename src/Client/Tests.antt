-- ===== src/Client/Tests.antt =====
-- An answer that comes in two pieces.
use kudos_judge.Base.{◌≡◌, refl, [], ◌∷◌, ◌++◌, ok}
use kudos_judge.Client.Receive.Answer.{first_piece, receive_answer-response}
use kudos_judge.Client.Receive.{got, answers, receive_answer}
use kudos_judge.Interface.Send.{response}
use kudos_judge.Verdict.{accepted, codes, verdict_to_string}

receive_answer-response_example :
    (response accepted ≡ first_piece accepted (codes "ACC") ++ codes "EPTED")
    × (receive_answer [] (got (first_piece accepted (codes "ACC")) ∷ got (codes "EPTED") ∷ [])
        ≡ ok (answers (codes "ACC")))
unfolding verdict_to_string
receive_answer-response_example =
    receive_answer-response [] accepted (codes "ACC") (codes "EPTED") refl
