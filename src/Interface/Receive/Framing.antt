-- ===== src/Interface/Receive/Framing.antt =====
-- `jug_int_receive` on a request in any pieces: what it hands to the decoder.
use kudos_judge.Base.{
  flatten, suc, ◌+◌, ◌-◌, ◌<◌, ◌≡◌, ◌≢◌, refl, sym, ap, ◌∙◌, ◌⊎◌, inl, inr, true, false, List, [],
  ◌∷◌, ◌++◌, map, append-nil, append_assoc, Bytes, All, arith, pos, length, length-append, take,
  drop, subst,
}
use kudos_judge.Client.{frame}
use kudos_judge.Decimal.{decimal, atoi}
use kudos_judge.Decimal.RoundTrip.{decimal-All, decimal_onto-append, atoi-decimal_onto, decimal_pos}
use kudos_judge.Interface.Receive.Prefix.{
  prefix_cases, drop-take-behind, IsDigit-NoNewline, nonempty,
}
use kudos_judge.Interface.BufferLib.{BufferLib, NoNewline, NoNul}
use kudos_judge.Interface.Receive.{
  Recv, got, request_size_max, message, Progress, start, read_metadata, take_piece, complete,
  cut_body, receive_loop, receive, is_pos,
}

module _ (lib : BufferLib) where
  open lib use {
    Buffer, new, append_n, get_string, size, indexof_newline, slice, indexof-at, indexof-absent,
    get_string-append_n, get_string-new, get_string-slice, length-le-size,
  }

  -- The buffer after these pieces.
  abbrev pub collect : Buffer → List Bytes → Buffer
  collect b [] = b
  collect b (s ∷ pieces) = collect (append_n b s) pieces

  module _ (body : Bytes) where
    abbrev head : Bytes
    head = decimal (length body)

    abbrev wire : Bytes
    wire = head ++ (b'\n' ∷ body)

    -- The state of the loop when `s` has come.
    record Read (p : Progress lib) (s : Bytes) : Type 0 where
      string : get_string p.request_buffer ≡ s
      count : p.read_size_acc ≡ length s
      metadata :
          ((p.metadata_read ≡ false) × NoNewline s)
          ⊎ ((p.metadata_read ≡ true)
              × (p.body_start_index ≡ pos (length head))
              × (p.request_size ≡ pos (length wire)))

    head-NoNewline : NoNewline head
    head-NoNewline = IsDigit-NoNewline head (decimal-All (length body))

    atoi-head :
        (b : Buffer) (t : Bytes)
        → get_string b ≡ head ++ (b'\n' ∷ t)
        → atoi (get_string b) ≡ pos (length body)
    atoi-head b t e =
        ap atoi (e ∙ sym (decimal_onto-append (length body) (b'\n' ∷ t)))
        ∙ atoi-decimal_onto (length body) b'\n' t refl

    read_metadata-Read :
        (p : Progress lib) (s r : Bytes)
        → get_string p.request_buffer ≡ s
        → p.read_size_acc ≡ length s
        → p.metadata_read ≡ false
        → s ++ r ≡ wire
        → Read (read_metadata lib p) s
    unfolding read_metadata is_pos
    read_metadata-Read p s r e n m split = elim (prefix_cases head s r body head-NoNewline split) [
      | inl nn ↦
          let absent = indexof-absent p.request_buffer (subst NoNewline (sym e) nn) in
          record {
            string = ground (arith, absent);
            count = ground (arith, absent);
            metadata = inl (ground (arith, absent), nn);
          }
      | inr (t, es, et) ↦
          let at = indexof-at p.request_buffer head t (e ∙ es) head-NoNewline in
          let value = atoi-head p.request_buffer t (e ∙ es) in
          let some_digit = decimal_pos (length body) in
          let total = length-append head (b'\n' ∷ body) in
          record {
            string = ground (arith, at, some_digit);
            count = ground (arith, at, some_digit);
            metadata = inr (
              ground (arith, at, some_digit),
              ground (arith, at, some_digit),
              ground (arith, at, some_digit, value, total),
            );
          }
    ]

    take_piece-Read :
        (p : Progress lib) (s c r : Bytes)
        → NoNul c
        → (s ++ c) ++ r ≡ wire
        → Read p s
        → Read (take_piece lib p c) (s ++ c)
    unfolding take_piece read_metadata
    take_piece-Read p s c r nul split v =
        let grown : get_string (append_n p.request_buffer c) ≡ s ++ c =
          get_string-append_n p.request_buffer c nul ∙ ap (λ b. b ++ c) v.string in
        let counted : p.read_size_acc + length c ≡ length (s ++ c) =
          omega (arith, v.count, length-append s c) in
        elim v.metadata [
          | inl (unread, _) ↦ read_metadata-Read _ (s ++ c) r grown counted unread split
          | inr (known, index, total) ↦ record {
            string = ground (arith, grown);
            count = ground (arith, counted);
            metadata = inr (ground arith, ground arith, ground arith);
          }
        ]

    take_piece-buffer :
        (p : Progress lib) (c : Bytes)
        → (take_piece lib p c).request_buffer ≡ append_n p.request_buffer c
    unfolding take_piece read_metadata
    take_piece-buffer p c = ground arith

    -- While bytes are due the loop goes on.
    not_complete :
        (p : Progress lib) (s : Bytes) → Read p s → length s < length wire → complete lib p ≡ false
    not_complete p s v short = ground (arith, v.metadata)

    newline-in-wire : (h : Bytes) → NoNewline (h ++ (b'\n' ∷ body)) → ⊥
    newline-in-wire [] nn = nn.0 refl
    newline-in-wire (c ∷ h) nn = newline-in-wire h nn.1

    is_complete : (p : Progress lib) → Read p wire → complete lib p ≡ true
    is_complete p v = elim v.metadata [
      | inl (_, none_yet) ↦ absurd (newline-in-wire head none_yet)
      | inr (known, _, total) ↦ ground arith
    ]

    cut_body-Read :
        (p : Progress lib)
        → Read p wire
        → 0 < length body
        → (r : Buffer) × (cut_body lib p ≡ message r)
          × (get_string r ≡ take (size p.request_buffer - 1 - suc (length head)) body)
    unfolding cut_body
    cut_body-Read p v some_body = elim v.metadata [
      | inl (_, none_yet) ↦ absurd (newline-in-wire head none_yet)
      | inr (known, index, _) ↦
          let total : length wire ≡ length head + suc (length body) =
            length-append head (b'\n' ∷ body) in
          let room = length-le-size p.request_buffer in
          let whole = ap length v.string in
          let (r, cut, text) =
            get_string-slice p.request_buffer (suc (length head)) (size p.request_buffer - 1)
              (omega arith) (omega arith) in
          (
            r,
            ground (arith, cut),
            text
                ∙ ap (λ w. drop (suc (length head)) (take (size p.request_buffer - 1) w)) v.string
                ∙ drop-take-behind head b'\n' (size p.request_buffer - 1) body,
          )
    ]

    loop_last :
        (p : Progress lib) (c : Bytes) (events : List Recv)
        → p.read_size_acc + length c < request_size_max
        → complete lib (take_piece lib p c) ≡ true
        → receive_loop lib (got c ∷ events) p ≡ cut_body lib (take_piece lib p c)
    unfolding receive_loop
    loop_last p c events small e = ground arith

    loop_more :
        (p : Progress lib) (c : Bytes) (events : List Recv)
        → p.read_size_acc + length c < request_size_max
        → complete lib (take_piece lib p c) ≡ false
        → receive_loop lib (got c ∷ events) p ≡ receive_loop lib events (take_piece lib p c)
    unfolding receive_loop
    loop_more p c events small e = ground arith

    receive_loop-Read :
        (c : Bytes) (pieces : List Bytes) (later : List Recv) (p : Progress lib) (s : Bytes)
        → All (λ t. (t ≢ []) × NoNul t) (c ∷ pieces)
        → (s ++ c) ++ flatten pieces ≡ wire
        → length wire < request_size_max
        → Read p s
        → (q : Progress lib) × (receive_loop lib (map got (c ∷ pieces) ++ later) p ≡ cut_body lib q)
          × Read q wire
          × (q.request_buffer ≡ collect p.request_buffer (c ∷ pieces))
    receive_loop-Read c [] later p s all split small v =
        let come : s ++ c ≡ wire = sym (append-nil (s ++ c)) ∙ split in
        let v' =
          subst (Read (take_piece lib p c)) come (take_piece-Read p s c [] all.0.1 split v) in
        let fits : p.read_size_acc + length c < request_size_max =
          omega (arith, v.count, length-append s c, ap length come) in
        (take_piece lib p c, loop_last p c later fits (is_complete _ v'), v', take_piece-buffer p c)
    receive_loop-Read c (d ∷ pieces) later p s all split small v =
        let v' = take_piece-Read p s c (d ++ flatten pieces) all.0.1 split v in
        let due : length (s ++ c) + length (d ++ flatten pieces) ≡ length wire =
          sym (length-append (s ++ c) (d ++ flatten pieces)) ∙ ap length split in
        let some_left : 0 < length d = nonempty d all.1.0.0 in
        let fits : p.read_size_acc + length c < request_size_max =
          omega (arith, v.count, length-append s c, due) in
        let open_end : length (s ++ c) < length wire =
          omega (arith, due, length-append d (flatten pieces)) in
        let (q, e, w, b) =
          receive_loop-Read d pieces later (take_piece lib p c) (s ++ c) all.1
            (append_assoc (s ++ c) d (flatten pieces) ∙ split) small v' in
        (
          q,
          loop_more p c (map got (d ∷ pieces) ++ later) fits (not_complete _ (s ++ c) v' open_end)
              ∙ e,
          w,
          b ∙ ap (λ x. collect (append_n x d) pieces) (take_piece-buffer p c),
        )

    start-Read : Read (start lib) []
    start-Read = record { string = get_string-new; count = refl; metadata = inl (refl, tt) }

    -- A request in any pieces with no NUL, whatever comes behind it: the decoder is handed the body up
    -- to the last byte but one of the buffer's room.
    pub receive-frame :
        (c : Bytes) (pieces : List Bytes) (later : List Recv)
        → All (λ t. (t ≢ []) × NoNul t) (c ∷ pieces)
        → flatten (c ∷ pieces) ≡ frame body
        → 0 < length body
        → length (frame body) < request_size_max
        → (r : Buffer) × (receive lib (map got (c ∷ pieces) ++ later) ≡ message r)
          × (get_string r
              ≡ take
                  (size (collect new (c ∷ pieces)) - 1 - suc (length (decimal (length body))))
                  body)
    unfolding receive
    receive-frame c pieces later all split some_body small =
        let framed : frame body ≡ wire = decimal_onto-append (length body) (b'\n' ∷ body) in
        let (q, e, v, b) =
          receive_loop-Read c pieces later (start lib) [] all (split ∙ framed)
            (omega (arith, ap length framed)) start-Read in
        let (r, cut, text) = cut_body-Read q v some_body in
        (r, e ∙ cut, text ∙ ap (λ x. take (size x - 1 - suc (length head)) body) b)
