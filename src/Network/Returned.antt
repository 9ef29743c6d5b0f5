-- ===== src/Network/Returned.antt =====
-- What has been sent and read when a client's requests have returned, whatever the peer sends.
use domq.Prelude.{
  ℕ, zero, suc, ◌+◌, ◌-◌, ◌≤◌, ltb, List, [], ◌∷◌, ◌++◌, map, length, take, Result, ok, ◌≡◌, refl,
  sym, ◌∙◌, ap, arith, All, length-append, take-append_length, append_assoc, append-nil, >>=-eq-ok,
  Bool-cases, inl, inr,
}
use mathlib.Core.Path.{subst}
use domq.Wire.{Bytes, read_u32}
use domq.Factory.{Factory}
use domq.Translator.{Codec, Message, encode, decode}
use domq.Network.{
  Socket, send, recv, recvn, recvn_loop, send_and_recv, send_and_recv_msg, run_requests,
}
use domq.Network.Receive.{stream, recv_lem}

-- What `recvn` has read when it returns.
abbrev HasRead : ℕ → List Bytes → Bytes → List Bytes → Type 0
HasRead n incoming got after = (length got ≡ n) × (stream incoming ≡ got ++ stream after)

loop_ended :
    (n offset : ℕ) (buffer : Bytes) (incoming : List Bytes) (bytes : Bytes) (after : List Bytes)
    → n ≤ offset
    → ◌≡◌ {A = Result (Bytes × List Bytes)} (ok (buffer, incoming)) (ok (bytes, after))
    → (got : Bytes) × (bytes ≡ buffer ++ got) × HasRead (n - offset) incoming got after
loop_ended n offset buffer incoming bytes after le e =
    let same : buffer ≡ bytes = cc in
    let left : incoming ≡ after = cc in
    ([], sym same ∙ sym (append-nil buffer), (omega arith, ap stream left))

recvn_loop-eq-ok :
    (fuel n offset : ℕ) (buffer : Bytes) (incoming : List Bytes) (bytes : Bytes)
    (after : List Bytes)
    → offset ≤ n
    → recvn_loop fuel n offset buffer incoming ≡ ok (bytes, after)
    → (got : Bytes) × (bytes ≡ buffer ++ got) × HasRead (n - offset) incoming got after
unfolding recvn_loop
recvn_loop-eq-ok zero n offset buffer incoming bytes after le e = elim (Bool-cases (ltb offset n)) [
  | inl more ↦ let stuck = rw more at e in cc
  | inr done ↦ loop_ended n offset buffer incoming bytes after (ground arith) (rw done at e)
]
recvn_loop-eq-ok (suc fuel) n offset buffer incoming bytes after le e =
    elim (Bool-cases (ltb offset n)) [
      | inl more ↦
          let (whole, short, _, _) = recv_lem (n - offset) incoming in
          let piece = (recv (n - offset) incoming).0 in
          let (got, same, (counted, read)) =
            recvn_loop-eq-ok fuel n (offset + length piece) (buffer ++ piece)
              (recv (n - offset) incoming).1 bytes after (omega arith) (rw more at e) in
          (
            piece ++ got,
            same ∙ append_assoc buffer piece got,
            (
              omega (arith, length-append piece got),
              sym whole ∙ ap (λ l. piece ++ l) read ∙ sym (append_assoc piece got (stream after)),
            ),
          )
      | inr done ↦ loop_ended n offset buffer incoming bytes after (ground arith) (rw done at e)
    ]

pub recvn-eq-ok :
    (n : ℕ) (incoming : List Bytes) (bytes : Bytes) (after : List Bytes)
    → recvn n incoming ≡ ok (bytes, after)
    → HasRead n incoming bytes after
unfolding recvn
recvn-eq-ok n incoming bytes after e =
    let (got, same, (counted, read)) =
      recvn_loop-eq-ok n n 0 [] incoming bytes after (omega arith) e in
    (ap length same ∙ counted ∙ omega arith, read ∙ ap (λ l. l ++ stream after) (sym same))

-- What one exchange leaves: the bytes that were taken are behind those that were sent before, and
-- what was read is the next of the stream, as long as its first four bytes say, and 4 at least.
pub record IsExchanged (bytes : Bytes) (s : Socket) (got : Bytes) (t : Socket) : Type 0 where
  pub sent : t.outgoing ≡ s.outgoing ++ take (s.accept (length bytes)) bytes
  pub accepts : t.accept ≡ s.accept
  pub read : stream s.incoming ≡ got ++ stream t.incoming
  pub counted :
      (total : ℕ) × (read_u32 (take 4 got) ≡ ok (total, [])) × (length got ≡ 4 + (total - 4))

read_u32-rest :
    (head : Bytes) (total : ℕ) (back : Bytes)
    → length head ≡ 4
    → read_u32 head ≡ ok (total, back)
    → read_u32 head ≡ ok (total, [])
unfolding read_u32
read_u32-rest (a ∷ b ∷ c ∷ d ∷ []) total back h e = cc
read_u32-rest [] total back h e = absurd (omega arith)
read_u32-rest (a ∷ []) total back h e = absurd (omega arith)
read_u32-rest (a ∷ b ∷ []) total back h e = absurd (omega arith)
read_u32-rest (a ∷ b ∷ c ∷ []) total back h e = absurd (omega arith)
read_u32-rest (a ∷ b ∷ c ∷ d ∷ f ∷ rest) total back h e = absurd (omega arith)

send_and_recv-eq-ok :
    (bytes : Bytes) (s : Socket) (got : Bytes) (t : Socket)
    → send_and_recv bytes s ≡ ok (got, t)
    → IsExchanged bytes s got t
unfolding send_and_recv send
send_and_recv-eq-ok bytes s got t e =
    let ((head, more), e₁, f₁) = >>=-eq-ok (recvn 4 s.incoming) _ e in
    let ((total, back), e₂, f₂) = >>=-eq-ok (read_u32 head) _ f₁ in
    let ((rest, after), e₃, f₃) = >>=-eq-ok (recvn (total - 4) more) _ f₂ in
    let (four, first) = recvn-eq-ok 4 s.incoming head more e₁ in
    let (counted, second) = recvn-eq-ok (total - 4) more rest after e₃ in
    let same : head ++ rest ≡ got = cc in
    let state : record (send bytes s) { incoming = after } ≡ t = cc in
    let start : take 4 got ≡ head =
      ap (take 4) (sym same)
      ∙ ap (λ n. take n (head ++ rest)) (sym four)
      ∙ take-append_length head rest in
    record {
      sent = ap (λ x. x.outgoing) (sym state);
      accepts = ap (λ x. x.accept) (sym state);
      read =
          first
          ∙ ap (λ l. head ++ l) second
          ∙ sym (append_assoc head rest (stream after))
          ∙ ap (λ l. l ++ stream after) same
          ∙ ap (λ (x : Socket). got ++ stream x.incoming) state;
      counted = (
        total,
        ap read_u32 start ∙ read_u32-rest head total back four e₂,
        sym (ap length same) ∙ length-append head rest ∙ omega arith,
      );
    }

module _ (codec : Codec) (f : Factory (codec.Class)) where
  -- A request with its answer, and the bytes of both.
  pub record Exchange : Type 0 where
    pub request : Message codec
    pub result : Message codec
    pub sent : Bytes
    pub got : Bytes

  -- The request was written as the bytes that were sent. The bytes that were read are a whole frame, as
  -- long as it says itself, and 4 at least, and are read as the answer.
  pub record IsWhole (e : Exchange) : Type 0 where
    pub encoded : encode codec f e.request ≡ ok e.sent
    pub decoded : decode codec f e.got ≡ ok e.result
    pub counted :
        (total : ℕ) × (read_u32 (take 4 e.got) ≡ ok (total, [])) × (length e.got ≡ 4 + (total - 4))

  abbrev pub all_sent : (ℕ → ℕ) → List Exchange → Bytes
  all_sent accept [] = []
  all_sent accept (e ∷ l) = take (accept (length e.sent)) e.sent ++ all_sent accept l

  abbrev pub all_got : List Exchange → Bytes
  all_got [] = []
  all_got (e ∷ l) = e.got ++ all_got l

  send_and_recv_msg-eq-ok :
      (req res : Message codec) (s t : Socket)
      → send_and_recv_msg codec f req s ≡ ok (res, t)
      → (e : Exchange) × (e.request ≡ req)
        × (e.result ≡ res)
        × IsWhole e
        × IsExchanged e.sent s e.got t
  unfolding send_and_recv_msg
  send_and_recv_msg-eq-ok req res s t e =
      let (sent, e₁, f₁) = >>=-eq-ok (encode codec f req) _ e in
      let ((got, after), e₂, f₂) = >>=-eq-ok (send_and_recv sent s) _ f₁ in
      let (answer, e₃, f₃) = >>=-eq-ok (decode codec f got) _ f₂ in
      let exchanged = send_and_recv-eq-ok sent s got after e₂ in
      let same : answer ≡ res = cc in
      let state : after ≡ t = cc in
      (
        record { request = req; result = answer; sent = sent; got = got },
        refl,
        same,
        record { encoded = e₁; decoded = e₃; counted = exchanged.counted },
        subst (IsExchanged sent s got) state exchanged,
      )

  -- Whenever the client's loop of requests returns, there is an exchange for each request, in order.
  -- The results are their answers; what has been sent is what the system took of their requests, one
  -- behind the other; and what was read from the stream are their frames, one behind the other, with
  -- no byte between them, and all that follows is left. Nothing is asked of the peer.
  pub run_requests-eq-ok :
      (reqs : List (Message codec)) (s : Socket) (results : List (Message codec)) (u : Socket)
      → run_requests codec f reqs s ≡ ok (results, u)
      → (l : List Exchange) × (map Exchange.request l ≡ reqs)
        × (map Exchange.result l ≡ results)
        × All IsWhole l
        × (u.outgoing ≡ s.outgoing ++ all_sent s.accept l)
        × (stream s.incoming ≡ all_got l ++ stream u.incoming)
  unfolding run_requests
  run_requests-eq-ok [] s results u e =
      let same : [] ≡ results = cc in
      let state : s ≡ u = cc in
      (
        [],
        refl,
        same,
        tt,
        ap (λ (x : Socket). x.outgoing) (sym state) ∙ sym (append-nil s.outgoing),
        ap (λ (x : Socket). stream x.incoming) state,
      )
  run_requests-eq-ok (req ∷ reqs) s results u e =
      let ((res, t), e₁, f₁) = >>=-eq-ok (send_and_recv_msg codec f req s) _ e in
      let ((more, last), e₂, f₂) = >>=-eq-ok (run_requests codec f reqs t) _ f₁ in
      let same : res ∷ more ≡ results = cc in
      let state : last ≡ u = cc in
      let (x, asked, answered, whole, exchanged) = send_and_recv_msg-eq-ok req res s t e₁ in
      let (l, all_asked, all_answered, all_whole, sent, read) =
        run_requests-eq-ok reqs t more last e₂ in
      let accepts : all_sent t.accept l ≡ all_sent s.accept l =
        ap (λ a. all_sent a l) exchanged.accepts in
      (
        x ∷ l,
        cc,
        cc,
        (whole, all_whole),
        ap (λ (x : Socket). x.outgoing) (sym state)
            ∙ sent
            ∙ ap (λ o. o ++ all_sent t.accept l) exchanged.sent
            ∙ ap (λ o. (s.outgoing ++ take (s.accept (length x.sent)) x.sent) ++ o) accepts
            ∙ append_assoc s.outgoing (take (s.accept (length x.sent)) x.sent)
                (all_sent s.accept l),
        exchanged.read
            ∙ ap (λ o. x.got ++ o) read
            ∙ sym (append_assoc x.got (all_got l) (stream last.incoming))
            ∙ ap (λ (y : Socket). (x.got ++ all_got l) ++ stream y.incoming) state,
      )
