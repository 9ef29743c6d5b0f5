-- ===== src/Network/Exchange.antt =====
-- Whole exchanges: a frame out and a frame back, and a client's dialogue of many.
use domq.Prelude.{
  ℕ, ◌+◌, ◌-◌, List, [], ◌∷◌, ◌++◌, length, take, ok, ◌≡◌, refl, sym, ◌∙◌, ap, arith, append_assoc,
  append-nil, take-append_length, drop-append_length, take-length, length-append,
}
use domq.Wire.{Bytes, IsU32, quad, read_u32}
use domq.Wire.RoundTrip.{read_u32-quad}
use domq.Factory.{Factory}
use domq.Translator.{Codec, Message, encode, decode}
use domq.Translator.Frame.{frame}
use domq.Network.{Socket, send, recvn, send_and_recv, send_and_recv_msg, run_requests}
use domq.Network.Receive.{stream, IsOpen, recvn-reads}

-- The state of the socket after an exchange that sent `bytes`, with `rest` still to arrive.
pub record IsAfter (s : Socket) (bytes rest : Bytes) (t : Socket) : Type 0 where
  pub open_ : IsOpen t.incoming
  pub left : stream t.incoming ≡ rest
  pub sent : t.outgoing ≡ s.outgoing ++ take (s.accept (length bytes)) bytes
  pub same : t.accept ≡ s.accept

send_and_recv_steps :
    (bytes : Bytes) (s : Socket) (head body back : Bytes) (total : ℕ) (more after : List Bytes)
    → recvn 4 s.incoming ≡ ok (head, more)
    → read_u32 head ≡ ok (total, back)
    → recvn (total - 4) more ≡ ok (body, after)
    → send_and_recv bytes s ≡ ok (head ++ body, record (send bytes s) { incoming = after })
unfolding send_and_recv send
send_and_recv_steps bytes s head body back total more after e₁ e₂ e₃ = rw (e₁, e₂, e₃)

-- If a frame, which starts with its own length, is the next to arrive, then `send_and_recv` returns
-- just that frame, however it is cut into pieces.
pub send_and_recv-frame :
    (bytes : Bytes) (s : Socket) (payload rest : Bytes)
    → IsOpen s.incoming
    → IsU32 (length payload + 4)
    → stream s.incoming ≡ quad (length payload + 4) ++ (payload ++ rest)
    → (t : Socket) × (send_and_recv bytes s ≡ ok (quad (length payload + 4) ++ payload, t))
      × IsAfter s bytes rest t
unfolding send
send_and_recv-frame bytes s payload rest open_ small e =
    let (more, e₁, left₁, open₁) = recvn-reads 4 s.incoming open_ (rw e (omega arith)) in
    let to_come : stream more ≡ payload ++ rest = left₁ ∙ rw e in
    let size : length payload + 4 - 4 ≡ length payload = omega arith in
    let (after, e₂, left₂, open₂) =
      recvn-reads (length payload + 4 - 4) more open₁
        (rw to_come (omega (arith, length-append payload rest))) in
    let head : take 4 (stream s.incoming) ≡ quad (length payload + 4) = rw e in
    let body : take (length payload + 4 - 4) (stream more) ≡ payload =
      rw (to_come, size) (take-append_length payload rest) in
    (
      record (send bytes s) { incoming = after },
      send_and_recv_steps bytes s _ payload [] (length payload + 4) more after
          (e₁ ∙ ap (λ l. ok (l, more)) head) (read_u32-quad _ [] small)
          (e₂ ∙ ap (λ l. ok (l, after)) body),
      record {
        open_ = open₂;
        left = left₂ ∙ rw (to_come, size) (drop-append_length payload rest);
        sent = refl;
        same = refl;
      },
    )

abbrev payload_of : Bytes → Bytes → Bytes
payload_of name body = quad (length name) ++ (name ++ (quad (length body) ++ body))

length-payload_of :
    (name body : Bytes) → length (payload_of name body) + 4 ≡ length name + length body + 12
length-payload_of name body = omega (arith, length-append name (quad (length body) ++ body))

frame-payload :
    (name body : Bytes)
    → frame name body ≡ quad (length (payload_of name body) + 4) ++ payload_of name body
unfolding frame
frame-payload name body = rw (length-payload_of name body)

module _ (codec : Codec) (f : Factory (codec.Class)) where
  send_and_recv_msg_steps :
      (req res : Message codec) (sent received : Bytes) (s t : Socket)
      → encode codec f req ≡ ok sent
      → send_and_recv sent s ≡ ok (received, t)
      → decode codec f received ≡ ok res
      → send_and_recv_msg codec f req s ≡ ok (res, t)
  unfolding send_and_recv_msg
  send_and_recv_msg_steps req res sent received s t e₁ e₂ e₃ = rw (e₁, e₂, e₃)

  -- A request that can be written is answered by the message of the next frame to arrive.
  pub send_and_recv_msg-frame :
      (req res : Message codec) (sent name body rest : Bytes) (s : Socket)
      → encode codec f req ≡ ok sent
      → IsU32 (length name + length body + 12)
      → decode codec f (frame name body) ≡ ok res
      → IsOpen s.incoming
      → stream s.incoming ≡ frame name body ++ rest
      → (t : Socket) × (send_and_recv_msg codec f req s ≡ ok (res, t)) × IsAfter s sent rest t
  send_and_recv_msg-frame req res sent name body rest s made small read open_ e =
      let (t, got, after) =
        send_and_recv-frame sent s (payload_of name body) rest open_
          (rw (length-payload_of name body) small) (e ∙ rw (frame-payload name body)) in
      (
        t,
        send_and_recv_msg_steps req res sent (frame name body) s t made
            (got ∙ rw (frame-payload name body)) read,
        after,
      )

  -- Requests and their results, with the bytes of the requests and of the frames that answer them.
  pub data Dialogue : List (Message codec) → List (Message codec) → Bytes → Bytes → Type 0 where
    done : Dialogue [] [] [] []
    turn :
        {reqs results : List (Message codec)} {out inc : Bytes} (req res : Message codec)
        (sent name body : Bytes)
        → encode codec f req ≡ ok sent
        → IsU32 (length name + length body + 12)
        → decode codec f (frame name body) ≡ ok res
        → Dialogue reqs results out inc
        → Dialogue (req ∷ reqs) (res ∷ results) (sent ++ out) (frame name body ++ inc)

  run_requests_steps :
      (req res : Message codec) (reqs results : List (Message codec)) (s t u : Socket)
      → send_and_recv_msg codec f req s ≡ ok (res, t)
      → run_requests codec f reqs t ≡ ok (results, u)
      → run_requests codec f (req ∷ reqs) s ≡ ok (res ∷ results, u)
  unfolding run_requests
  run_requests_steps req res reqs results s t u e₁ e₂ = rw (e₁, e₂)

  -- A client that sends a list of requests over one connection, to a peer whose answers arrive one
  -- after the other in any pieces, returns the answers in order. What it has sent then is all of the
  -- requests in order, provided that the system takes each request whole, and what it leaves in the
  -- connection is all that follows the last answer.
  pub run_requests-Dialogue :
      (reqs results : List (Message codec)) (out inc rest : Bytes) (s : Socket)
      → Dialogue reqs results out inc
      → ((n : ℕ) → s.accept n ≡ n)
      → IsOpen s.incoming
      → stream s.incoming ≡ inc ++ rest
      → (t : Socket) × (run_requests codec f reqs s ≡ ok (results, t))
        × (t.outgoing ≡ s.outgoing ++ out)
        × (stream t.incoming ≡ rest)
  run_requests-Dialogue reqs results out inc rest s done whole open_ e =
      (s, unfold run_requests in refl, sym (append-nil s.outgoing), e)
  run_requests-Dialogue reqs results out inc rest s
        (turn {reqs = more} {results = others} {out = out'} {inc = inc'} req res sent name body made
          small read d)
        whole open_ e =
      let (t, answered, after) =
        send_and_recv_msg-frame req res sent name body (inc' ++ rest) s made small read open_
          (e ∙ append_assoc (frame name body) inc' rest) in
      let (u, finished, all_sent, all_read) =
        run_requests-Dialogue more others out' inc' rest t d
          (λ n. ap (λ g. g n) after.same ∙ whole n) after.open_ after.left in
      let all_taken : take (s.accept (length sent)) sent ≡ sent =
        ap (λ k. take k sent) (whole (length sent)) ∙ take-length sent in
      let sent_now : t.outgoing ≡ s.outgoing ++ sent =
        after.sent ∙ ap (λ l. s.outgoing ++ l) all_taken in
      (
        u,
        run_requests_steps req res more others s t u answered finished,
        all_sent ∙ ap (λ l. l ++ out') sent_now ∙ append_assoc s.outgoing sent out',
        all_read,
      )
