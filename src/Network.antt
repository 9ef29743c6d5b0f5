-- ===== src/Network.antt =====
-- framework/test/test_connectionmgr/network.py: a client's connection, which sends one frame and
-- reads one frame back. The socket is the operating system's, so what it does is given with it: the
-- pieces in which the peer's bytes arrive, and how much of a `send` it takes.
pub mod Receive
pub mod Exchange
pub mod Returned
pub mod Session
use domq.Prelude.{
  ℕ, zero, suc, ◌+◌, ◌-◌, ◌<◌, ltb, leb, if◌then◌else◌, List, [], ◌∷◌, ◌++◌, length, take, drop,
  All, Result, ok, diverge, ◌>>=◌,
}
use domq.Wire.{Bytes, read_u32}
use domq.Factory.{Factory}
use domq.Translator.{Codec, Message, encode, decode}

-- `incoming` holds a piece for each `recv` that takes all that there is. When it is used up the peer
-- has closed the connection. `accept n` is what `send` returns for n bytes.
pub record Socket : Type 0 where
  pub incoming : List Bytes
  pub outgoing : Bytes
  pub accept : ℕ → ℕ

-- `socket.recv(k)`: at most k bytes of the next piece, and none when the peer has closed.
unfoldable pub recv : ℕ → List Bytes → Bytes × List Bytes
recv k [] = ([], [])
recv k (piece ∷ more) =
    if leb (length piece) k then (piece, more) else (take k piece, drop k piece ∷ more)

-- `socket.send(data)`, whose result the program drops.
unfoldable pub send : Bytes → Socket → Socket
send bytes s = record s { outgoing = s.outgoing ++ take (s.accept (length bytes)) bytes }

-- The loop of `NetConnection.recvn`.
unfoldable pub recvn_loop : ℕ → ℕ → ℕ → Bytes → List Bytes → Result (Bytes × List Bytes)
recvn_loop zero n offset buffer incoming = if ltb offset n then diverge else ok (buffer, incoming)
recvn_loop (suc fuel) n offset buffer incoming =
    let (piece, more) = recv (n - offset) incoming in
    let rest = recvn_loop fuel n (offset + length piece) (buffer ++ piece) more in
    if ltb offset n then rest else ok (buffer, incoming)

-- `NetConnection.recvn`. A round that does not read a byte at least finds the connection closed, and
-- so do all rounds after it: n rounds are enough or none are.
unfoldable pub recvn : ℕ → List Bytes → Result (Bytes × List Bytes)
recvn n incoming = recvn_loop n n 0 [] incoming

-- `NetConnection.sendAndRecv`. A length below four asks `recvn` for less than no byte, which is none.
unfoldable pub send_and_recv : Bytes → Socket → Result (Bytes × Socket)
send_and_recv bytes s = do
  let sent = send bytes s
  (head, more) ← recvn 4 sent.incoming
  (total, _) ← read_u32 head
  (rest, after) ← recvn (total - 4) more
  ok (head ++ rest, record sent { incoming = after })

module _ (codec : Codec) (f : Factory (codec.Class)) where
  -- `NetConnection.sendAndRecvMsg`, and `NetConnection.send`, which has the same body.
  unfoldable pub send_and_recv_msg : Message codec → Socket → Result (Message codec × Socket)
  send_and_recv_msg req s = do
    msg ← encode codec f req
    (received, after) ← send_and_recv msg s
    res ← decode codec f received
    ok (res, after)

  -- A client's loop of requests over one connection, and the results in order.
  unfoldable pub run_requests :
      List (Message codec) → Socket → Result (List (Message codec) × Socket)
  run_requests [] s = ok ([], s)
  run_requests (req ∷ more) s = do
    (res, after) ← send_and_recv_msg req s
    (results, last) ← run_requests more after
    ok (res ∷ results, last)
