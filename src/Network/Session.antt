-- ===== src/Network/Session.antt =====
-- framework/test/test_connectionmgr/network.py: the life of a connection, from `NetConnection( trans,
-- host, port )` to `close`.
use domq.Prelude.{ℕ, List, [], ◌∷◌, Result, ok, raise, io_error, ◌>>=◌, Text}
use domq.Factory.{Factory}
use domq.Translator.{Codec, Message, encode}
use domq.Network.{Socket, send_and_recv_msg}

-- The parameter `port`: a number, or the path of a socket.
pub data Port : Type 0 where
  number : ℕ → Port
  path : Text → Port

-- What `socket.connect` is given, by the family of the socket.
pub data Endpoint : Type 0 where
  inet : (host : Text) (port : ℕ) → Endpoint
  unix : (path : Text) → Endpoint

abbrev pub endpoint_of : Text → Port → Endpoint
endpoint_of host (number port) = inet host port
endpoint_of host (path p) = unix p

-- The attribute `s`: a socket that is connected, or one that is closed.
pub data Connection : Type 0 where
  connected : Socket → Connection
  closed : Connection

-- `NetConnection.__init__`, for what the system makes of the connection.
unfoldable pub open_connection : (Endpoint → Result Socket) → Text → Port → Result Connection
open_connection connect host port = do s ← connect (endpoint_of host port); ok (connected s)

-- `NetConnection.close`. A socket can be closed again.
abbrev pub close : Connection → Connection
close connection = closed

module _ (codec : Codec) (f : Factory (codec.Class)) where
  -- `sendAndRecvMsg` on a connection: on a closed socket `send` raises socket.error, an IOError, when
  -- the message has been encoded.
  unfoldable pub ask : Message codec → Connection → Result (Message codec × Connection)
  ask req (connected s) = do
    (res, after) ← send_and_recv_msg codec f req s
    ok (res, connected after)
  ask req closed = do msg ← encode codec f req; raise io_error

  -- A client that connects, makes its requests and closes the connection.
  unfoldable pub session :
      (Endpoint → Result Socket)
      → Text
      → Port
      → List (Message codec)
      → Result (List (Message codec) × Connection)
  unfolding ask open_connection
  session connect host port reqs = do
    connection ← open_connection connect host port
    (results, last) ← requests reqs connection
    ok (results, close last)
    where
      requests : List (Message codec) → Connection → Result (List (Message codec) × Connection)
      requests [] connection = ok ([], connection)
      requests (req ∷ more) connection = do
        (res, after) ← ask req connection
        (results, last) ← requests more after
        ok (res ∷ results, last)
