-- ===== src/Clients.antt =====
-- mq/test/test_server: the request objects of the queue clients (msgqueuemsg.py), and the loops of
-- the scripts that put messages and get them (test_put.py, test_get.py).
pub mod Serials
use domq.Prelude.{
  ℕ, zero, suc, ◌+◌, ◌/◌, ◌%◌, ltb, if◌then◌else◌, Bool, true, false, List, [], ◌∷◌, ◌++◌,
  Exception, name_error, attribute_error, Result, ok, raise, diverge, ◌>>=◌, Text,
}
use domq.Strings.{str}

-- The requests with a number of their own, with the fields that `__init__` sets.
pub data Request : Type 0 where
  get_msg : (serial_no : ℕ) (msg_queue_code : Text) (auto_reply : ℕ) → Request
  send_msg : (serial_no : ℕ) (msg_queue_code msg_data : Text) → Request

abbrev pub serial_no : Request → ℕ
serial_no (get_msg serial code auto_reply) = serial
serial_no (send_msg serial code data_) = serial

-- `genMsgNo`: the number, and the new value of `g_msgid`.
unfoldable pub gen_msg_no : ℕ → ℕ × ℕ
gen_msg_no g_msgid = (g_msgid + 1, g_msgid + 1)

-- `GetMsgRequest( msgQueueCode )`
unfoldable pub new_get : Text → ℕ → Request × ℕ
unfolding gen_msg_no
new_get code g_msgid = let (serial, after) = gen_msg_no g_msgid in (get_msg serial code 1, after)

-- `SendMsgRequest( msgQueueCode, data )`
unfoldable pub new_send : Text → Text → ℕ → Request × ℕ
unfolding gen_msg_no
new_send code data_ g_msgid =
    let (serial, after) = gen_msg_no g_msgid in (send_msg serial code data_, after)

-- `repr(req)` is `json.dumps(self.data)`, and no request has an attribute `data`.
abbrev pub repr : Request → Result Text
repr (get_msg serial code auto_reply) = raise attribute_error
repr (send_msg serial code data_) = raise attribute_error

-- `conn.sendAndRecvMsg( req )` as a step of the connection, and `NetConnection( tran, HOST, PORT )`.
module _ {Conn : Type 0} (send_and_recv_msg : Request → Conn → Result Conn)
    (connect : Conn → Result Conn) where
  -- The `except` branch. Its report names `end`, which is set when an exchange has succeeded before,
  -- or was set at the start, and then the request; a new connection would be made behind it.
  unfoldable pub reconnect : Bool → Request → Conn → Result Conn
  reconnect end_is_set req conn =
      if end_is_set then (do shown ← repr req; connect conn) else raise name_error

  abbrev pub after_try : Bool → Request → Conn → Result Conn → Result (Conn × Bool)
  after_try end_is_set req conn (ok after) = ok (after, true)
  after_try end_is_set req conn (raise e) = do
    fresh ← reconnect end_is_set req conn
    ok (fresh, end_is_set)
  after_try end_is_set req conn diverge = diverge

  -- `try: res = conn.sendAndRecvMsg(req) ... except: ... conn = NetConnection(...)`
  unfoldable pub try_exchange : Bool → Request → Conn → Result (Conn × Bool)
  unfolding reconnect
  try_exchange end_is_set req conn = after_try end_is_set req conn (send_and_recv_msg req conn)

  -- The `for` loop, which makes the request of each round; the requests in order, `g_msgid` and the
  -- connection at the end.
  unfoldable pub request_loop :
      (ℕ → ℕ → Request × ℕ) → ℕ → ℕ → Bool → ℕ → Conn → Result (List Request × (ℕ × Conn))
  unfolding try_exchange
  request_loop make zero i end_is_set g_msgid conn = ok ([], (g_msgid, conn))
  request_loop make (suc left) i end_is_set g_msgid conn = do
    (after, is_set) ← try_exchange end_is_set (make i g_msgid).0 conn
    (requests, last) ← request_loop make left (suc i) is_set (make i g_msgid).1 after
    ok ((make i g_msgid).0 ∷ requests, last)

  -- The loop of test_put.py over `count` rounds: `end` is 0 at the start.
  unfoldable pub put_loop : Text → Text → ℕ → ℕ → Conn → Result (List Request × (ℕ × Conn))
  unfolding request_loop str new_send
  put_loop code data_ count g_msgid conn =
      request_loop (λ i g. new_send code (data_ ++ b'_' ∷ str i) g) count 0 true g_msgid conn

  -- The loop of test_get.py: `end` is not set at the start.
  unfoldable pub get_loop : Text → ℕ → ℕ → Conn → Result (List Request × (ℕ × Conn))
  unfolding request_loop new_get
  get_loop code count g_msgid conn = request_loop (λ i g. new_get code g) count 0 false g_msgid conn
