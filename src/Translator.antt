-- ===== src/Translator.antt =====
-- framework/test/test_connectionmgr/translator.py: messages as frames of bytes. A frame is its own
-- length, the length of the class name, the name, the length of the body, and the body.
pub mod Frame
pub mod RoundTrip
pub mod Errors
pub mod Typing
use domq.Prelude.{
  ℕ, ◌+◌, Option, none, some, List, [], ◌∷◌, ◌++◌, length, drop, Bool, if◌then◌else◌, ltb, Result,
  ok, raise, type_error, ◌>>=◌,
}
use domq.Wire.{Bytes, number, text, int, str, pack, pack_sized, unpack_two, unpack_name}
use domq.Factory.{Factory, create, get_class_name}

-- What the message classes bring: protobuf's `SerializeToString` and `ParseFromString`, or the
-- methods `jsonEncode` and `jsonDecode`, by the object's class. `initial` is the state of an object
-- that its class has just made, and `decode` the state after reading a body in another state.
pub record Codec : Type 1 where
  pub Class : Type 0
  pub same_class : Discrete Class
  pub Payload : Type 0
  pub initial : Class → Payload
  pub encode : Class → Payload → Result (Option Bytes)
  pub decode : Class → Payload → Bytes → Result Payload

-- `len(x)` and `struct.pack` of a value that may be Python's `None`.
abbrev pub text_of : Option Bytes → Result Bytes
text_of none = raise type_error
text_of (some x) = ok x

-- `struct.pack('>I' + str(len(x)) + 's', len(x), x)`
unfoldable pub pack_field : Bytes → Result Bytes
pack_field x = pack_sized (length x) x

-- The frame around a joined name and body: the length counts its own four bytes.
unfoldable pub pack_frame : Bytes → Result Bytes
pack_frame fields = pack_sized (length fields + 4) fields

-- The name and the body, which are at hand when the first of them is packed, as a frame.
unfoldable pub pack_fields : Bytes → Option Bytes → Result Bytes
pack_fields name result = do
  name_field ← pack_field name
  body ← text_of result
  body_field ← pack_field body
  pack_frame (name_field ++ body_field)

module _ (codec : Codec) where
  open codec use {Class, same_class, Payload, initial, encode as encode_body, decode as decode_body}

  pub record Message : Type 0 where
    pub class : Class
    pub payload : Payload

  -- `ProtocolTranslator.encode`, and with the JSON methods in the codec `JsonTranslator.encode`. The
  -- name is looked up and the body made before either is packed.
  unfoldable pub encode : Factory Class → Message → Result Bytes
  encode f msg = do
    name ← get_class_name same_class f msg.class
    result ← encode_body msg.class msg.payload
    pack_fields name result

  -- `ProtocolTranslator.decode` and `JsonTranslator.decode`. Neither of the two lengths that count
  -- the frame and the body is used.
  unfoldable pub decode : Factory Class → Bytes → Result Message
  decode f buffer = do
    (_, name_length) ← unpack_two buffer
    (name, _) ← unpack_name name_length buffer 8
    class ← create same_class f name
    payload ← decode_body class (initial class) (drop (8 + name_length + 4) buffer)
    ok (record { class = class; payload = payload })

-- The addresses that `StandTranslator` writes.
pub record Address : Type 0 where
  pub id : ℕ
  pub remote : ℕ
  pub time : ℕ

-- A message with the attributes that `StandTranslator` asks for.
pub record Letter (codec : Codec) : Type 0 where
  pub message : Message codec
  pub receiver_name : Bytes
  pub receiver : Address
  pub sender : Address

-- `struct.pack('>III', a.id, a.remote, a.time)`
unfoldable pub pack_address : Address → Result Bytes
pack_address a = pack (number ∷ number ∷ number ∷ []) (int a.id ∷ int a.remote ∷ int a.time ∷ [])

-- `struct.pack('>I%ds' % len(x), x)`
unfoldable pub pack_text : Bytes → Result Bytes
pack_text x = pack (number ∷ text (length x) ∷ []) (str x ∷ [])

-- `StandTranslator.encode`
unfoldable pub stand_encode : (codec : Codec) → Factory (codec.Class) → Letter codec → Result Bytes
stand_encode codec f msg = do
  receiver ←
      if ltb 0 (length msg.receiver_name)
      then pack_address msg.receiver
      else pack_field msg.receiver_name
  sender ← pack_address msg.sender
  name ← get_class_name codec.same_class f msg.message.class
  name_field ← pack_text name
  result ← codec.encode msg.message.class msg.message.payload
  body ← text_of result
  body_field ← pack_text body
  pack_text (receiver ++ sender ++ name_field ++ body_field)
