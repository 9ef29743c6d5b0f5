-- ===== src/Messages.antt =====
-- framework/test/test_connectionmgr/msg.py and addmsg.py: the attributes of a message, most of which
-- are those of a protobuf object; and mq/test/test_server/msgqueuemsg.py: the attributes of the
-- messages of the queue's clients, which are those of the Python object.
use domq.Prelude.{
  ℕ, if◌then◌else◌, Bool, true, false, ◌||◌, Option, none, some, List, [], ◌∷◌, Result, ok, raise,
  type_error, attribute_error, runtime_error, ◌>>=◌, Text, codes, same_text,
}
use domq.JsonTests.Outcome.{ℤ, pos}

-- What an attribute holds: a plain value, a protobuf object, by its place in the store, or the class
-- `Message` itself.
pub data Attribute (V : Type 0) : Type 0 where
  plain : V → Attribute V
  instance_of : ℕ → Attribute V
  message_class : Attribute V

-- The protobuf objects: their store, and `getattr` and `__setattr__` on one of them; and `getattr` on
-- the class.
pub record Objects (V : Type 0) : Type 1 where
  pub Store : Type 0
  pub get_field : ℕ → Text → Store → Result (Attribute V)
  pub set_field : ℕ → Text → Attribute V → Store → Result Store
  pub class_field : Text → Result (Attribute V)

-- The `__dict__` of a Python object.
abbrev pub Own : Type 0 → Type 0
Own V = Text → Option (Attribute V)

module _ {V : Type 0} where
  abbrev pub with_own : Text → Attribute V → Own V → Own V
  with_own key value own other = if same_text other key then some value else own other

  abbrev pub has_key : Option (Attribute V) → Bool
  has_key none = false
  has_key (some a) = true

  abbrev pub no_attributes : Own V
  no_attributes key = none

  -- `self.pmsg`. Without it `__getattr__` asks for it again and again.
  abbrev pub pmsg_of : Option (Attribute V) → Result (Attribute V)
  pmsg_of none = raise runtime_error
  pmsg_of (some a) = ok a

  module _ (objects : Objects V) where
    open objects use {Store, get_field, set_field, class_field}

    abbrev pub delegated_get : Attribute V → Text → Store → Result (Attribute V)
    delegated_get (plain v) key store = raise attribute_error
    delegated_get (instance_of r) key store = get_field r key store
    delegated_get message_class key store = class_field key

    -- On the class, `__setattr__` is called without an object, which is a TypeError.
    abbrev pub delegated_set : Attribute V → Text → Attribute V → Store → Result Store
    delegated_set (plain v) key value store = raise attribute_error
    delegated_set (instance_of r) key value store = set_field r key value store
    delegated_set message_class key value store = raise type_error

    abbrev pub own_or : Option (Attribute V) → Result (Attribute V) → Result (Attribute V)
    own_or none delegated = delegated
    own_or (some a) delegated = ok a

    -- An attribute of a `Msg` that is none of its methods: Python's own look-up, and `__getattr__`.
    unfoldable pub get_attr : Own V → Text → Store → Result (Attribute V)
    get_attr own key store =
        own_or (own key) (do pmsg ← pmsg_of (own (codes "pmsg")); delegated_get pmsg key store)

    -- `Msg.__setattr__`
    unfoldable pub set_attr : Own V → Text → Attribute V → Store → Result (Own V × Store)
    set_attr own key value store =
        if has_key (own key) || same_text key (codes "pmsg")
        then ok (with_own key value own, store)
        else (do
          pmsg ← pmsg_of (own (codes "pmsg"))
          after ← delegated_set pmsg key value store
          ok (own, after))

    -- `Msg()`
    unfoldable pub new_msg : Store → Result (Own V × Store)
    unfolding set_attr
    new_msg store = set_attr no_attributes (codes "pmsg") message_class store

    -- `AddRequest()` and `AddResult()`, which keep a new object.
    unfoldable pub new_add : ℕ → Store → Result (Own V × Store)
    unfolding set_attr
    new_add object store = set_attr no_attributes (codes "pmsg") (instance_of object) store

  -- Attributes that are set one after the other.
  abbrev pub with_all : List (Text × V) → Own V
  with_all [] = no_attributes
  with_all ((key, v) ∷ more) = with_own key (plain v) (with_all more)

  -- `JsonMsg.jsonDecode`, for what `json.loads` makes of the text.
  unfoldable pub json_decode : (Text → Result V) → Text → Own V → Result (Own V)
  json_decode loads text own = do data_ ← loads text; ok (with_own (codes "data") (plain data_) own)

-- What the attributes of the messages in msgqueuemsg.py that have no number of their own hold.
pub data Literal : Type 0 where
  number : ℤ → Literal
  text : Text → Literal

unfoldable pub open_msg_queue_request :
    (msg_queue_name create option duration role client_name : Literal) → Own Literal
open_msg_queue_request msg_queue_name create option duration role client_name = with_all (
    (codes "clientName", client_name)
    ∷ (codes "role", role)
    ∷ (codes "duration", duration)
    ∷ (codes "option", option)
    ∷ (codes "create", create)
    ∷ (codes "msgQueueName", msg_queue_name)
    ∷ (codes "serialNo", number (pos 12))
    ∷ [])

unfoldable pub open_msg_queue_result : Own Literal
open_msg_queue_result =
    with_all ((codes "msgQueueCode", text []) ∷ (codes "serialNo", number (pos 0)) ∷ [])

unfoldable pub get_msg_result : Own Literal
get_msg_result = with_all (
    (codes "data", text [])
    ∷ (codes "msgNo", number (pos 0))
    ∷ (codes "serialNo", number (pos 0))
    ∷ [])

unfoldable pub send_msg_result : Own Literal
send_msg_result = with_all ((codes "serialNo", number (pos 0)) ∷ [])
