-- ===== src/Runs/Attributes.antt =====
-- The theorems at concrete inputs, and tests: the attributes of messages.
use domq.Prelude.{
  ℕ, ◌==◌, if◌then◌else◌, ◌&&◌, Option, none, some, Result, ok, raise, attribute_error, type_error,
  ◌≡◌, refl, Text, codes, same_text,
}
use domq.JsonTests.Outcome.{pos}
use domq.Messages.{
  Attribute, plain, instance_of, message_class, Objects, Own, set_attr, new_add, no_attributes,
  with_own, json_decode, get_msg_result, Literal, number, text,
}

-- Objects whose fields hold anything.
abbrev Fields : Type 0
Fields = ℕ → Text → Option (Attribute ℕ)

abbrev field_or_error : Option (Attribute ℕ) → Result (Attribute ℕ)
field_or_error none = raise attribute_error
field_or_error (some a) = ok a

abbrev with_field : ℕ → Text → Attribute ℕ → Fields → Fields
with_field r key value fields q other =
    if (q == r) && same_text other key then some value else fields q other

abbrev open_objects : Objects ℕ
open_objects = record {
  Store = Fields;
  get_field = λ r key fields. field_or_error (fields r key);
  set_field = λ r key value fields. ok (with_field r key value fields);
  class_field = λ key. raise attribute_error;
}

abbrev no_fields : Fields
no_fields q key = none

abbrev keeping : ℕ → Own ℕ
keeping object = with_own (codes "pmsg") (instance_of object) no_attributes

made : new_add open_objects 1 no_fields ≡ ok (keeping 1, no_fields)
unfolding new_add set_attr same_text
made = refl

-- A `Msg` that keeps the class takes no attribute.
refused :
    set_attr open_objects
      (with_own (codes "pmsg") message_class no_attributes)
      (codes "x")
      (plain 7)
      no_fields
    ≡ raise type_error
unfolding set_attr same_text
refused = refl

-- What was read is the attribute `data`; the number of the message stays.
decoded :
    (after : Own Literal) × (json_decode (λ t. ok (text t)) (codes "{}") get_msg_result ≡ ok after)
    × (after (codes "data") ≡ some (plain (text (codes "{}"))))
    × (after (codes "msgNo") ≡ some (plain (number (pos 0))))
unfolding json_decode get_msg_result same_text
decoded = (_, refl, refl, refl)
