-- ===== src/Translator/Errors.antt =====
-- The exceptions of the translators.
use domq.Prelude.{
  ◌>>=◌, ◌≤◌, dec_lt, struct_error, type_error, ℕ, ◌+◌, ◌≡◌, ◌≢◌, refl, sym, ◌∙◌, [], ◌∷◌, ◌++◌,
  some, none, ok, raise, length, drop, append-nil, >>=-ne-ok, arith, ◌<◌, ◌^◌, inl, inr, ◌⊎◌,
  length-drop,
}
use domq.Wire.{Bytes, IsU32, pack, read_u32, read_bytes, unpack_two, unpack_name}
use domq.Factory.{Factory, get_class_name, register}
use domq.Factory.Registry.{register-shadows}
use domq.Translator.{Codec, Message, Letter, encode, decode, pack_text, pack_address, stand_encode}
use domq.Translator.Frame.{
  frame, encode-frame, decode-frame, pack_fields-frame, pack_fields-too_long, pack_fields-none,
  unpack_two-frame,
}

read_u32-short : (b : Bytes) → length b < 4 → read_u32 b ≡ raise struct_error
unfolding read_u32
read_u32-short [] h = refl
read_u32-short (a ∷ []) h = refl
read_u32-short (a ∷ b ∷ []) h = refl
read_u32-short (a ∷ b ∷ c ∷ []) h = refl
read_u32-short (a ∷ b ∷ c ∷ d ∷ rest) h = absurd (omega arith)

unpack_name-short :
    (n : ℕ) (buffer : Bytes) (offset : ℕ)
    → length buffer < offset + n + 4
    → unpack_name n buffer offset ≡ raise struct_error
unfolding unpack_name read_bytes
unpack_name-short n buffer offset h = ground (
  arith,
  length-drop offset buffer,
  length-drop n (drop offset buffer),
  read_u32-short (drop n (drop offset buffer)),
)

unpack_two-short : (b : Bytes) → length b < 8 → unpack_two b ≡ raise struct_error
unfolding unpack_two read_u32
unpack_two-short [] h = refl
unpack_two-short (a ∷ []) h = refl
unpack_two-short (a ∷ b ∷ []) h = refl
unpack_two-short (a ∷ b ∷ c ∷ []) h = refl
unpack_two-short (a ∷ b ∷ c ∷ d ∷ rest) h = rw (read_u32-short rest (omega arith))

unpack_two-append :
    (front back : Bytes) → 8 ≤ length front → unpack_two (front ++ back) ≡ unpack_two front
unfolding unpack_two read_u32
unpack_two-append (a ∷ b ∷ c ∷ d ∷ e ∷ f ∷ g ∷ i ∷ rest) back h = refl
unpack_two-append _ back h = absurd (omega arith)

module _ (codec : Codec) (f : Factory (codec.Class)) where
  open codec use {same_class, initial, encode as encode_body, decode as decode_body}

  -- The start of a frame that ends before its body begins is refused by `decode`, whatever classes
  -- are registered.
  pub decode-cut :
      (name body front back : Bytes)
      → IsU32 (length name + length body + 12)
      → frame name body ≡ front ++ back
      → length front < length name + 12
      → decode codec f front ≡ raise struct_error
  unfolding decode
  decode-cut name body front back small whole cut = elim (dec_lt (length front) 8) [
    | yes short ↦ rw (unpack_two-short front short)
    | no long ↦ rw (lengths (omega arith), unpack_name-short (length name) front 8 (omega arith))
  ]
    where
      lengths :
          8 ≤ length front → unpack_two front ≡ ok (length name + length body + 12, length name)
      lengths long =
          sym (unpack_two-append front back long)
          ∙ rw (← whole, ← append-nil (frame name body)) (unpack_two-frame name body [] small)

  -- For a registered message with a body, `encode` returns the frame of the name and the body if
  -- that has less than 2 ^ 32 bytes, and raises struct.error in all other cases.
  pub encode_bounds :
      (m : Message codec) (name body : Bytes)
      → get_class_name same_class f m.class ≡ ok name
      → encode_body m.class m.payload ≡ ok (some body)
      → (IsU32 (length name + length body + 12) × (encode codec f m ≡ ok (frame name body)))
        ⊎ ((2 ^ 32 ≤ length name + length body + 12) × (encode codec f m ≡ raise struct_error))
  unfolding encode
  encode_bounds m name body hn hb = elim (dec_lt (length name + length body + 12) (2 ^ 32)) [
    | yes small ↦ inl (small, rw (hn, hb, pack_fields-frame name body small))
    | no large ↦ inr (omega arith, rw (hn, hb, pack_fields-too_long name body (omega arith)))
  ]

  -- A message whose `jsonEncode` or `encode` returns None, as `JsonMsg.jsonEncode` does, is never
  -- sent: `encode` raises TypeError if the class is registered under a name of less than 2 ^ 32
  -- bytes.
  encode-type_error :
      (m : Message codec) (name : Bytes)
      → get_class_name same_class f m.class ≡ ok name
      → IsU32 (length name)
      → encode_body m.class m.payload ≡ ok none
      → encode codec f m ≡ raise type_error
  unfolding encode
  encode-type_error m name hn short hb = rw (hn, hb, pack_fields-none name short)

  -- `StandTranslator.encode` returns for no message: `struct.pack` is given one value for the two
  -- items of its format.
  stand_encode-ne-ok : (m : Letter codec) (sent : Bytes) → stand_encode codec f m ≢ ok sent
  unfolding stand_encode pack_text pack
  stand_encode-ne-ok m sent = >>=-ne-ok _ _ sent λ receiver.
      >>=-ne-ok (pack_address m.sender) _ sent
        λ sender. >>=-ne-ok (get_class_name same_class f m.message.class) _ sent λ name e. cc

module _ (codec : Codec) (f : Factory (codec.Class)) where
  open codec use {Class, same_class, initial, encode as encode_body, decode as decode_body}

  -- When a second class is registered under the name of a first, the messages of the first are still
  -- written under that name, and `decode` reads them as messages of the second.
  pub decode-shadowed :
      (m : Message codec) (other : Class) (name body : Bytes)
      → m.class ≢ other
      → encode_body m.class m.payload ≡ ok (some body)
      → IsU32 (length name + length body + 12)
      → let g : Factory Class =
          register same_class name other (register same_class name m.class f) in
        (encode codec g m ≡ ok (frame name body))
        × (decode codec g (frame name body) ≡ (
            decode_body other (initial other) body >>= λ payload.
            ok (record { class = other; payload = payload })))
  decode-shadowed m other name body differ made small =
      let g : Factory Class = register same_class name other (register same_class name m.class f) in
      let (creates, named) = register-shadows same_class f name m.class other differ in
      (
        encode-frame codec g m name body named made small,
        rw append-nil at (decode-frame codec g name body [] small) ∙ rw (creates, append-nil),
      )
