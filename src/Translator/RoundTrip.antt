-- ===== src/Translator/RoundTrip.antt =====
-- What `decode` makes of what `encode` wrote.
use domq.Prelude.{
  dec_lt, ◌+◌, ◌≡◌, refl, ◌∙◌, ap, List, [], ◌∷◌, Option, some, none, ok, length, append-nil,
  >>=-eq-ok, arith, All, ◌^◌,
}
use mathlib.Core.List.{Memᴰ}
use domq.Wire.{Bytes, IsU32}
use domq.Factory.{Factory, get_class_name, register_all, no_classes}
use domq.Factory.Registry.{IsDistinct, IsPaired, register_all-IsPaired}
use domq.Translator.{Codec, Message, pack_fields, encode, decode}
use domq.Translator.Frame.{
  frame, encode-frame, decode-frame, pack_fields-frame, pack_fields-too_long, pack_fields-none,
  pack_fields-none_long,
}

All-mem : {A : Type 0} (P : A → Type 0) (x : A) (xs : List A) → All P xs → Memᴰ x xs → P x
All-mem P x [] h m = elim m [ ]
All-mem P x (y ∷ xs) h (Memᴰ.head e) = rw e h.0
All-mem P x (y ∷ xs) h (Memᴰ.tail m) = All-mem P x xs h.1 m

pack_fields-eq-ok :
    (name : Bytes) (result : Option Bytes) (sent : Bytes)
    → pack_fields name result ≡ ok sent
    → (body : Bytes) × (result ≡ some body)
      × IsU32 (length name + length body + 12)
      × (sent ≡ frame name body)
pack_fields-eq-ok name none sent e = elim (dec_lt (length name) (2 ^ 32)) [
  | yes short ↦ cc (pack_fields-none name short)
  | no long ↦ cc (pack_fields-none_long name (omega arith))
]
pack_fields-eq-ok name (some body) sent e =
    elim (dec_lt (length name + length body + 12) (2 ^ 32)) [
      | yes small ↦ (body, refl, small, cc (pack_fields-frame name body small))
      | no large ↦ cc (pack_fields-too_long name body (omega arith))
    ]

module _ (codec : Codec) where
  open codec use {Class, same_class, initial, encode as encode_body, decode as decode_body}

  -- A program registers its classes under distinct names. Then a message of one of these classes,
  -- whose body is made and is read back by the class, is written as the frame of its name and body,
  -- provided that this has less than 2 ^ 32 bytes; and the frame is read back as the message.
  pub decode-encode :
      (l : List (Bytes × Class)) (m : Message codec) (name body : Bytes)
      → IsDistinct same_class l
      → Memᴰ (name, m.class) l
      → encode_body m.class m.payload ≡ ok (some body)
      → decode_body m.class (initial m.class) body ≡ ok m.payload
      → IsU32 (length name + length body + 12)
      → (encode codec (register_all same_class l no_classes) m ≡ ok (frame name body))
        × (decode codec (register_all same_class l no_classes) (frame name body) ≡ ok m)
  decode-encode l m name body distinct listed made read small =
      let f : Factory Class = register_all same_class l no_classes in
      let paired : IsPaired same_class f name m.class =
        All-mem (λ p. IsPaired same_class f p.0 p.1) (name, m.class) l
          (register_all-IsPaired same_class l no_classes distinct) listed in
      let sent_back : decode codec f (frame name body) ≡ ok m =
        rw append-nil at (decode-frame codec f name body [] small)
        ∙ rw (paired.creates, append-nil, read) in
      (encode-frame codec f m name body paired.named made small, sent_back)

  -- Whatever `encode` returns is the frame of the class's name and of the body, and has less than
  -- 2 ^ 32 bytes.
  pub encode-eq-ok :
      (f : Factory Class) (m : Message codec) (sent : Bytes)
      → encode codec f m ≡ ok sent
      → (name : Bytes) × (body : Bytes) × (get_class_name same_class f m.class ≡ ok name)
        × (encode_body m.class m.payload ≡ ok (some body))
        × IsU32 (length name + length body + 12)
        × (sent ≡ frame name body)
  unfolding encode
  encode-eq-ok f m sent e =
      let (name, hn, named) = >>=-eq-ok (get_class_name same_class f m.class) _ e in
      let (result, hr, made) = >>=-eq-ok (encode_body m.class m.payload) _ named in
      let (body, hb, small, framed) = pack_fields-eq-ok name result sent made in
      (name, body, hn, hr ∙ ap ok hb, small, framed)
