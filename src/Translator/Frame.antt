-- ===== src/Translator/Frame.antt =====
-- The frame of a name and a body, as plain bytes, and what the translator makes of it.
use domq.Prelude.{
  ◌≤◌, dec_lt, struct_error, type_error, ◌+◌, ◌^◌, ◌≡◌, refl, ◌∙◌, ◌++◌, length, drop, some, none,
  ok, raise, arith, length-append, drop-append_eq, append_assoc, ◌>>=◌,
}
use domq.Wire.{Bytes, IsU32, quad, unpack_two, unpack_name}
use domq.Wire.RoundTrip.{pack_sized-quad, pack_sized-error, unpack_two-quads, unpack_name-append}
use domq.Factory.{Factory, create, get_class_name}
use domq.Translator.{Codec, Message, pack_field, pack_frame, pack_fields, encode, decode}

unfoldable pub frame : Bytes → Bytes → Bytes
frame name body =
    quad (length name + length body + 12)
    ++ (quad (length name) ++ (name ++ (quad (length body) ++ body)))

-- The length that a frame starts with is the length of the whole frame.
pub length-frame : (name body : Bytes) → length (frame name body) ≡ length name + length body + 12
unfolding frame
length-frame name body = omega (arith, length-append name (quad (length body) ++ body))

fields-length :
    (name body : Bytes)
    → length ((quad (length name) ++ name) ++ (quad (length body) ++ body)) + 4
      ≡ length name + length body + 12
fields-length name body = omega (arith, length-append name (quad (length body) ++ body))

pack_field-quad : (x : Bytes) → IsU32 (length x) → pack_field x ≡ ok (quad (length x) ++ x)
unfolding pack_field
pack_field-quad x h = pack_sized-quad (length x) x h

pack_frame-frame :
    (name body : Bytes)
    → IsU32 (length name + length body + 12)
    → pack_frame ((quad (length name) ++ name) ++ (quad (length body) ++ body))
      ≡ ok (frame name body)
unfolding pack_frame frame
pack_frame-frame name body h = rw (fields-length name body, pack_sized-quad _ _ h, append_assoc)

pub pack_fields-frame :
    (name body : Bytes)
    → IsU32 (length name + length body + 12)
    → pack_fields name (some body) ≡ ok (frame name body)
unfolding pack_fields
pack_fields-frame name body h = rw (
  pack_field-quad name (omega arith),
  pack_field-quad body (omega arith),
  pack_frame-frame name body h,
)

pack_field-error : (x : Bytes) → 2 ^ 32 ≤ length x → pack_field x ≡ raise struct_error
unfolding pack_field
pack_field-error x h = pack_sized-error (length x) x h

-- A frame of 2 ^ 32 bytes or more is refused.
pub pack_fields-too_long :
    (name body : Bytes)
    → 2 ^ 32 ≤ length name + length body + 12
    → pack_fields name (some body) ≡ raise struct_error
unfolding pack_fields
pack_fields-too_long name body h = elim (dec_lt (length name) (2 ^ 32)) [
  | no long ↦ rw (pack_field-error name (omega arith))
  | yes short ↦ elim (dec_lt (length body) (2 ^ 32)) [
    | no long ↦ rw (pack_field-quad name short, pack_field-error body (omega arith))
    | yes small ↦
        rw (pack_field-quad name short, pack_field-quad body small)
          (unfold pack_frame in (pack_sized-error _ _ (omega (arith, fields-length name body))))
  ]
]

-- Without a body there is no frame.
pub pack_fields-none :
    (name : Bytes) → IsU32 (length name) → pack_fields name none ≡ raise type_error
unfolding pack_fields
pack_fields-none name h = rw (pack_field-quad name h)

pub pack_fields-none_long :
    (name : Bytes) → 2 ^ 32 ≤ length name → pack_fields name none ≡ raise struct_error
unfolding pack_fields
pack_fields-none_long name h = rw (pack_field-error name h)

module _ (name body more : Bytes) (small : IsU32 (length name + length body + 12)) where
  pub unpack_two-frame :
      unpack_two (frame name body ++ more) ≡ ok (length name + length body + 12, length name)
  unfolding frame
  unpack_two-frame = unpack_two-quads _ _ _ small (omega arith)

  abbrev lengths : Bytes
  lengths = quad (length name + length body + 12) ++ quad (length name)

  frame-append :
      frame name body ++ more ≡ lengths ++ (name ++ (quad (length body) ++ (body ++ more)))
  unfolding frame
  frame-append = simp append_assoc

  unpack_name-frame : unpack_name (length name) (frame name body ++ more) 8 ≡ ok (name, length body)
  unpack_name-frame =
      rw frame-append (unpack_name-append lengths name (body ++ more) _ 8 refl (omega arith))

  drop-frame : drop (8 + length name + 4) (frame name body ++ more) ≡ body ++ more
  drop-frame =
      let front : Bytes = (lengths ++ name) ++ quad (length body) in
      let split : frame name body ++ more ≡ front ++ (body ++ more) =
        frame-append ∙ simp append_assoc in
      rw split (
        drop-append_eq _ front (body ++ more)
          (omega (arith, length-append name (quad (length body)))))

module _ (codec : Codec) (f : Factory (codec.Class)) where
  open codec use {same_class, initial, encode as encode_body, decode as decode_body}

  pub encode-frame :
      (m : Message codec) (name body : Bytes)
      → get_class_name same_class f m.class ≡ ok name
      → encode_body m.class m.payload ≡ ok (some body)
      → IsU32 (length name + length body + 12)
      → encode codec f m ≡ ok (frame name body)
  unfolding encode
  encode-frame m name body hn hb h = rw (hn, hb, pack_fields-frame name body h)

  -- Bytes behind the frame are taken for a part of the body.
  pub decode-frame :
      (name body more : Bytes)
      → IsU32 (length name + length body + 12)
      → decode codec f (frame name body ++ more) ≡ (
          create same_class f name >>= λ class.
          decode_body class (initial class) (body ++ more) >>= λ payload.
          ok (record { class = class; payload = payload }))
  unfolding decode
  decode-frame name body more h = rw (
    unpack_two-frame name body more h,
    unpack_name-frame name body more h,
    drop-frame name body more h,
  )
