-- ===== src/Translator/Typing.antt =====
-- What `encode` returns is made of bytes, and starts with its own length.
use domq.Prelude.{
  ◌≡◌, ◌∙◌, ap, sym, ◌+◌, ◌<◌, ◌++◌, some, ok, length, drop, arith, All, All-append, ℕ,
}
use domq.Wire.{Bytes, IsU32, quad, read_u32}
use domq.Wire.RoundTrip.{read_u32-quad}
use domq.Factory.{Factory, get_class_name}
use domq.Translator.{Codec, Message, encode}
use domq.Translator.Frame.{frame, length-frame}
use domq.Translator.RoundTrip.{encode-eq-ok}

abbrev pub IsByte : ℕ → Type 0
IsByte n = n < 256

quad-IsByte : (n : ℕ) → IsU32 n → All IsByte (quad n)
quad-IsByte n h = (omega arith, (omega arith, (omega arith, (omega arith, tt))))

frame-IsByte :
    (name body : Bytes)
    → IsU32 (length name + length body + 12)
    → All IsByte name
    → All IsByte body
    → All IsByte (frame name body)
unfolding frame
frame-IsByte name body small named made =
    All-append IsByte (quad (length name + length body + 12))
      (quad (length name) ++ (name ++ (quad (length body) ++ body))) (quad-IsByte _ small)
      (All-append IsByte (quad (length name)) (name ++ (quad (length body) ++ body))
        (quad-IsByte _ (omega arith))
        (All-append IsByte name (quad (length body) ++ body) named
          (All-append IsByte (quad (length body)) body (quad-IsByte _ (omega arith)) made)))

frame-read_u32 :
    (name body : Bytes)
    → IsU32 (length name + length body + 12)
    → read_u32 (frame name body) ≡ ok (length (frame name body), drop 4 (frame name body))
unfolding frame
frame-read_u32 name body small =
    let tail = quad (length name) ++ (name ++ (quad (length body) ++ body)) in
    let size = length-frame name body in
    read_u32-quad (length name + length body + 12) tail small ∙ ap (λ n. ok (n, tail)) (sym size)

module _ (codec : Codec) where
  open codec use {Class, same_class, encode as encode_body}

  -- If the class's name and the body that the class makes are bytes, so is whatever `encode`
  -- returns, and its first four bytes are read as its length.
  pub encode-IsByte :
      (f : Factory Class) (m : Message codec) (sent : Bytes)
      → ((name : Bytes) → get_class_name same_class f m.class ≡ ok name → All IsByte name)
      → ((body : Bytes) → encode_body m.class m.payload ≡ ok (some body) → All IsByte body)
      → encode codec f m ≡ ok sent
      → All IsByte sent × (read_u32 sent ≡ ok (length sent, drop 4 sent))
  encode-IsByte f m sent named made e =
      let (name, body, hn, hb, small, same) = encode-eq-ok codec f m sent e in
      rw same (
        frame-IsByte name body small (named name hn) (made body hb),
        frame-read_u32 name body small,
      )
