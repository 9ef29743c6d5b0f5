-- ===== src/Runs.antt =====
-- The theorems at concrete inputs, and tests: the client's protocol.
pub mod Globs
pub mod Tools
pub mod Endings
pub mod Units
pub mod Queue
pub mod Attributes
pub mod Releases
pub mod Json
pub mod Trees
pub mod Timing
pub mod Unpacking
pub mod Signatures
use mathlib.Core.List.{Memᴰ}
use mathlib.Core.Path.{subst}
use domq.Prelude.{
  ℕ, ◌+◌, ◌≤◌, ◌<◌, ◌^◌, ◌≡◌, ◌≢◌, ◌⊎◌, refl, List, [], ◌∷◌, ◌++◌, length, take, drop, All, Option,
  some, none, Result, ok, raise, diverge, struct_error, type_error, arith, ◌>>=◌, ℕ_discrete,
  dec_lt, map, io_error, codes,
}
use domq.Wire.{Bytes, IsU32, quad, read_u32}
use domq.Factory.{Factory, register, register_all, no_classes, get_class_name, create}
use domq.Factory.Registry.{IsDistinct, IsPaired, register_all-IsPaired}
use domq.Translator.{Codec, Message, Letter, Address, encode, decode, stand_encode}
use domq.Translator.Frame.{frame}
use domq.Translator.RoundTrip.{decode-encode}
use domq.Translator.Typing.{IsByte, encode-IsByte}
use domq.Translator.Errors.{decode-cut, encode_bounds, decode-shadowed}
use domq.Network.{Socket, recvn, recvn_loop, send_and_recv, run_requests}
use domq.Network.Returned.{Exchange, IsWhole, all_sent, all_got, run_requests-eq-ok}
use domq.Network.Session.{ask, closed, endpoint_of, path, unix}
use domq.Network.Receive.{stream, IsOpen, recvn-reads, recvn-diverge}
use domq.Network.Exchange.{
  IsAfter, send_and_recv-frame, Dialogue, done, turn, run_requests-Dialogue,
}

-- Two classes with bodies, and one whose body is None.
data Kind : Type 0 where
  request result json : Kind

Kind-discrete : Discrete Kind
Kind-discrete = hlevel

abbrev body_of : Kind → Bytes → Option Bytes
body_of json p = none
body_of _ p = some p

abbrev plain : Codec
plain = record {
  Class = Kind;
  same_class = Kind-discrete;
  Payload = Bytes;
  initial = λ k. [];
  encode = λ k p. ok (body_of k p);
  decode = λ k p b. ok b;
}

abbrev message : Kind → Bytes → Message plain
message k p = record { class = k; payload = p }

abbrev req_name : Bytes
req_name = 81 ∷ []

abbrev res_name : Bytes
res_name = 82 ∷ 83 ∷ []

abbrev classes : List (Bytes × Kind)
classes = (req_name, request) ∷ (res_name, result) ∷ []

abbrev table : Factory Kind
table = register_all Kind-discrete classes no_classes

classes-IsDistinct : IsDistinct Kind-discrete classes
classes-IsDistinct = (((λ e. cc, λ e. cc), tt), (tt, tt))

decode-encode_example :
    (encode plain table (message request (7 ∷ [])) ≡ ok (frame req_name (7 ∷ [])))
    × (decode plain table (frame req_name (7 ∷ [])) ≡ ok (message request (7 ∷ [])))
decode-encode_example =
    decode-encode plain classes (message request (7 ∷ [])) req_name (7 ∷ []) classes-IsDistinct
      (Memᴰ.head refl) refl refl (omega arith)

made : encode plain table (message request (7 ∷ [])) ≡ ok (frame req_name (7 ∷ []))
made =
    (decode-encode plain classes (message request (7 ∷ [])) req_name (7 ∷ []) classes-IsDistinct
      (Memᴰ.head refl) refl refl (omega arith)).0

read : decode plain table (frame res_name (9 ∷ 9 ∷ [])) ≡ ok (message result (9 ∷ 9 ∷ []))
read =
    (decode-encode plain classes (message result (9 ∷ 9 ∷ [])) res_name (9 ∷ 9 ∷ [])
      classes-IsDistinct (Memᴰ.tail (Memᴰ.head refl)) refl refl (omega arith)).1

named : get_class_name Kind-discrete table request ≡ ok req_name
named = (register_all-IsPaired Kind-discrete classes no_classes classes-IsDistinct).0.named

encode-IsByte_example :
    All IsByte (frame req_name (7 ∷ []))
    × (read_u32 (frame req_name (7 ∷ []))
        ≡ ok (length (frame req_name (7 ∷ [])), drop 4 (frame req_name (7 ∷ []))))
encode-IsByte_example =
    let name_found = named in
    encode-IsByte plain table (message request (7 ∷ [])) (frame req_name (7 ∷ []))
      (λ name e. let same : req_name ≡ name = cc in subst (All IsByte) same (omega arith, tt))
      (λ body e. let same : 7 ∷ [] ≡ body = cc in subst (All IsByte) same (omega arith, tt)) made

encode_bounds_example :
    (IsU32 (1 + 1 + 12)
      × (encode plain table (message request (7 ∷ [])) ≡ ok (frame req_name (7 ∷ []))))
    ⊎ ((2 ^ 32 ≤ 1 + 1 + 12) × (encode plain table (message request (7 ∷ [])) ≡ raise struct_error))
encode_bounds_example =
    encode_bounds plain table (message request (7 ∷ [])) req_name (7 ∷ []) named refl

decode-cut_example :
    decode plain table (0 ∷ 0 ∷ 0 ∷ 16 ∷ 0 ∷ 0 ∷ 0 ∷ 2 ∷ 82 ∷ []) ≡ raise struct_error
unfolding frame
decode-cut_example =
    decode-cut plain table res_name (9 ∷ 9 ∷ []) (0 ∷ 0 ∷ 0 ∷ 16 ∷ 0 ∷ 0 ∷ 0 ∷ 2 ∷ 82 ∷ [])
      (83 ∷ 0 ∷ 0 ∷ 0 ∷ 2 ∷ 9 ∷ 9 ∷ []) (omega arith) refl (omega arith)

decode-shadowed_example :
    (encode plain
        (register Kind-discrete req_name result
          (register Kind-discrete req_name request no_classes))
        (message request (7 ∷ []))
      ≡ ok (frame req_name (7 ∷ [])))
    × (decode plain
          (register Kind-discrete req_name result
            (register Kind-discrete req_name request no_classes))
          (frame req_name (7 ∷ []))
        ≡ ok (message result (7 ∷ [])))
decode-shadowed_example =
    decode-shadowed plain no_classes (message request (7 ∷ [])) result req_name (7 ∷ []) (λ e. cc)
      refl (omega arith)

abbrev pieces : List Bytes
pieces =
    (0 ∷ 0 ∷ 0 ∷ []) ∷ (16 ∷ 0 ∷ 0 ∷ 0 ∷ 2 ∷ 82 ∷ []) ∷ (83 ∷ 0 ∷ 0 ∷ 0 ∷ 2 ∷ 9 ∷ 9 ∷ 5 ∷ []) ∷ []

abbrev client : Socket
client = record { incoming = pieces; outgoing = []; accept = λ n. n }

pieces-IsOpen : IsOpen pieces
pieces-IsOpen = omega arith

recvn-reads_example :
    (after : List Bytes) × (recvn 5 pieces ≡ ok (0 ∷ 0 ∷ 0 ∷ 16 ∷ 0 ∷ [], after))
    × (stream after ≡ 0 ∷ 0 ∷ 2 ∷ 82 ∷ 83 ∷ 0 ∷ 0 ∷ 0 ∷ 2 ∷ 9 ∷ 9 ∷ 5 ∷ [])
    × IsOpen after
recvn-reads_example = recvn-reads 5 pieces pieces-IsOpen (omega arith)

recvn-diverge_example :
    (recvn_loop 100 3 1 (0 ∷ []) ((1 ∷ []) ∷ []) ≡ diverge) × (recvn 2 ((1 ∷ []) ∷ []) ≡ diverge)
recvn-diverge_example = recvn-diverge 3 100 1 (0 ∷ []) ((1 ∷ []) ∷ []) (omega arith)

recvn_five :
    recvn 5 pieces
    ≡ ok (
      0 ∷ 0 ∷ 0 ∷ 16 ∷ 0 ∷ [],
      (0 ∷ 0 ∷ 2 ∷ 82 ∷ []) ∷ (83 ∷ 0 ∷ 0 ∷ 0 ∷ 2 ∷ 9 ∷ 9 ∷ 5 ∷ []) ∷ [],
    )
unfolding recvn recvn_loop domq.Network.recv
recvn_five = refl

send_and_recv-frame_example :
    (t : Socket) × (send_and_recv (1 ∷ []) client
      ≡ ok (0 ∷ 0 ∷ 0 ∷ 16 ∷ 0 ∷ 0 ∷ 0 ∷ 2 ∷ 82 ∷ 83 ∷ 0 ∷ 0 ∷ 0 ∷ 2 ∷ 9 ∷ 9 ∷ [], t))
    × IsAfter client (1 ∷ []) (5 ∷ []) t
send_and_recv-frame_example =
    send_and_recv-frame (1 ∷ []) client (0 ∷ 0 ∷ 0 ∷ 2 ∷ 82 ∷ 83 ∷ 0 ∷ 0 ∷ 0 ∷ 2 ∷ 9 ∷ 9 ∷ [])
      (5 ∷ []) pieces-IsOpen (omega arith) refl

run_requests-Dialogue_example :
    (t : Socket) × (run_requests plain table (message request (7 ∷ []) ∷ []) client
      ≡ ok (message result (9 ∷ 9 ∷ []) ∷ [], t))
    × (t.outgoing ≡ frame req_name (7 ∷ []) ++ [])
    × (stream t.incoming ≡ 5 ∷ [])
unfolding frame
run_requests-Dialogue_example =
    run_requests-Dialogue plain table (message request (7 ∷ []) ∷ [])
      (message result (9 ∷ 9 ∷ []) ∷ []) (frame req_name (7 ∷ []) ++ [])
      (frame res_name (9 ∷ 9 ∷ []) ++ []) (5 ∷ []) client
      (turn _ _ _ res_name (9 ∷ 9 ∷ []) made (omega arith) read done) (λ n. refl) pieces-IsOpen refl

dialogue :
    (t : Socket) × (run_requests plain table (message request (7 ∷ []) ∷ []) client
      ≡ ok (message result (9 ∷ 9 ∷ []) ∷ [], t))
unfolding frame
dialogue =
    let (t, returned, _, _) =
      run_requests-Dialogue plain table (message request (7 ∷ []) ∷ [])
        (message result (9 ∷ 9 ∷ []) ∷ []) (frame req_name (7 ∷ []) ++ [])
        (frame res_name (9 ∷ 9 ∷ []) ++ []) (5 ∷ []) client
        (turn _ _ _ res_name (9 ∷ 9 ∷ []) made (omega arith) read done) (λ n. refl) pieces-IsOpen
        refl in
    (t, returned)

run_requests-eq-ok_example :
    (l : List (Exchange plain table)) × (map Exchange.request l ≡ message request (7 ∷ []) ∷ [])
    × (map Exchange.result l ≡ message result (9 ∷ 9 ∷ []) ∷ [])
    × All (IsWhole plain table) l
    × (dialogue.0.outgoing ≡ client.outgoing ++ all_sent plain table client.accept l)
    × (stream client.incoming ≡ all_got plain table l ++ stream dialogue.0.incoming)
run_requests-eq-ok_example =
    run_requests-eq-ok plain table (message request (7 ∷ []) ∷ []) client
      (message result (9 ∷ 9 ∷ []) ∷ []) dialogue.0 dialogue.1

after_close : ask plain table (message request (7 ∷ [])) closed ≡ raise io_error
unfolding ask
after_close = rw made

by_path : endpoint_of (codes "h") (path (codes "/tmp/s")) ≡ unix (codes "/tmp/s")
by_path = refl
