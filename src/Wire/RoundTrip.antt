-- ===== src/Wire/RoundTrip.antt =====
-- What is read back from what `struct.pack` wrote.
use domq.Prelude.{
  dec_lt, ℕ, ◌^◌, ◌≤◌, ◌≡◌, ◌++◌, length, append_assoc, take-append_length, take-length, append-nil,
  ◌-◌, drop-append_length, length-append, le→leb, ok, raise, struct_error, arith,
}
use domq.Wire.{
  unpack_name, Bytes, IsU32, quad, fit, pack, pack_u32, pack_sized, read_u32, read_bytes,
  unpack_two,
}

pub pack_u32-quad : (n : ℕ) → IsU32 n → pack_u32 n ≡ ok (quad n)
unfolding pack_u32
pack_u32-quad n h = ground arith

pub pack_u32-error : (n : ℕ) → 2 ^ 32 ≤ n → pack_u32 n ≡ raise struct_error
unfolding pack_u32
pack_u32-error n h = ground arith

pub read_u32-quad : (n : ℕ) (rest : Bytes) → IsU32 n → read_u32 (quad n ++ rest) ≡ ok (n, rest)
unfolding read_u32
read_u32-quad n rest h = ground arith

fit-length : (x : Bytes) → fit (length x) x ≡ x
fit-length x =
    let none_left : length x - length x ≡ 0 = omega arith in
    rw (take-length x, none_left) (append-nil x)

pub pack_sized-quad : (n : ℕ) (x : Bytes) → IsU32 n → pack_sized n x ≡ ok (quad n ++ x)
unfolding pack_sized pack
pack_sized-quad n x h = rw (pack_u32-quad n h, append-nil, fit-length x)

-- A number that does not fit is refused whatever bytes follow.
pub pack_sized-error : (n : ℕ) (x : Bytes) → 2 ^ 32 ≤ n → pack_sized n x ≡ raise struct_error
unfolding pack_sized pack
pack_sized-error n x h = rw (pack_u32-error n h)

pub pack_sized-IsU32 : (n : ℕ) (x sent : Bytes) → pack_sized n x ≡ ok sent → IsU32 n
pack_sized-IsU32 n x sent e = elim (dec_lt n (2 ^ 32)) [
  | yes small ↦ small
  | no large ↦ cc (pack_sized-error n x (omega arith))
]

pub read_bytes-append : (x rest : Bytes) → read_bytes (length x) (x ++ rest) ≡ ok (x, rest)
unfolding read_bytes
read_bytes-append x rest = rw (
  le→leb (length x) (length (x ++ rest)) (omega (arith, length-append x rest)),
  take-append_length x rest,
  drop-append_length x rest,
)

-- Two numbers at the front of a buffer.
pub unpack_two-quads :
    (a b : ℕ) (rest : Bytes) → IsU32 a → IsU32 b → unpack_two (quad a ++ quad b ++ rest) ≡ ok (a, b)
unfolding unpack_two
unpack_two-quads a b rest ha hb =
    rw (append_assoc, read_u32-quad a (quad b ++ rest) ha, read_u32-quad b rest hb)

-- A name of the given length behind `before`, and the number that follows it.
pub unpack_name-append :
    (before name rest : Bytes) (size offset : ℕ)
    → offset ≡ length before
    → IsU32 size
    → unpack_name (length name) (before ++ (name ++ (quad size ++ rest))) offset ≡ ok (name, size)
unfolding unpack_name
unpack_name-append before name rest size offset e h = rw (
  e,
  drop-append_length before,
  read_bytes-append name (quad size ++ rest),
  read_u32-quad size rest h,
)
