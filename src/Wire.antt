-- ===== src/Wire.antt =====
-- The byte layouts that framework/test/test_connectionmgr/translator.py writes and reads by Python's
-- `struct` module: `>I`, an unsigned 32-bit number with the highest byte first, and `<n>s`, n bytes.
pub mod RoundTrip
use domq.Prelude.{
  ℕ, ◌+◌, ◌-◌, ◌*◌, ◌/◌, ◌%◌, ◌^◌, ◌<◌, ltb, leb, if◌then◌else◌, List, [], ◌∷◌, ◌++◌, length, take,
  drop, replicate, Result, ok, raise, struct_error, ◌>>=◌,
}

abbrev pub Bytes : Type 0
Bytes = List ℕ

abbrev pub IsU32 : ℕ → Type 0
IsU32 n = n < 2 ^ 32

-- The four bytes of a 32-bit number.
abbrev pub quad : ℕ → Bytes
quad n = n / 2 ^ 24 ∷ n / 2 ^ 16 % 256 ∷ n / 2 ^ 8 % 256 ∷ n % 256 ∷ []

-- `struct.pack('>I', n)`, which refuses a number of more than 32 bits.
unfoldable pub pack_u32 : ℕ → Result Bytes
pack_u32 n = if ltb n (2 ^ 32) then ok (quad n) else raise struct_error

-- An item of a format, and a value that is handed over for one.
pub data Item : Type 0 where
  number : Item
  text : ℕ → Item

pub data Value : Type 0 where
  int : ℕ → Value
  str : Bytes → Value

-- `<n>s`: cut to n bytes, or filled up with zeros.
abbrev pub fit : ℕ → Bytes → Bytes
fit n x = take n x ++ replicate (n - length x) 0

-- `struct.pack`: as many values as items, each of the item's kind.
unfoldable pub pack : List Item → List Value → Result Bytes
unfolding pack_u32
pack [] [] = ok []
pack (number ∷ items) (int n ∷ values) = do
  front ← pack_u32 n
  back ← pack items values
  ok (front ++ back)
pack (text n ∷ items) (str x ∷ values) = do back ← pack items values; ok (fit n x ++ back)
pack _ _ = raise struct_error

-- `struct.pack('>I' + str(len(x)) + 's', n, x)`
unfoldable pub pack_sized : ℕ → Bytes → Result Bytes
pack_sized n x = pack (number ∷ text (length x) ∷ []) (int n ∷ str x ∷ [])

-- One `I` of a format, and what the buffer holds behind it.
unfoldable pub read_u32 : Bytes → Result (ℕ × Bytes)
read_u32 (a ∷ b ∷ c ∷ d ∷ rest) = ok (a * 2 ^ 24 + b * 2 ^ 16 + c * 2 ^ 8 + d, rest)
read_u32 _ = raise struct_error

-- One `<n>s` of a format.
unfoldable pub read_bytes : ℕ → Bytes → Result (Bytes × Bytes)
read_bytes n buffer =
    if leb n (length buffer) then ok (take n buffer, drop n buffer) else raise struct_error

-- `struct.unpack_from('>II', buffer)`
unfoldable pub unpack_two : Bytes → Result (ℕ × ℕ)
unpack_two buffer = do (a, rest) ← read_u32 buffer; (b, _) ← read_u32 rest; ok (a, b)

-- `struct.unpack_from('>' + str(n) + 'sI', buffer, offset)`
unfoldable pub unpack_name : ℕ → Bytes → ℕ → Result (Bytes × ℕ)
unpack_name n buffer offset = do
  (name, rest) ← read_bytes n (drop offset buffer)
  (size, _) ← read_u32 rest
  ok (name, size)
