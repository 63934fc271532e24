-- ===== src/Modbus/Registers.antt =====
-- modbus.service.ts: `_toFloat6Bytes`, `_toLong`, `_toUint32`, `_toInt16` and
-- `DEFAULT_LENGTH_BY_TYPE`. A register is a number below 2^16; the buffers are lists of bytes.
use cleveremote_box.Base.{
  pos, ℤ, negsuc, if◌then◌else◌, ltb, ℕ, ◌+◌, ◌-◌, ◌*◌, ◌/◌, ◌%◌, ◌^◌, ◌<◌, ◌≡◌, List, [], ◌∷◌,
  ◌++◌, arith,
}

-- `buf.writeUInt16BE` and the reads of a buffer
unfoldable pub bytes_be : ℕ → List ℕ
bytes_be w = w / 256 ∷ (w % 256) ∷ []

unfoldable pub read_be : ℕ → List ℕ → ℕ
read_be acc [] = acc
read_be acc (b ∷ bs) = read_be (acc * 256 + b) bs

-- The value of `readInt32BE` from that of `readUInt32BE`
unfoldable pub signed : ℕ → ℕ → ℤ
signed half u = if ltb u half then pos u else negsuc (2 * half - u - 1)

-- `words[1]` is the high word.
unfoldable pub to_uint32 : ℕ → ℕ → ℕ
unfolding bytes_be read_be
to_uint32 w0 w1 = read_be 0 (bytes_be w1 ++ bytes_be w0)

unfoldable pub to_long : ℕ → ℕ → ℤ
unfolding to_uint32 signed
to_long w0 w1 = signed 2147483648 (to_uint32 w0 w1)

-- `word > 0x7fff ? word - 0x10000 : word`
unfoldable pub to_int16 : ℕ → ℤ
to_int16 w = if ltb 0x7fff w then negsuc (0x10000 - w - 1) else pos w

-- In hundredths: `integerPart + decimalPart / 100`
unfoldable pub to_float_6_bytes : ℕ → ℕ → ℕ → ℕ
unfolding bytes_be read_be
to_float_6_bytes r0 r1 r2 = read_be 0 (bytes_be r0 ++ bytes_be r1) * 100 + read_be 0 (bytes_be r2)

pub data ModbusValueType : Type 0 where
  cumulative float int uint32 float_6_bytes : ModbusValueType

unfoldable pub default_length_by_type : ModbusValueType → ℕ
default_length_by_type cumulative = 4
default_length_by_type float = 2
default_length_by_type uint32 = 2
default_length_by_type int = 1
default_length_by_type float_6_bytes = 3

-- The two's complement of an integer at a width of `2 * half`, as a device stores it
abbrev pub stored : ℕ → ℤ → ℕ
stored half (pos n) = n
stored half (negsuc n) = 2 * half - 1 - n

abbrev pub InRange : ℕ → ℤ → Type 0
InRange half (pos n) = n < half
InRange half (negsuc n) = n < half

-- The two registers of a 32-bit value, the low word first, are read back as the value.
to_uint32-words : (u : ℕ) → u < 2 ^ 32 → to_uint32 (u % 65536) (u / 65536) ≡ u
unfolding to_uint32 bytes_be read_be
to_uint32-words u h = omega arith

signed-stored : (half : ℕ) (z : ℤ) → InRange half z → signed half (stored half z) ≡ z
unfolding signed
signed-stored half (pos n) h = ground arith
signed-stored half (negsuc n) h = ground arith

-- A signed 32-bit integer that a device stores in two's complement, the low word first, is read
-- back as the integer.
pub to_long-stored :
    (z : ℤ)
    → InRange 2147483648 z
    → to_long (stored 2147483648 z % 65536) (stored 2147483648 z / 65536) ≡ z
unfolding to_long
to_long-stored z h =
    rw (to_uint32-words (stored 2147483648 z) (bound z h)) (signed-stored 2147483648 z h)
  where
    bound : (y : ℤ) → InRange 2147483648 y → stored 2147483648 y < 2 ^ 32
    bound (pos n) p = omega arith
    bound (negsuc n) p = omega arith

-- So is a signed 16-bit integer.
to_int16-stored : (z : ℤ) → InRange 32768 z → to_int16 (stored 32768 z) ≡ z
unfolding to_int16
to_int16-stored (pos n) h = ground arith
to_int16-stored (negsuc n) h = ground arith
