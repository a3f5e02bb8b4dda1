-- ===== src/ByteOrder.antt =====
-- Numbers in memory, the high byte first or the low one (byteorder.h). A number of w bits is below
-- 2 ^ w. What is behind the memory that is given reads as 0; the callers give enough.
pub mod Numbers
use Prim.Native.Nat.{bit_or}
use txmpp.Common.{ℕ, ◌*◌, ◌/◌, ◌%◌, ◌^◌, Bool, [], ◌∷◌, Bytes, at_or, if◌then◌else◌}

-- static_cast<uint8>
abbrev pub low_byte : ℕ → ℕ
low_byte v = v % 256

abbrev pub get8 : Bytes → ℕ → ℕ
get8 memory offset = at_or 0 memory offset

unfoldable pub set_be16 : ℕ → Bytes
set_be16 v = low_byte (v / 2 ^ 8) ∷ low_byte v ∷ []

unfoldable pub set_be32 : ℕ → Bytes
set_be32 v = low_byte (v / 2 ^ 24) ∷ low_byte (v / 2 ^ 16) ∷ low_byte (v / 2 ^ 8) ∷ low_byte v ∷ []

unfoldable pub set_be64 : ℕ → Bytes
set_be64 v =
    low_byte (v / 2 ^ 56)
    ∷ low_byte (v / 2 ^ 48)
    ∷ low_byte (v / 2 ^ 40)
    ∷ low_byte (v / 2 ^ 32)
    ∷ low_byte (v / 2 ^ 24)
    ∷ low_byte (v / 2 ^ 16)
    ∷ low_byte (v / 2 ^ 8)
    ∷ low_byte v
    ∷ []

unfoldable pub get_be16 : Bytes → ℕ
get_be16 memory = bit_or (get8 memory 0 * 2 ^ 8) (get8 memory 1)

unfoldable pub get_be32 : Bytes → ℕ
get_be32 memory =
    bit_or
      (bit_or (bit_or (get8 memory 0 * 2 ^ 24) (get8 memory 1 * 2 ^ 16)) (get8 memory 2 * 2 ^ 8))
      (get8 memory 3)

-- The first four bytes of eight, or-ed.
abbrev high_half : ℕ → ℕ → ℕ → ℕ → ℕ
high_half a b c d = bit_or (bit_or (bit_or (a * 2 ^ 56) (b * 2 ^ 48)) (c * 2 ^ 40)) (d * 2 ^ 32)

unfoldable pub get_be64 : Bytes → ℕ
get_be64 memory =
    let high = high_half (get8 memory 0) (get8 memory 1) (get8 memory 2) (get8 memory 3) in
    bit_or
      (bit_or (bit_or (bit_or high (get8 memory 4 * 2 ^ 24)) (get8 memory 5 * 2 ^ 16))
        (get8 memory 6 * 2 ^ 8))
      (get8 memory 7)

unfoldable pub set_le16 : ℕ → Bytes
set_le16 v = low_byte v ∷ low_byte (v / 2 ^ 8) ∷ []

unfoldable pub set_le32 : ℕ → Bytes
set_le32 v = low_byte v ∷ low_byte (v / 2 ^ 8) ∷ low_byte (v / 2 ^ 16) ∷ low_byte (v / 2 ^ 24) ∷ []

unfoldable pub set_le64 : ℕ → Bytes
set_le64 v =
    low_byte v
    ∷ low_byte (v / 2 ^ 8)
    ∷ low_byte (v / 2 ^ 16)
    ∷ low_byte (v / 2 ^ 24)
    ∷ low_byte (v / 2 ^ 32)
    ∷ low_byte (v / 2 ^ 40)
    ∷ low_byte (v / 2 ^ 48)
    ∷ low_byte (v / 2 ^ 56)
    ∷ []

unfoldable pub get_le16 : Bytes → ℕ
get_le16 memory = bit_or (get8 memory 1 * 2 ^ 8) (get8 memory 0)

unfoldable pub get_le32 : Bytes → ℕ
get_le32 memory =
    bit_or
      (bit_or (bit_or (get8 memory 3 * 2 ^ 24) (get8 memory 2 * 2 ^ 16)) (get8 memory 1 * 2 ^ 8))
      (get8 memory 0)

unfoldable pub get_le64 : Bytes → ℕ
get_le64 memory =
    let high = high_half (get8 memory 7) (get8 memory 6) (get8 memory 5) (get8 memory 4) in
    bit_or
      (bit_or (bit_or (bit_or high (get8 memory 3 * 2 ^ 24)) (get8 memory 2 * 2 ^ 16))
        (get8 memory 1 * 2 ^ 8))
      (get8 memory 0)

-- A 64-bit number in the memory of a host, as the host stores and reads it.
abbrev pub stored64 : Bool → ℕ → Bytes
stored64 is_host_big_endian n = if is_host_big_endian then set_be64 n else set_le64 n

abbrev pub loaded64 : Bool → Bytes → ℕ
loaded64 is_host_big_endian memory = if is_host_big_endian then get_be64 memory else get_le64 memory

unfoldable pub host_to_network64 : Bool → ℕ → ℕ
unfolding get_be64
host_to_network64 is_host_big_endian n =
    if is_host_big_endian then n else get_be64 (stored64 is_host_big_endian n)

unfoldable pub network_to_host64 : Bool → ℕ → ℕ
unfolding get_be64
network_to_host64 is_host_big_endian n =
    if is_host_big_endian then n else get_be64 (stored64 is_host_big_endian n)
