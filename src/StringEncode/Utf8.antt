-- ===== src/StringEncode/Utf8.antt =====
-- UTF-8, one character at a time (utf8_decode and utf8_encode of stringencode.cc). none is a byte
-- read behind the end of the memory that is given; the code reads the first byte whatever srclen.
use Prim.Native.Nat.{bit_and, bit_or}
use txmpp.Common.{
  ℕ, ◌*◌, ◌/◌, ◌%◌, ◌^◌, Bool, not, ◌&&◌, [], ◌∷◌, Option, none, some, Bytes, leb, ◌==◌,
  if◌then◌else◌,
}

-- (b & mask) == bits
abbrev pub masked : ℕ → ℕ → ℕ → Bool
masked mask bits b = bit_and b mask == bits

-- The bits of a byte behind the first, below those before it: (value16 << 6) | (b & 0x3F).
unfoldable pub trailer : ℕ → ℕ → ℕ
trailer v b = bit_or (v * 64) (bit_and b 0x3F)

unfoldable pub lead2 : ℕ → ℕ → ℕ
lead2 s0 v = bit_or (bit_and s0 0x1F * 2 ^ 6) v

unfoldable pub lead3 : ℕ → ℕ → ℕ
lead3 s0 v = bit_or (bit_and s0 0x0F * 2 ^ 12) v

unfoldable pub lead4 : ℕ → ℕ → ℕ
lead4 s0 v = bit_or (bit_and s0 0x07 * 2 ^ 18) v

-- The tests for 110xxxxx, 1110xxxx and 11110xxx, each behind the bytes that it needs; the result
-- is the length of the sequence and the value, and length 0 leaves the value alone.
unfoldable pub decode_four : ℕ → ℕ → Bytes → ℕ × ℕ
unfolding lead4 trailer
decode_four s0 v [] = (0, 0)
decode_four s0 v (s3 ∷ _) =
    if not (masked 0xC0 0x80 s3)
    then (0, 0)
    else if masked 0xF8 0xF0 s0
    then (4, lead4 s0 (trailer v s3))
    else (0, 0)

unfoldable pub decode_three : ℕ → ℕ → Bytes → ℕ × ℕ
unfolding lead3 trailer decode_four
decode_three s0 v [] = (0, 0)
decode_three s0 v (s2 ∷ s) =
    if not (masked 0xC0 0x80 s2)
    then (0, 0)
    else if masked 0xF0 0xE0 s0
    then (3, lead3 s0 (trailer v s2))
    else decode_four s0 (trailer v s2) s

unfoldable pub decode_two : ℕ → Bytes → ℕ × ℕ
unfolding lead2 decode_three
decode_two s0 [] = (0, 0)
decode_two s0 (s1 ∷ s) =
    if not (masked 0xC0 0x80 s1)
    then (0, 0)
    else if masked 0xE0 0xC0 s0
    then (2, lead2 s0 (bit_and s1 0x3F))
    else decode_three s0 (bit_and s1 0x3F) s

unfoldable pub utf8_decode : Bytes → Option (ℕ × ℕ)
unfolding decode_two
utf8_decode [] = none
utf8_decode (s0 ∷ s) = if masked 0x80 0x00 s0 then some (1, s0) else some (decode_two s0 s)

-- static_cast<unsigned char>
abbrev pub byte : ℕ → ℕ
byte n = n % 256

-- The six bits from bit k on, behind 10.
unfoldable pub six : ℕ → ℕ
six n = bit_or 0x80 (byte (bit_and n 0x3F))

unfoldable pub utf8_encode : ℕ → ℕ → Bytes
unfolding six
utf8_encode buflen value =
    if leb value 0x7F && leb 1 buflen
    then byte value ∷ []
    else if leb value 0x7FF && leb 2 buflen
    then byte (bit_or 0xC0 (byte (value / 2 ^ 6))) ∷ six value ∷ []
    else if leb value 0xFFFF && leb 3 buflen
    then byte (bit_or 0xE0 (byte (value / 2 ^ 12))) ∷ six (value / 2 ^ 6) ∷ six value ∷ []
    else if leb value 0x1FFFFF && leb 4 buflen
    then byte (bit_or 0xF0 (byte (value / 2 ^ 18)))
      ∷ six (value / 2 ^ 12)
      ∷ six (value / 2 ^ 6)
      ∷ six value
      ∷ []
    else []
