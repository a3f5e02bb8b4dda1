-- ===== src/Tests/Integers.antt =====
-- The integers of a byte buffer (bytebuffer.cc, byteorder.h), on a little-endian host.
use txmpp.ByteBuffer.{Buffer, construct, construct_empty, write_bytes, read_bytes}
use txmpp.ByteBuffer.Integers.{
  Host, Width, uint8, uint24, uint32, uint64, write_all, read_all, write_uint, read_uint,
}
use txmpp.ByteBuffer.Integers.Widths.{
  IsHost, converts, and_fits, no_more, widths, numbers, read_all-write_all,
}
use txmpp.ByteBuffer.Queue.{within, contents}
use txmpp.ByteOrder.{set_be16, set_be32, set_le16, set_le32, get_le16, get_le32}
use txmpp.ByteOrder.Numbers.{joined16, joined32}
use txmpp.Common.{
  ℕ, ◌+◌, ◌*◌, ◌/◌, ◌%◌, ◌^◌, ◌<◌, true, false, ◌≡◌, refl, ap, ◌∙◌, arith, List, [], ◌∷◌, none,
  some,
}

-- htons and ntohs, and htonl and ntohl.
abbrev swap16 : ℕ → ℕ
swap16 v = v % 256 * 256 + v / 2 ^ 8 % 256

abbrev swap32 : ℕ → ℕ
swap32 v = ((v % 256 * 256 + v / 2 ^ 8 % 256) * 256 + v / 2 ^ 16 % 256) * 256 + v / 2 ^ 24 % 256

abbrev little_host : Host
little_host = record { big = false; htons = swap16; htonl = swap32; ntohs = swap16; ntohl = swap32 }

set_le16-swap16 : (v : ℕ) → set_le16 (swap16 v) ≡ set_be16 v
unfolding set_le16 set_be16
set_le16-swap16 v =
    let e0 : swap16 v % 256 ≡ v / 2 ^ 8 % 256 = omega arith in
    let e1 : swap16 v / 2 ^ 8 % 256 ≡ v % 256 = omega arith in rw (e0, e1) refl

set_le32-swap32 : (v : ℕ) → set_le32 (swap32 v) ≡ set_be32 v
unfolding set_le32 set_be32
set_le32-swap32 v =
    let e0 : swap32 v % 256 ≡ v / 2 ^ 24 % 256 = omega arith in
    let e1 : swap32 v / 2 ^ 8 % 256 ≡ v / 2 ^ 16 % 256 = omega arith in
    let e2 : swap32 v / 2 ^ 16 % 256 ≡ v / 2 ^ 8 % 256 = omega arith in
    let e3 : swap32 v / 2 ^ 24 % 256 ≡ v % 256 = omega arith in rw (e0, e1, e2, e3) refl

swap16-get_le16 : (v : ℕ) → v < 2 ^ 16 → swap16 (get_le16 (set_be16 v)) ≡ v
unfolding get_le16 set_be16
swap16-get_le16 v h = ap swap16 (joined16 (v % 256) (v / 2 ^ 8 % 256) (omega arith)) ∙ omega arith

swap32-get_le32 : (v : ℕ) → v < 2 ^ 32 → swap32 (get_le32 (set_be32 v)) ≡ v
unfolding get_le32 set_be32
swap32-get_le32 v h =
    ap swap32 (
      joined32 (v % 256) (v / 2 ^ 8 % 256) (v / 2 ^ 16 % 256) (v / 2 ^ 24 % 256) (omega arith)
        (omega arith) (omega arith))
    ∙ omega arith

little_host-IsHost : IsHost little_host
little_host-IsHost =
    converts (λ v h. set_le16-swap16 v) (λ v h. set_le32-swap32 v) swap16-get_le16 swap32-get_le32

-- The buffer has no room for any of them.
abbrev written : List (Width × ℕ)
written = (uint24, 70000) ∷ (uint8, 200) ∷ (uint64, 81985529216486895) ∷ []

read_all-write_all_example :
    (b1 b2 : Buffer) × (write_all little_host true 0 written (construct_empty 0 1) ≡ some b1)
    × (read_all little_host true (widths written) b1 ≡ some (numbers written, b2))
    × (contents b2 ≡ [])
read_all-write_all_example =
    read_all-write_all little_host little_host-IsHost true 0 written (construct_empty 0 1)
      (and_fits (omega arith) (and_fits (omega arith) (and_fits (omega arith) no_more)))
      (within (omega arith) (omega arith)) refl

-- In network order the high byte comes first, and the 24-bit functions leave out the fourth.
in_order :
    write_uint little_host true 0 uint24 70000 (construct_empty 0 3)
    ≡ some (construct (1 ∷ 17 ∷ 112 ∷ []))
unfolding write_uint write_bytes
in_order = refl

-- A number that is not there leaves the buffer as it is.
too_short :
    read_uint little_host true uint32 (construct (1 ∷ 2 ∷ 3 ∷ []))
    ≡ some (none, construct (1 ∷ 2 ∷ 3 ∷ []))
unfolding read_uint read_bytes
too_short = refl
