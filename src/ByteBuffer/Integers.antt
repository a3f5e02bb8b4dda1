-- ===== src/ByteBuffer/Integers.antt =====
-- The integers of a byte buffer (ReadUInt8 to ReadUInt64 and WriteUInt8 to WriteUInt64 of
-- bytebuffer.cc). htons, htonl, ntohs and ntohl are the C library's. A Boolean tells whether the
-- byte order of the buffer is that of the network.
pub mod Widths
use txmpp.ByteBuffer.{Buffer, write_bytes, read_bytes}
use txmpp.ByteOrder.{
  set_be16, set_be32, get_be16, get_be32, set_le16, set_le32, get_le16, get_le32, stored64,
  loaded64, host_to_network64, network_to_host64,
}
use txmpp.Common.{
  ℕ, Bool, true, false, ◌||◌, List, [], ◌∷◌, ◌++◌, Option, none, some, Bytes, take, drop, at_or,
  if◌then◌else◌, ◌>>=◌,
}

-- The host: whether it is big-endian, and its C library.
pub record Host : Type 0 where
  pub big : Bool
  pub htons : ℕ → ℕ
  pub htonl : ℕ → ℕ
  pub ntohs : ℕ → ℕ
  pub ntohl : ℕ → ℕ

-- A number of 16 and 32 bits in the memory of a host, as the host stores and reads it.
abbrev pub stored16 : Bool → ℕ → Bytes
stored16 big n = if big then set_be16 n else set_le16 n

abbrev pub stored32 : Bool → ℕ → Bytes
stored32 big n = if big then set_be32 n else set_le32 n

abbrev pub loaded16 : Bool → Bytes → ℕ
loaded16 big memory = if big then get_be16 memory else get_le16 memory

abbrev pub loaded32 : Bool → Bytes → ℕ
loaded32 big memory = if big then get_be32 memory else get_le32 memory

-- Which of the functions.
pub data Width : Type 0 where
  uint8 uint16 uint24 uint32 uint64 : Width

abbrev pub bytes_of : Width → ℕ
bytes_of uint8 = 1
bytes_of uint16 = 2
bytes_of uint24 = 3
bytes_of uint32 = 4
bytes_of uint64 = 8

-- What WriteUInt8 and the others give to WriteBytes.
unfoldable pub bytes_out : Host → Bool → Width → ℕ → Bytes
unfolding set_be16 set_be32 set_le16 set_le32 host_to_network64
bytes_out host network uint8 val = val ∷ []
bytes_out host network uint16 val = stored16 host.big (if network then host.htons val else val)
bytes_out host network uint24 val =
    let start = stored32 host.big (if network then host.htonl val else val) in
    take 3 (if network || host.big then drop 1 start else start)
bytes_out host network uint32 val = stored32 host.big (if network then host.htonl val else val)
bytes_out host network uint64 val =
    stored64 host.big (if network then host_to_network64 host.big val else val)

-- What ReadUInt8 and the others make of what ReadBytes gives them.
unfoldable pub number_in : Host → Bool → Width → Bytes → ℕ
unfolding get_be16 get_be32 get_le16 get_le32 network_to_host64
number_in host network uint8 memory = at_or 0 memory 0
number_in host network uint16 memory =
    let v = loaded16 host.big memory in if network then host.ntohs v else v
number_in host network uint24 memory =
    let read_into = if network || host.big then 0 ∷ memory else memory ++ (0 ∷ []) in
    let v = loaded32 host.big read_into in if network then host.ntohl v else v
number_in host network uint32 memory =
    let v = loaded32 host.big memory in if network then host.ntohl v else v
number_in host network uint64 memory =
    let v = loaded64 host.big memory in if network then network_to_host64 host.big v else v

unfoldable pub write_uint : Host → Bool → ℕ → Width → ℕ → Buffer → Option Buffer
unfolding bytes_out
write_uint host network fill width val b = write_bytes fill (bytes_out host network width val) b

-- The inner none is false, with which the number of the caller stays as it is.
unfoldable pub read_uint : Host → Bool → Width → Buffer → Option (Option ℕ × Buffer)
unfolding number_in
read_uint host network width b = read_bytes (bytes_of width) b >>= λ r.
    some (if r.0 then some (number_in host network width r.1) else none, r.2)

-- Integers written one behind the other, and as many read; none is also a read that fails.
unfoldable pub write_all : Host → Bool → ℕ → List (Width × ℕ) → Buffer → Option Buffer
unfolding write_uint
write_all host network fill [] b = some b
write_all host network fill ((width, val) ∷ rest) b =
    write_uint host network fill width val b >>= λ b'. write_all host network fill rest b'

abbrev pub read_on : Option ℕ → Option (List ℕ × Buffer) → Option (List ℕ × Buffer)
read_on none _ = none
read_on (some v) r = r >>= λ (vs, b). some (v ∷ vs, b)

unfoldable pub read_all : Host → Bool → List Width → Buffer → Option (List ℕ × Buffer)
unfolding read_uint
read_all host network [] b = some ([], b)
read_all host network (width ∷ rest) b =
    read_uint host network width b >>= λ (v, b'). read_on v (read_all host network rest b')
