-- ===== src/ByteBuffer/Integers/Widths.antt =====
-- The integers of a byte buffer, written and read in turn (bytebuffer.cc).
use mathlib.Core.List.{append-nil, append_assoc}
use txmpp.ByteBuffer.{Buffer}
use txmpp.ByteBuffer.Integers.{
  Host, stored16, stored32, loaded16, loaded32, Width, uint8, uint16, uint24, uint32, uint64,
  bytes_of, bytes_out, number_in, read_uint, write_all, read_all,
}
use txmpp.ByteBuffer.Queue.{IsBuffer, contents, write-read_bytes}
use txmpp.ByteOrder.{
  set_be16, set_be32, set_be64, set_le16, set_le32, set_le64, stored64, loaded64, get_be32,
  get_le32, network_to_host64,
}
use txmpp.ByteOrder.Numbers.{
  get_be16-set_be16, get_le16-set_le16, get_be32-set_be32, get_le32-set_le32, get_be64-set_be64,
  get_le64-set_le64, stored64-host_to_network64, network_to_host64-loaded64,
}
use txmpp.Common.{
  ℕ, ◌*◌, ◌/◌, ◌%◌, ◌^◌, ◌<◌, Bool, true, false, ◌≡◌, refl, ap, sym, ◌∙◌, arith, List, [], ◌∷◌,
  ◌++◌, some, Bytes, length, take, drop, inl, inr, if◌then◌else◌, ◌||◌, take-append_eq, drop-append,
  length-append,
}

-- What the C library says of its conversions: the one gives a number that lies in memory with its
-- high byte first, the other takes what such memory holds back to the number.
pub data IsHost (host : Host) : Type 0 where
  converts :
      ((v : ℕ) → v < 2 ^ 16 → stored16 host.big (host.htons v) ≡ set_be16 v)
      → ((v : ℕ) → v < 2 ^ 32 → stored32 host.big (host.htonl v) ≡ set_be32 v)
      → ((v : ℕ) → v < 2 ^ 16 → host.ntohs (loaded16 host.big (set_be16 v)) ≡ v)
      → ((v : ℕ) → v < 2 ^ 32 → host.ntohl (loaded32 host.big (set_be32 v)) ≡ v)
      → IsHost host

-- The numbers of a width.
abbrev pub Fits : Width → ℕ → Type 0
Fits width v = v < 2 ^ (8 * bytes_of width)

loaded16-stored16 : (big : Bool) (v : ℕ) → v < 2 ^ 16 → loaded16 big (stored16 big v) ≡ v
loaded16-stored16 true v h = get_be16-set_be16 v h
loaded16-stored16 false v h = get_le16-set_le16 v h

loaded32-stored32 : (big : Bool) (v : ℕ) → v < 2 ^ 32 → loaded32 big (stored32 big v) ≡ v
loaded32-stored32 true v h = get_be32-set_be32 v h
loaded32-stored32 false v h = get_le32-set_le32 v h

loaded64-stored64 : (big : Bool) (v : ℕ) → v < 2 ^ 64 → loaded64 big (stored64 big v) ≡ v
loaded64-stored64 true v h = get_be64-set_be64 v h
loaded64-stored64 false v h = get_le64-set_le64 v h

-- The byte that the 24-bit functions leave out.
high_byte : (v : ℕ) → v < 2 ^ 24 → v / 2 ^ 24 % 256 ≡ 0
high_byte v h = omega arith

byte_before : (v : ℕ) → v < 2 ^ 24 → 0 ∷ take 3 (drop 1 (set_be32 v)) ≡ set_be32 v
unfolding set_be32
byte_before v h = rw (high_byte v h) refl

byte_behind : (v : ℕ) → v < 2 ^ 24 → take 3 (set_le32 v) ++ (0 ∷ []) ≡ set_le32 v
unfolding set_le32
byte_behind v h = rw (high_byte v h) refl

loaded24-stored24 :
    (big : Bool) (v : ℕ)
    → v < 2 ^ 24
    → (let m = take 3 (if big then drop 1 (stored32 big v) else stored32 big v) in
        loaded32 big (if big then 0 ∷ m else m ++ (0 ∷ [])))
      ≡ v
loaded24-stored24 true v h = ap get_be32 (byte_before v h) ∙ get_be32-set_be32 v (omega arith)
loaded24-stored24 false v h = ap get_le32 (byte_behind v h) ∙ get_le32-set_le32 v (omega arith)

length-stored16 : (big : Bool) (v : ℕ) → length (stored16 big v) ≡ 2
unfolding set_be16 set_le16
length-stored16 true v = refl
length-stored16 false v = refl

length-stored24 :
    (network big : Bool) (v : ℕ)
    → length (take 3 (if network || big then drop 1 (stored32 big v) else stored32 big v)) ≡ 3
unfolding set_be32 set_le32
length-stored24 true true v = refl
length-stored24 true false v = refl
length-stored24 false true v = refl
length-stored24 false false v = refl

length-stored32 : (big : Bool) (v : ℕ) → length (stored32 big v) ≡ 4
unfolding set_be32 set_le32
length-stored32 true v = refl
length-stored32 false v = refl

length-stored64 : (big : Bool) (v : ℕ) → length (stored64 big v) ≡ 8
unfolding set_be64 set_le64
length-stored64 true v = refl
length-stored64 false v = refl

module _ (host : Host) (lib : IsHost host) where
  read24-network :
      (v : ℕ) → v < 2 ^ 24 → number_in host true uint24 (bytes_out host true uint24 v) ≡ v
  unfolding number_in bytes_out
  read24-network v h = elim lib [
    | converts hs hl ns nl ↦
        ap (λ m. host.ntohl (loaded32 host.big (0 ∷ take 3 (drop 1 m)))) (hl v (omega arith))
        ∙ ap (λ m. host.ntohl (loaded32 host.big m)) (byte_before v h)
        ∙ nl v (omega arith)
  ]

  network-read :
      (width : Width) (v : ℕ)
      → Fits width v
      → number_in host true width (bytes_out host true width v) ≡ v
  unfolding number_in bytes_out
  network-read uint8 v h = refl
  network-read uint16 v h = elim lib [
    | converts hs hl ns nl ↦ ap (λ m. host.ntohs (loaded16 host.big m)) (hs v h) ∙ ns v h
  ]
  network-read uint24 v h = read24-network v h
  network-read uint32 v h = elim lib [
    | converts hs hl ns nl ↦ ap (λ m. host.ntohl (loaded32 host.big m)) (hl v h) ∙ nl v h
  ]
  network-read uint64 v h =
      ap (λ m. network_to_host64 host.big (loaded64 host.big m))
        (stored64-host_to_network64 host.big v)
      ∙ network_to_host64-loaded64 host.big v h

  own-read :
      (width : Width) (v : ℕ)
      → Fits width v
      → number_in host false width (bytes_out host false width v) ≡ v
  unfolding number_in bytes_out
  own-read uint8 v h = refl
  own-read uint16 v h = loaded16-stored16 host.big v h
  own-read uint24 v h = loaded24-stored24 host.big v h
  own-read uint32 v h = loaded32-stored32 host.big v h
  own-read uint64 v h = loaded64-stored64 host.big v h

  number_in-bytes_out :
      (network : Bool) (width : Width) (v : ℕ)
      → Fits width v
      → number_in host network width (bytes_out host network width v) ≡ v
  number_in-bytes_out true = network-read
  number_in-bytes_out false = own-read

  length-bytes_out :
      (network : Bool) (width : Width) (v : ℕ)
      → length (bytes_out host network width v) ≡ bytes_of width
  unfolding bytes_out
  length-bytes_out network uint8 v = refl
  length-bytes_out network uint16 v = length-stored16 host.big _
  length-bytes_out network uint24 v = length-stored24 network host.big _
  length-bytes_out network uint32 v = length-stored32 host.big _
  length-bytes_out network uint64 v = length-stored64 host.big _

-- The bytes of the integers.
abbrev all_bytes : Host → Bool → List (Width × ℕ) → Bytes
all_bytes host network [] = []
all_bytes host network ((width, v) ∷ ns) =
    bytes_out host network width v ++ all_bytes host network ns

-- Each number fits its width.
pub data AllFit : List (Width × ℕ) → Type 0 where
  no_more : AllFit []
  and_fits :
      {width : Width} {v : ℕ} {ns : List (Width × ℕ)}
      → Fits width v
      → AllFit ns
      → AllFit ((width, v) ∷ ns)

abbrev pub widths : List (Width × ℕ) → List Width
widths [] = []
widths ((width, v) ∷ ns) = width ∷ widths ns

abbrev pub numbers : List (Width × ℕ) → List ℕ
numbers [] = []
numbers ((width, v) ∷ ns) = v ∷ numbers ns

write_all-appends :
    (host : Host) (network : Bool) (fill : ℕ) (ns : List (Width × ℕ)) (b : Buffer)
    → IsBuffer b
    → (b' : Buffer) × (write_all host network fill ns b ≡ some b')
      × (contents b' ≡ contents b ++ all_bytes host network ns)
      × IsBuffer b'
unfolding write_all
write_all-appends host network fill [] b h = (b, refl, sym (append-nil (contents b)), h)
write_all-appends host network fill ((width, v) ∷ ns) b h =
    let (b1, e1, c1, h1) = (write-read_bytes fill (bytes_out host network width v) 0 b h).0 in
    let (b2, e2, c2, h2) = write_all-appends host network fill ns b1 h1 in
    (
      b2,
      rw e1 e2,
      c2
          ∙ ap (λ s. s ++ all_bytes host network ns) c1
          ∙ append_assoc (contents b) (bytes_out host network width v) (all_bytes host network ns),
      h2,
    )

same_parts : (x y u w : Bytes) → length x ≡ length u → x ++ y ≡ u ++ w → (x ≡ u) × (y ≡ w)
same_parts x y u w n e = (
  sym (take-append_eq x y (sym n)) ∙ ap (take (length u)) e ∙ take-append_eq u w refl,
  sym (drop-append x y) ∙ ap (λ k. drop k (x ++ y)) n ∙ ap (drop (length u)) e ∙ drop-append u w,
)

module _ (host : Host) (lib : IsHost host) (network : Bool) where
  read_uint-next :
      (width : Width) (v : ℕ) (rest : Bytes) (b : Buffer)
      → Fits width v
      → IsBuffer b
      → contents b ≡ bytes_out host network width v ++ rest
      → (b' : Buffer) × (read_uint host network width b ≡ some (some v, b'))
        × (contents b' ≡ rest)
        × IsBuffer b'
  unfolding read_uint
  read_uint-next width v rest b small h e =
      let size = length-bytes_out host lib network width v in
      let out = bytes_out host network width v in
      elim (write-read_bytes 0 [] (bytes_of width) b h).1 [
        | inl (short, _) ↦ absurd (omega (arith, short, size, ap length e, length-append out rest))
        | inr (val, b', r, n, parts, h') ↦
            let (same, left) =
              same_parts val (contents b') out rest (n ∙ sym size) (sym parts ∙ e) in
            let value =
              ap (number_in host network width) same
              ∙ number_in-bytes_out host lib network width v small in
            (b', rw (r, value) refl, left, h')
      ]

  read_all-takes :
      (ns : List (Width × ℕ)) (b : Buffer)
      → AllFit ns
      → IsBuffer b
      → contents b ≡ all_bytes host network ns
      → (b' : Buffer) × (read_all host network (widths ns) b ≡ some (numbers ns, b'))
        × (contents b' ≡ [])
  unfolding read_all
  read_all-takes [] b fit h e = (b, refl, e)
  read_all-takes ((width, v) ∷ ns) b (and_fits small fit) h e =
      let (b1, e1, c1, h1) = read_uint-next width v (all_bytes host network ns) b small h e in
      let (b2, e2, c2) = read_all-takes ns b1 fit h1 c1 in (b2, rw (e1, e2) refl, c2)

-- Integers that are written to an empty buffer, each within its width, are read back, with the
-- widths in the same order, and the buffer is empty again. Each operation succeeds. This holds for
-- either byte order of the buffer and of the host, where htons, htonl, ntohs and ntohl convert
-- between the order of the host and that of the network.
pub read_all-write_all :
    (host : Host)
    → IsHost host
    → (network : Bool) (fill : ℕ) (ns : List (Width × ℕ)) (b : Buffer) → AllFit ns
    → IsBuffer b
    → contents b ≡ []
    → (b1 b2 : Buffer) × (write_all host network fill ns b ≡ some b1)
      × (read_all host network (widths ns) b1 ≡ some (numbers ns, b2))
      × (contents b2 ≡ [])
read_all-write_all host lib network fill ns b fit h e =
    let (b1, e1, c1, h1) = write_all-appends host network fill ns b h in
    let (b2, e2, c2) =
      read_all-takes host lib network ns b1 fit h1
        (c1 ∙ ap (λ s. s ++ all_bytes host network ns) e) in
    (b1, b2, e1, e2, c2)
