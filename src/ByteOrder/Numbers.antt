-- ===== src/ByteOrder/Numbers.antt =====
-- A number that is stored is read back (byteorder.h).
use Prim.Native.Nat.{bit_or}
use txmpp.ByteOrder.{
  set_be16, set_be32, set_be64, get_be16, get_be32, get_be64, set_le16, set_le32, set_le64,
  get_le16, get_le32, get_le64, stored64, host_to_network64, loaded64, network_to_host64,
}
use txmpp.Common.{
  ℕ, ◌+◌, ◌*◌, ◌/◌, ◌%◌, ◌^◌, ◌<◌, Bool, true, false, ◌≡◌, refl, ap, ◌∙◌, arith, [], ◌∷◌, Bytes,
}
use txmpp.Common.Bits.Masks.{or_below, shifted}

-- One more byte behind v times w.
or_next :
    (k w v acc x : ℕ) → acc ≡ v * w → v * w ≡ shifted k v → x < shifted k 1 → bit_or acc x ≡ acc + x
or_next k w v acc x e e' h = rw e (or_below k w v x e' h)

pub joined16 : (a b : ℕ) → b < 256 → bit_or (a * 2 ^ 8) b ≡ a * 256 + b
joined16 a b h = or_next 8 256 a (a * 256) b refl (omega arith) (omega arith)

pub joined32 :
    (a b c d : ℕ)
    → b < 256
    → c < 256
    → d < 256
    → bit_or (bit_or (bit_or (a * 2 ^ 24) (b * 2 ^ 16)) (c * 2 ^ 8)) d
      ≡ ((a * 256 + b) * 256 + c) * 256 + d
joined32 a b c d hb hc hd =
    let s1 = or_next 24 16777216 a (a * 16777216) (b * 65536) refl (omega arith) (omega arith) in
    let t1 = bit_or (a * 16777216) (b * 65536) in
    let s2 =
      or_next 16 65536 (a * 256 + b) t1 (c * 256) (omega (arith, s1)) (omega arith) (omega arith) in
    let t2 = bit_or t1 (c * 256) in
    let s3 =
      or_next 8 256 ((a * 256 + b) * 256 + c) t2 d (omega (arith, s1, s2)) (omega arith)
        (omega arith) in
    omega (arith, s1, s2, s3)

pub get_be16-set_be16 : (v : ℕ) → v < 2 ^ 16 → get_be16 (set_be16 v) ≡ v
unfolding get_be16 set_be16
get_be16-set_be16 v h = joined16 (v / 2 ^ 8 % 256) (v % 256) (omega arith) ∙ omega arith

pub get_le16-set_le16 : (v : ℕ) → v < 2 ^ 16 → get_le16 (set_le16 v) ≡ v
unfolding get_le16 set_le16
get_le16-set_le16 v h = joined16 (v / 2 ^ 8 % 256) (v % 256) (omega arith) ∙ omega arith

pub get_le32-set_le32 : (v : ℕ) → v < 2 ^ 32 → get_le32 (set_le32 v) ≡ v
unfolding get_le32 set_le32
get_le32-set_le32 v h =
    joined32 (v / 2 ^ 24 % 256) (v / 2 ^ 16 % 256) (v / 2 ^ 8 % 256) (v % 256) (omega arith)
      (omega arith) (omega arith)
    ∙ omega arith

pub get_be32-set_be32 : (v : ℕ) → v < 2 ^ 32 → get_be32 (set_be32 v) ≡ v
unfolding get_be32 set_be32
get_be32-set_be32 v h =
    joined32 (v / 2 ^ 24 % 256) (v / 2 ^ 16 % 256) (v / 2 ^ 8 % 256) (v % 256) (omega arith)
      (omega arith) (omega arith)
    ∙ omega arith

-- The number with these bytes, the high one first.
abbrev number4 : ℕ → ℕ → ℕ → ℕ → ℕ
number4 a b c d = ((a * 256 + b) * 256 + c) * 256 + d

abbrev number8 : ℕ → ℕ → ℕ → ℕ → ℕ → ℕ → ℕ → ℕ → ℕ
number8 a b c d e f g h = (((number4 a b c d * 256 + e) * 256 + f) * 256 + g) * 256 + h

joined_high :
    (a b c d : ℕ)
    → b < 256
    → c < 256
    → d < 256
    → bit_or (bit_or (bit_or (a * 2 ^ 56) (b * 2 ^ 48)) (c * 2 ^ 40)) (d * 2 ^ 32)
      ≡ number4 a b c d * 2 ^ 32
joined_high a b c d hb hc hd =
    let t0 = a * 2 ^ 56 in
    let s1 = or_next 56 (2 ^ 56) a t0 (b * 2 ^ 48) refl (omega arith) (omega arith) in
    let t1 = bit_or t0 (b * 2 ^ 48) in
    let s2 =
      or_next 48 (2 ^ 48) (a * 256 + b) t1 (c * 2 ^ 40) (omega (arith, s1)) (omega arith)
        (omega arith) in
    let t2 = bit_or t1 (c * 2 ^ 40) in
    let s3 =
      or_next 40 (2 ^ 40) ((a * 256 + b) * 256 + c) t2 (d * 2 ^ 32) (omega (arith, s1, s2))
        (omega arith) (omega arith) in
    omega (arith, s1, s2, s3)

joined_low :
    (v e f g h : ℕ)
    → e < 256
    → f < 256
    → g < 256
    → h < 256
    → bit_or (bit_or (bit_or (bit_or (v * 2 ^ 32) (e * 2 ^ 24)) (f * 2 ^ 16)) (g * 2 ^ 8)) h
      ≡ (((v * 256 + e) * 256 + f) * 256 + g) * 256 + h
joined_low v e f g h he hf hg hh =
    let t0 = v * 2 ^ 32 in
    let s1 = or_next 32 (2 ^ 32) v t0 (e * 2 ^ 24) refl (omega arith) (omega arith) in
    let t1 = bit_or t0 (e * 2 ^ 24) in
    let s2 =
      or_next 24 (2 ^ 24) (v * 256 + e) t1 (f * 2 ^ 16) (omega (arith, s1)) (omega arith)
        (omega arith) in
    let t2 = bit_or t1 (f * 2 ^ 16) in
    let s3 =
      or_next 16 (2 ^ 16) ((v * 256 + e) * 256 + f) t2 (g * 2 ^ 8) (omega (arith, s1, s2))
        (omega arith) (omega arith) in
    let t3 = bit_or t2 (g * 2 ^ 8) in
    let s4 =
      or_next 8 256 (((v * 256 + e) * 256 + f) * 256 + g) t3 h (omega (arith, s1, s2, s3))
        (omega arith) (omega arith) in
    omega (arith, s1, s2, s3, s4)

-- Eight bytes.
data AreBytes (a b c d e f g h : ℕ) : Type 0 where
  each :
      a < 256
      → b < 256
      → c < 256
      → d < 256
      → e < 256
      → f < 256
      → g < 256
      → h < 256
      → AreBytes a b c d e f g h

abbrev memory8 : ℕ → ℕ → ℕ → ℕ → ℕ → ℕ → ℕ → ℕ → Bytes
memory8 a b c d e f g h = a ∷ b ∷ c ∷ d ∷ e ∷ f ∷ g ∷ h ∷ []

get_be64_lem :
    (a b c d e f g h : ℕ)
    → AreBytes a b c d e f g h
    → get_be64 (memory8 a b c d e f g h) ≡ number8 a b c d e f g h
unfolding get_be64
get_be64_lem a b c d e f g h (each _ hb hc hd he hf hg hh) =
    rw (joined_high a b c d hb hc hd) (joined_low (number4 a b c d) e f g h he hf hg hh)

get_le64_lem :
    (a b c d e f g h : ℕ)
    → AreBytes a b c d e f g h
    → get_le64 (memory8 h g f e d c b a) ≡ number8 a b c d e f g h
unfolding get_le64
get_le64_lem a b c d e f g h (each _ hb hc hd he hf hg hh) =
    rw (joined_high a b c d hb hc hd) (joined_low (number4 a b c d) e f g h he hf hg hh)

set_le64-number8 :
    (a b c d e f g h : ℕ)
    → AreBytes a b c d e f g h
    → set_le64 (number8 a b c d e f g h) ≡ memory8 h g f e d c b a
unfolding set_le64
set_le64-number8 a b c d e f g h (each ha hb hc hd he hf hg hh) =
    let n = number8 a b c d e f g h in
    let e0 : n % 256 ≡ h = omega arith in
    let e1 : n / 2 ^ 8 % 256 ≡ g = omega arith in
    let e2 : n / 2 ^ 16 % 256 ≡ f = omega arith in
    let e3 : n / 2 ^ 24 % 256 ≡ e = omega arith in
    let e4 : n / 2 ^ 32 % 256 ≡ d = omega arith in
    let e5 : n / 2 ^ 40 % 256 ≡ c = omega arith in
    let e6 : n / 2 ^ 48 % 256 ≡ b = omega arith in
    let e7 : n / 2 ^ 56 % 256 ≡ a = omega arith in rw (e0, e1, e2, e3, e4, e5, e6, e7) refl

-- Its bytes.
bytes_are :
    (v : ℕ)
    → AreBytes
        (v / 2 ^ 56 % 256)
        (v / 2 ^ 48 % 256)
        (v / 2 ^ 40 % 256)
        (v / 2 ^ 32 % 256)
        (v / 2 ^ 24 % 256)
        (v / 2 ^ 16 % 256)
        (v / 2 ^ 8 % 256)
        (v % 256)
bytes_are v =
    each (omega arith) (omega arith) (omega arith) (omega arith) (omega arith) (omega arith)
      (omega arith) (omega arith)

back_of :
    (v : ℕ)
    → AreBytes
        (v % 256)
        (v / 2 ^ 8 % 256)
        (v / 2 ^ 16 % 256)
        (v / 2 ^ 24 % 256)
        (v / 2 ^ 32 % 256)
        (v / 2 ^ 40 % 256)
        (v / 2 ^ 48 % 256)
        (v / 2 ^ 56 % 256)
back_of v =
    each (omega arith) (omega arith) (omega arith) (omega arith) (omega arith) (omega arith)
      (omega arith) (omega arith)

pub get_be64-set_be64 : (v : ℕ) → v < 2 ^ 64 → get_be64 (set_be64 v) ≡ v
unfolding set_be64
get_be64-set_be64 v h = get_be64_lem _ _ _ _ _ _ _ _ (bytes_are v) ∙ omega arith

pub get_le64-set_le64 : (v : ℕ) → v < 2 ^ 64 → get_le64 (set_le64 v) ≡ v
unfolding set_le64
get_le64-set_le64 v h = get_le64_lem _ _ _ _ _ _ _ _ (bytes_are v) ∙ omega arith

-- What a host stores of a number for the network is big-endian.
pub stored64-host_to_network64 :
    (big : Bool) (v : ℕ) → stored64 big (host_to_network64 big v) ≡ set_be64 v
unfolding host_to_network64 set_be64 set_le64
stored64-host_to_network64 true v = refl
stored64-host_to_network64 false v =
    ap set_le64 (get_be64_lem _ _ _ _ _ _ _ _ (back_of v))
    ∙ set_le64-number8 _ _ _ _ _ _ _ _ (back_of v)

get_le64-set_be64 :
    (v : ℕ)
    → get_le64 (set_be64 v)
      ≡ number8
          (v % 256)
          (v / 2 ^ 8 % 256)
          (v / 2 ^ 16 % 256)
          (v / 2 ^ 24 % 256)
          (v / 2 ^ 32 % 256)
          (v / 2 ^ 40 % 256)
          (v / 2 ^ 48 % 256)
          (v / 2 ^ 56 % 256)
unfolding set_be64
get_le64-set_be64 v = get_le64_lem _ _ _ _ _ _ _ _ (back_of v)

-- What a host loads of it, and turns back, is the number.
pub network_to_host64-loaded64 :
    (big : Bool) (v : ℕ) → v < 2 ^ 64 → network_to_host64 big (loaded64 big (set_be64 v)) ≡ v
unfolding network_to_host64 set_be64
network_to_host64-loaded64 true v h = get_be64-set_be64 v h
network_to_host64-loaded64 false v h =
    ap (λ n. get_be64 (set_le64 n)) (get_le64-set_be64 v)
    ∙ ap get_be64 (set_le64-number8 _ _ _ _ _ _ _ _ (back_of v))
    ∙ get_be64-set_be64 v h
