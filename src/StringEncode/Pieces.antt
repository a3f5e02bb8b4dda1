-- ===== src/StringEncode/Pieces.antt =====
-- The pieces of the encoders of stringencode.cc, and that they are read back.
use Prim.Native.Nat.{bit_and}
use txmpp.Common.{
  ℕ, ◌/◌, ◌<◌, Bool, true, false, not, ◌&&◌, ◌||◌, ◌≡◌, refl, ap, sym, ◌∙◌, inl, inr, [], ◌∷◌,
  Bytes, ltb, ◌==◌, ==_iff, arith, Bool-cases, Option, some, none, false_not_true, Option-cases,
}
use txmpp.Common.Bits.{by_table}
use txmpp.StringEncode.{
  hex_encode, hex_byte, strchr, escape_piece, unescaped, hex_piece, encode_piece, decoded,
  url_piece, url_decoded, is_unsafe, url_unsafe,
}
use txmpp.StringEncode.Loops.{Reads}

pub escape_back : (illegal : Bytes) (e ch : ℕ) → Reads (escape_piece illegal e) (unescaped e) ch
unfolding escape_piece unescaped
escape_back illegal e ch = elim (Bool-cases (ch == e || strchr illegal ch)) [
  | inl h ↦ record {
    first = e;
    behind = ch ∷ [];
    splits = rw h refl;
    reads = λ rest. rw ((==_iff e e).1 refl) refl;
  }
  | inr h ↦ record {
    first = ch;
    behind = [];
    splits = rw h refl;
    reads = λ rest. plain rest (ground (arith, h));
  }
]
  where
    plain : (rest : Bytes) → (ch == e) ≡ false → unescaped e ch rest ≡ (ch, 0)
    plain [] h = refl
    plain (x ∷ rest) h = rw h refl

abbrev pub is_byte : ℕ → Bool
is_byte ch = ltb ch 256

-- The digits of a byte are read back.
pub hex_table : ℕ → ℕ
unfolding hex_byte hex_encode
hex_table ch = elim (hex_byte (hex_encode (bit_and (ch / 16) 0xF)) (hex_encode (bit_and ch 0xF))) [
  | some v ↦ v
  | none ↦ 256
]

pub hex_table_lem : (ch : ℕ) → ch < 256 → hex_table ch ≡ ch
unfolding hex_table
hex_table_lem = by_table 256 _ (λ ch. ch) refl

pub hex_byte-hex_encode :
    (ch : ℕ)
    → ch < 256
    → hex_byte (hex_encode (bit_and (ch / 16) 0xF)) (hex_encode (bit_and ch 0xF)) ≡ some ch
unfolding hex_table
hex_byte-hex_encode ch lt =
    same (hex_byte (hex_encode (bit_and (ch / 16) 0xF)) (hex_encode (bit_and ch 0xF)))
      (hex_table_lem ch lt)
  where
    same : (o : Option ℕ) → (elim o [ some v ↦ v | none ↦ 256 ]) ≡ ch → o ≡ some ch
    same (some v) h = ap some h
    same none h = absurd (omega (arith, h, lt))

pub plain_decoded : (e ch : ℕ) (rest : Bytes) → (ch == e) ≡ false → decoded e ch rest ≡ (ch, 0)
unfolding decoded
plain_decoded e ch [] h = refl
plain_decoded e ch (a ∷ []) h = refl
plain_decoded e ch (a ∷ b ∷ rest) h = elim (Option-cases (hex_byte a b)) [
  | inl n ↦ rw (decoded, n) refl
  | inr (v, s) ↦ rw (decoded, s, h) refl
]

pub hex_back :
    (e ch : ℕ) (rest : Bytes)
    → ch < 256
    → decoded e e (hex_encode (bit_and (ch / 16) 0xF) ∷ hex_encode (bit_and ch 0xF) ∷ rest)
      ≡ (ch, 2)
unfolding decoded
hex_back e ch rest lt = rw (decoded, hex_byte-hex_encode ch lt, (==_iff e e).1 refl) refl

pub encode_back :
    (illegal : Bytes) (e ch : ℕ) → is_byte ch ≡ true → Reads (encode_piece illegal e) (decoded e) ch
unfolding encode_piece hex_piece
encode_back illegal e ch lt = elim (Bool-cases (not (ch == e) && not (strchr illegal ch))) [
  | inl h ↦ record {
    first = ch;
    behind = [];
    splits = rw h refl;
    reads = λ rest. plain_decoded e ch rest (ground (arith, h));
  }
  | inr h ↦ record {
    first = e;
    behind = hex_encode (bit_and (ch / 16) 0xF) ∷ hex_encode (bit_and ch 0xF) ∷ [];
    splits = rw h refl;
    reads = λ rest. hex_back e ch rest (ground (arith, lt));
  }
]

-- A safe character is no unsafe one.
pub safe_differs :
    (c ch : ℕ) → is_unsafe url_unsafe c ≡ true → is_unsafe url_unsafe ch ≡ false → (ch == c) ≡ false
safe_differs c ch u h = elim (Bool-cases (ch == c)) [
  | inr e ↦ e
  | inl e ↦ absurd (false_not_true (sym h ∙ ap (is_unsafe url_unsafe) ((==_iff ch c).0 e) ∙ u))
]

pub url_back : (ch : ℕ) → is_byte ch ≡ true → Reads url_piece url_decoded ch
unfolding url_piece url_decoded hex_piece is_unsafe
url_back ch lt = elim (Bool-cases (is_unsafe url_unsafe ch)) [
  | inr h ↦ record {
    first = ch;
    behind = [];
    splits = rw h refl;
    reads = λ rest.
        rw (safe_differs b'+' ch refl h) (plain_decoded b'%' ch rest (safe_differs b'%' ch refl h));
  }
  | inl h ↦ record {
    first = b'%';
    behind = hex_encode (bit_and (ch / 16) 0xF) ∷ hex_encode (bit_and ch 0xF) ∷ [];
    splits = rw h refl;
    reads = λ rest. hex_back b'%' ch rest (ground (arith, lt));
  }
]
