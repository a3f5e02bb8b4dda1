-- ===== src/StringEncode/Fields.antt =====
-- Whole strings of hexadecimal digits, and fields (hex_encode, hex_decode, tokenize, split and
-- make_char_safe_for_filename of stringencode.cc).
use Prim.Native.Nat.{bit_and, min}
use txmpp.Common.{
  ℕ, zero, suc, ◌+◌, ◌-◌, ◌*◌, ◌/◌, ◌≤◌, ◌<◌, true, false, ◌||◌, ◌≡◌, refl, ap, sym, ◌∙◌, List, [],
  ◌∷◌, ◌++◌, none, some, inl, inr, Bytes, length, take, is_empty, AllTrue, nil, cons, ltb, leb,
  ◌==◌, if◌then◌else◌, Bool-cases, arith,
}
use txmpp.StringEncode.{hex_encode, hex_byte}
use txmpp.StringEncode.Pieces.{is_byte, hex_byte-hex_encode}

-- The loop over the first srclen bytes.
unfoldable pub hex_encode_loop : ℕ → Bytes → Bytes
unfolding hex_encode
hex_encode_loop zero source = []
hex_encode_loop (suc srclen) [] = []
hex_encode_loop (suc srclen) (ch ∷ source) =
    hex_encode (bit_and (ch / 16) 0xF) ∷ hex_encode (bit_and ch 0xF) ∷ hex_encode_loop srclen source

unfoldable pub hex_encode_buffer : ℕ → Bytes → Bytes
unfolding hex_encode_loop
hex_encode_buffer buflen source =
    if leb buflen 0 then [] else hex_encode_loop (min (length source) ((buflen - 1) / 2)) source

unfoldable pub hex_encode_string : Bytes → Bytes
unfolding hex_encode_buffer
hex_encode_string source = hex_encode_buffer (length source * 2 + 1) source

-- The loop stops at what is no two digits.
unfoldable pub hex_decode_loop : ℕ → ℕ → Bytes → Bytes
unfolding hex_byte
hex_decode_loop buflen bufpos (a ∷ b ∷ source) =
    let rest = hex_decode_loop buflen (bufpos + 1) source in
    if ltb (bufpos + 1) buflen then elim (hex_byte a b) [ some v ↦ v ∷ rest | none ↦ [] ] else []
hex_decode_loop buflen bufpos _ = []

unfoldable pub hex_decode_buffer : ℕ → Bytes → Bytes
unfolding hex_decode_loop
hex_decode_buffer buflen source = if leb buflen 0 then [] else hex_decode_loop buflen 0 source

hex_loops :
    (n m a : ℕ) {s : Bytes}
    → AllTrue is_byte s
    → a + m < n
    → hex_decode_loop n a (hex_encode_loop m s) ≡ take m s
unfolding hex_decode_loop hex_encode_loop
hex_loops n zero a h lt = refl
hex_loops n (suc m) a nil lt = refl
hex_loops n (suc m) a (cons {x = ch} h t) lt =
    let room : ltb (a + 1) n ≡ true = ground (arith, lt) in
    rw
      (
        room,
        hex_byte-hex_encode ch (ground (arith, h)),
        hex_loops n m (a + 1) t (omega (arith, lt)),
      )
      refl

take_all : (m : ℕ) (s : Bytes) → length s ≤ m → take m s ≡ s
take_all zero [] h = refl
take_all (suc m) [] h = refl
take_all zero (x ∷ s) h = absurd (omega arith)
take_all (suc m) (x ∷ s) h = ap (◌∷◌ x) (take_all m s (omega (arith, h)))

take-min : (m : ℕ) (s : Bytes) → take (min (length s) m) s ≡ take m s
take-min m s = elim (Bool-cases (leb (length s) m)) [
  | inl e ↦
      let fits : length s ≤ m = ground (arith, e) in
      let shorter : min (length s) m ≡ length s = omega (arith, fits) in
      rw shorter (take_all (length s) s (omega arith) ∙ sym (take_all m s fits))
  | inr e ↦ let longer : min (length s) m ≡ m = ground (arith, e) in rw longer refl
]

-- hex_encode and hex_decode of strings of bytes, with one buffer length for both that is not 0:
-- what comes back is as much of the string as two digits for each byte and a null leave room for.
pub hex_decode-hex_encode :
    (buflen : ℕ) {source : Bytes}
    → AllTrue is_byte source
    → 1 ≤ buflen
    → hex_decode_buffer buflen (hex_encode_buffer buflen source) ≡ take ((buflen - 1) / 2) source
unfolding hex_decode_buffer hex_encode_buffer
hex_decode-hex_encode n {source = s} h lt =
    let room : leb n 0 ≡ false = ground arith in
    rw room
      (hex_loops n (min (length s) ((n - 1) / 2)) 0 h (omega arith) ∙ take-min ((n - 1) / 2) s)

-- The fields, where field is what stands from last to i.
unfoldable pub split_from : ℕ → Bytes → Bytes → List Bytes
split_from delimiter field [] = field ∷ []
split_from delimiter field (c ∷ source) = elim (c == delimiter) [
  | true ↦ field ∷ split_from delimiter [] source
  | false ↦ split_from delimiter (field ++ c ∷ []) source
]

unfoldable pub split : Bytes → ℕ → List Bytes
unfolding split_from
split source delimiter = split_from delimiter [] source

unfoldable pub push_field : Bytes → List Bytes → List Bytes
unfolding is_empty
push_field field fields = if is_empty field then fields else field ∷ fields

unfoldable pub tokenize_from : ℕ → Bytes → Bytes → List Bytes
unfolding push_field
tokenize_from delimiter field [] = push_field field []
tokenize_from delimiter field (c ∷ source) = elim (c == delimiter) [
  | true ↦ push_field field (tokenize_from delimiter [] source)
  | false ↦ tokenize_from delimiter (field ++ c ∷ []) source
]

unfoldable pub tokenize : Bytes → ℕ → List Bytes
unfolding tokenize_from
tokenize source delimiter = tokenize_from delimiter [] source

-- With char signed, the bytes from 128 on are below 32 as well.
unfoldable pub make_char_safe_for_filename : ℕ → ℕ
make_char_safe_for_filename c =
    if ltb c 32 || leb 128 c
    then b'_'
    else if c == b'<'
        || c == b'>'
        || c == b':'
        || c == b'"'
        || c == b'/'
        || c == b'\\'
        || c == b'|'
        || c == b'*'
        || c == b'?'
    then b'_'
    else c
