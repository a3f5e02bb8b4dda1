-- ===== src/StringEncode.antt =====
-- The string encodings (stringencode.cc). A loop gives the bytes that it stores from bufpos on,
-- less the null behind them, and the returned length is theirs. strchr also finds the null that
-- ends the characters looked through.
pub mod Loops
pub mod Utf8
pub mod ReadBack
pub mod XmlText
pub mod HtmlPieces
pub mod HtmlText
pub mod Entities
pub mod Utf8Bytes
pub mod Characters
pub mod Pieces
pub mod RoundTrip
pub mod Fields
pub mod Cuts
use Prim.Native.Nat.{bit_and, bit_or}
use txmpp.Common.{
  ℕ, zero, suc, ◌+◌, ◌-◌, ◌*◌, ◌/◌, ◌%◌, Bool, true, false, not, ◌&&◌, ◌||◌, List, [], ◌∷◌, ◌++◌,
  Option, none, some, Bytes, codes, length, at_or, ltb, leb, ◌==◌, if◌then◌else◌, find_char,
}

-- hex_encode of one digit.
unfoldable pub hex_encode : ℕ → ℕ
hex_encode val = if ltb val 16 then at_or 0 (codes "0123456789abcdef") val else b'!'

-- hex_decode of one digit, with the letters that the code takes.
unfoldable pub hex_decode : ℕ → Option ℕ
hex_decode ch =
    if leb b'0' ch && leb ch b'9'
    then some (ch - b'0')
    else if leb b'A' ch && leb ch b'Z'
    then some (ch - b'A' + 10)
    else if leb b'a' ch && leb ch b'z'
    then some (ch - b'a' + 10)
    else none

-- (h1 << 4) | h2 in a byte.
unfoldable pub two_digits : ℕ → ℕ → ℕ
two_digits h1 h2 = bit_or (h1 * 16) h2 % 256

-- The byte of two digits.
unfoldable pub hex_byte : ℕ → ℕ → Option ℕ
unfolding hex_decode two_digits
hex_byte a b = elim (hex_decode a) [
  | none ↦ none
  | some h1 ↦ elim (hex_decode b) [ none ↦ none | some h2 ↦ some (two_digits h1 h2) ]
]

unfoldable pub strchr : Bytes → ℕ → Bool
unfolding find_char
strchr illegal ch = ch == 0 || elim (find_char ch illegal) [ some _ ↦ true | none ↦ false ]

-- The loop of the encoders: a character is stored as its piece, or ends the loop when the piece
-- leaves no room for the null.
unfoldable pub put_all : (ℕ → Bytes) → ℕ → ℕ → Bytes → Bytes
put_all piece buflen bufpos [] = []
put_all piece buflen bufpos (ch ∷ source) =
    let rest = put_all piece buflen (bufpos + length (piece ch)) source in
    if not (ltb (bufpos + 1) buflen)
    then []
    else if leb buflen (bufpos + length (piece ch))
    then []
    else piece ch ++ rest

-- The loop of the decoders: a character, seen with what follows it, gives the byte to store and
-- the number of characters to step over behind it; skip of them are left.
unfoldable pub get_all : (ℕ → Bytes → ℕ × ℕ) → ℕ → ℕ → ℕ → Bytes → Bytes
get_all reading buflen bufpos skip [] = []
get_all reading buflen bufpos (suc skip) (ch ∷ source) = get_all reading buflen bufpos skip source
get_all reading buflen bufpos zero (ch ∷ source) =
    let rest = get_all reading buflen (bufpos + 1) (reading ch source).1 source in
    if ltb (bufpos + 1) buflen then (reading ch source).0 ∷ rest else []

unfoldable pub escape_piece : Bytes → ℕ → ℕ → Bytes
unfolding strchr
escape_piece illegal escape ch =
    if ch == escape || strchr illegal ch then escape ∷ ch ∷ [] else ch ∷ []

unfoldable pub escape : ℕ → Bytes → Bytes → ℕ → Bytes
unfolding put_all escape_piece
escape buflen source illegal sign =
    if leb buflen 0 then [] else put_all (escape_piece illegal sign) buflen 0 source

unfoldable pub unescaped : ℕ → ℕ → Bytes → ℕ × ℕ
unescaped escape ch [] = (ch, 0)
unescaped escape ch (next ∷ _) = if ch == escape then (next, 1) else (ch, 0)

unfoldable pub unescape : ℕ → Bytes → ℕ → Bytes
unfolding get_all unescaped
unescape buflen source escape =
    if leb buflen 0 then [] else get_all (unescaped escape) buflen 0 0 source

-- The escape character and the two digits of a byte.
unfoldable pub hex_piece : ℕ → ℕ → Bytes
unfolding hex_encode
hex_piece escape ch = escape ∷ hex_encode (bit_and (ch / 16) 0xF) ∷ hex_encode (bit_and ch 0xF) ∷ []

unfoldable pub encode_piece : Bytes → ℕ → ℕ → Bytes
unfolding strchr hex_piece
encode_piece illegal escape ch =
    if not (ch == escape) && not (strchr illegal ch) then ch ∷ [] else hex_piece escape ch

unfoldable pub encode : ℕ → Bytes → Bytes → ℕ → Bytes
unfolding put_all encode_piece
encode buflen source illegal escape =
    if leb buflen 0 then [] else put_all (encode_piece illegal escape) buflen 0 source

-- A character, or the byte of the two digits behind an escape character.
unfoldable pub decoded : ℕ → ℕ → Bytes → ℕ × ℕ
unfolding hex_byte
decoded escape ch (a ∷ b ∷ _) = elim (hex_byte a b) [
  | some v ↦ if ch == escape then (v, 2) else (ch, 0)
  | none ↦ (ch, 0)
]
decoded escape ch _ = (ch, 0)

unfoldable pub decode : ℕ → Bytes → ℕ → Bytes
unfolding get_all decoded
decode buflen source escape =
    if leb buflen 0 then [] else get_all (decoded escape) buflen 0 0 source

abbrev pub url_unsafe : ℕ
url_unsafe = 0x1

abbrev pub xml_unsafe : ℕ
xml_unsafe = 0x2

abbrev ascii_class : List ℕ
ascii_class =
    1 ∷ 1 ∷ 1 ∷ 1 ∷ 1 ∷ 1 ∷ 1 ∷ 1 ∷ 1 ∷ 1 ∷ 1 ∷ 1 ∷ 1 ∷ 1 ∷ 1 ∷ 1 ∷ 1 ∷ 1 ∷ 1 ∷ 1 ∷ 1 ∷ 1 ∷ 1 ∷ 1
    ∷ 1 ∷ 1 ∷ 1 ∷ 1 ∷ 1 ∷ 1 ∷ 1 ∷ 1 ∷ 1 ∷ 0 ∷ 3 ∷ 1 ∷ 1 ∷ 1 ∷ 3 ∷ 2 ∷ 0 ∷ 0 ∷ 0 ∷ 1 ∷ 1 ∷ 0 ∷ 0 ∷ 1
    ∷ 0 ∷ 0 ∷ 0 ∷ 0 ∷ 0 ∷ 0 ∷ 0 ∷ 0 ∷ 0 ∷ 0 ∷ 1 ∷ 1 ∷ 3 ∷ 1 ∷ 3 ∷ 1 ∷ 1 ∷ 0 ∷ 0 ∷ 0 ∷ 0 ∷ 0 ∷ 0 ∷ 0
    ∷ 0 ∷ 0 ∷ 0 ∷ 0 ∷ 0 ∷ 0 ∷ 0 ∷ 0 ∷ 0 ∷ 0 ∷ 0 ∷ 0 ∷ 0 ∷ 0 ∷ 0 ∷ 0 ∷ 0 ∷ 0 ∷ 0 ∷ 1 ∷ 1 ∷ 1 ∷ 1 ∷ 0
    ∷ 1 ∷ 0 ∷ 0 ∷ 0 ∷ 0 ∷ 0 ∷ 0 ∷ 0 ∷ 0 ∷ 0 ∷ 0 ∷ 0 ∷ 0 ∷ 0 ∷ 0 ∷ 0 ∷ 0 ∷ 0 ∷ 0 ∷ 0 ∷ 0 ∷ 0 ∷ 0 ∷ 0
    ∷ 0 ∷ 0 ∷ 0 ∷ 1 ∷ 1 ∷ 1 ∷ 0 ∷ 1 ∷ []

-- (ch < 128) && (ASCII_CLASS[ch] & mask)
unfoldable pub is_unsafe : ℕ → ℕ → Bool
is_unsafe mask ch = ltb ch 128 && not (bit_and (at_or 0 ascii_class ch) mask == 0)

unfoldable pub url_piece : ℕ → Bytes
unfolding is_unsafe hex_piece
url_piece ch = if is_unsafe url_unsafe ch then hex_piece b'%' ch else ch ∷ []

-- With a buffer.
unfoldable pub url_encode : ℕ → Bytes → Bytes
unfolding put_all url_piece
url_encode buflen source = if leb buflen 0 then [] else put_all url_piece buflen 0 source

unfoldable pub url_decoded : ℕ → Bytes → ℕ × ℕ
unfolding decoded
url_decoded ch source = if ch == b'+' then (b' ', 0) else decoded b'%' ch source

-- With a buffer.
unfoldable pub url_decode : ℕ → Bytes → Bytes
unfolding get_all url_decoded
url_decode buflen source = if leb buflen 0 then [] else get_all url_decoded buflen 0 0 source

-- Without a buffer, the two answer with the size of one that is enough.
unfoldable pub url_encode_size : ℕ → ℕ
url_encode_size srclen = srclen * 3 + 1

unfoldable pub url_decode_size : ℕ → ℕ
url_decode_size srclen = srclen + 1

-- s_transform with each of them.
unfoldable pub s_url_encode : Bytes → Bytes
unfolding url_encode url_encode_size
s_url_encode source = url_encode (url_encode_size (length source)) source

unfoldable pub s_url_decode : Bytes → Bytes
unfolding url_decode url_decode_size
s_url_decode source = url_decode (url_decode_size (length source)) source
