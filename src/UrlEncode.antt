-- ===== src/UrlEncode.antt =====
-- URLs with '%' (urlencode.cc). A C string is a list that ends at its end or at its first 0;
-- none is the null that is stored behind the end of the buffer. isalnum of the C library is a
-- parameter, on the byte of the character; char is signed, so that a byte from 128 on is below ' '.
pub mod Pieces
pub mod RoundTrip
use Prim.Native.Nat.{bit_and}
use mathlib.Core.Option
use txmpp.Common.{
  ℕ, zero, suc, ◌+◌, ◌-◌, ◌*◌, ◌/◌, Bool, true, false, not, ◌&&◌, ◌||◌, List, [], ◌∷◌, ◌++◌, Option,
  none, some, Bytes, codes, length, at_or, ltb, leb, ◌==◌, if◌then◌else◌,
}
use txmpp.StringEncode.{strchr}

unfoldable pub hex_digit : ℕ → Option ℕ
hex_digit digit =
    if leb b'0' digit && leb digit b'9'
    then some (digit - b'0')
    else if leb b'A' digit && leb digit b'F'
    then some (digit - b'A' + 10)
    else if leb b'a' digit && leb digit b'f'
    then some (digit - b'a' + 10)
    else none

-- none is -1.
unfoldable pub hex_pair_value : ℕ → ℕ → Option ℕ
unfolding hex_digit
hex_pair_value a b = elim (hex_digit a) [
  | none ↦ none
  | some h ↦ elim (hex_digit b) [ none ↦ none | some l ↦ some (h * 16 + l) ]
]

-- The case of '%': the byte to store and the number of characters to step over.
unfoldable pub percent : Bytes → ℕ × ℕ
unfolding hex_pair_value
percent (a ∷ b ∷ _) =
    if not (a == 0) && not (b == 0)
    then elim (hex_pair_value a b) [ some value ↦ (value, 2) | none ↦ (b'?', 0) ]
    else (b'?', 0)
percent _ = (b'?', 0)

-- The switch.
unfoldable pub decode_one : Bool → ℕ → Bytes → ℕ × ℕ
unfolding percent
decode_one encode_space_as_plus c s =
    if c == b'+'
    then (if encode_space_as_plus then b' ' else c, 0)
    else if c == b'%'
    then percent s
    else (c, 0)

unfoldable pub decode_loop : Bool → ℕ → Bytes → Bytes
unfolding decode_one
decode_loop plus skip [] = []
decode_loop plus (suc skip) (c ∷ source) = decode_loop plus skip source
decode_loop plus zero (c ∷ source) =
    let rest = decode_loop plus (decode_one plus c source).1 source in
    if c == 0 then [] else (decode_one plus c source).0 ∷ rest

unfoldable pub internal_url_decode : Bytes → Bool → Bytes
unfolding decode_loop
internal_url_decode source encode_space_as_plus = decode_loop encode_space_as_plus 0 source

abbrev pub digit_of : ℕ → ℕ
digit_of v = at_or 0 (codes "0123456789ABCDEF") v

unfoldable pub escaped : ℕ → Bytes
escaped ch = b'%' ∷ digit_of (bit_and (ch / 16) 0x0F) ∷ digit_of (bit_and ch 0x0F) ∷ []

module _ (isalnum : ℕ → Bool) where
  unfoldable pub is_valid_url_char : ℕ → Bool → Bool
  unfolding strchr
  is_valid_url_char ch unsafe_only =
      if unsafe_only
      then not ((leb ch b' ' || leb 128 ch) || strchr (codes "\\\"^&`<>[]{}") ch)
      else isalnum ch || strchr (codes "-_.!~*'()") ch

  -- One round, with n characters stored of max: what it stores, or none where it breaks off.
  unfoldable pub encode_one : ℕ → Bool → Bool → ℕ → ℕ → Option Bytes
  unfolding is_valid_url_char escaped
  encode_one max encode_space_as_plus unsafe_only n ch =
      if ch == b' ' && encode_space_as_plus && not unsafe_only
      then some (b'+' ∷ [])
      else if is_valid_url_char ch unsafe_only
      then some (ch ∷ [])
      else if ltb max (n + 4)
      then none
      else some (escaped ch)

  -- The null behind what was stored.
  unfoldable pub ended : ℕ → ℕ → Option Bytes
  ended max n = if ltb n max then some [] else none

  unfoldable pub encode_loop : ℕ → Bool → Bool → ℕ → Bytes → Option Bytes
  unfolding encode_one ended
  encode_loop max plus unsafe_only n [] = ended max n
  encode_loop max plus unsafe_only n (ch ∷ source) = elim (ltb n max && not (ch == 0)) [
    | false ↦ ended max n
    | true ↦ elim (encode_one max plus unsafe_only n ch) [
      | none ↦ ended max n
      | some out ↦ Option.map (◌++◌ out) (encode_loop max plus unsafe_only (n + length out) source)
    ]
  ]

  unfoldable pub internal_url_encode : Bytes → ℕ → Bool → Bool → Option Bytes
  unfolding encode_loop
  internal_url_encode source max encode_space_as_plus unsafe_only =
      if max == 0 then some [] else encode_loop max encode_space_as_plus unsafe_only 0 source

  unfoldable pub url_encode : Bytes → ℕ → Option Bytes
  unfolding internal_url_encode
  url_encode source max = internal_url_encode source max true false

  unfoldable pub url_encode_without_encoding_space_as_plus : Bytes → ℕ → Option Bytes
  unfolding internal_url_encode
  url_encode_without_encoding_space_as_plus source max = internal_url_encode source max false false

  unfoldable pub url_encode_only_unsafe_chars : Bytes → ℕ → Option Bytes
  unfolding internal_url_encode
  url_encode_only_unsafe_chars source max = internal_url_encode source max false true

-- The std::string of a C string.
unfoldable pub c_string : Bytes → Bytes
c_string [] = []
c_string (c ∷ s) = if c == 0 then [] else c ∷ c_string s

unfoldable pub internal_url_decode_string : Bytes → Bool → Bytes
unfolding internal_url_decode c_string
internal_url_decode_string encoded plus = c_string (internal_url_decode encoded plus)

unfoldable pub url_decode : Bytes → Bytes
unfolding internal_url_decode
url_decode source = internal_url_decode source true

unfoldable pub url_decode_without_encoding_space_as_plus : Bytes → Bytes
unfolding internal_url_decode
url_decode_without_encoding_space_as_plus source = internal_url_decode source false

unfoldable pub url_decode_string : Bytes → Bytes
unfolding internal_url_decode_string
url_decode_string encoded = internal_url_decode_string encoded true

unfoldable pub url_decode_string_without_encoding_space_as_plus : Bytes → Bytes
unfolding internal_url_decode_string
url_decode_string_without_encoding_space_as_plus encoded = internal_url_decode_string encoded false

module _ (isalnum : ℕ → Bool) where
  unfoldable pub internal_url_encode_string : Bytes → Bool → Bool → Option Bytes
  unfolding internal_url_encode c_string
  internal_url_encode_string decoded plus unsafe_only =
      Option.map c_string
        (internal_url_encode isalnum decoded (length decoded * 3 + 1) plus unsafe_only)

  unfoldable pub url_encode_string : Bytes → Option Bytes
  unfolding internal_url_encode_string
  url_encode_string decoded = internal_url_encode_string decoded true false

  unfoldable pub url_encode_string_without_encoding_space_as_plus : Bytes → Option Bytes
  unfolding internal_url_encode_string
  url_encode_string_without_encoding_space_as_plus decoded =
      internal_url_encode_string decoded false false

  unfoldable pub url_encode_string_for_only_unsafe_chars : Bytes → Option Bytes
  unfolding internal_url_encode_string
  url_encode_string_for_only_unsafe_chars decoded = internal_url_encode_string decoded false true
