-- ===== src/StringEncode/RoundTrip.antt =====
-- What the decoders of stringencode.cc make of the output of the encoders.
use txmpp.Common.{
  ℕ, ◌*◌, ◌≤◌, ◌<◌, Bool, true, false, ◌≡◌, refl, ◌⊎◌, inl, inr, [], ◌∷◌, Bytes, length, leb,
  if◌then◌else◌, arith, Bool-cases, AllTrue, nil, cons,
}
use txmpp.StringEncode.{
  put_all, get_all, escape_piece, escape, unescaped, unescape, hex_piece, encode_piece, encode,
  decoded, decode, url_piece, url_encode, url_decoded, url_decode, is_unsafe, url_unsafe,
}
use txmpp.StringEncode.Loops.{Begins, Reads, get_all-put_all, get_all-put_all_whole, put_all_bounds}
use txmpp.StringEncode.Pieces.{encode_back, escape_back, is_byte, url_back}

-- What a text s comes back as from a buffer of n characters, where out was encoded.
abbrev pub Returns : ℕ → ℕ → Bytes → Bytes → Bytes → Type 0
Returns n k s out back =
    Begins back s × ((n ≤ k * length s) ⊎ (back ≡ s)) × ((n ≡ 0) ⊎ (length out < n))

-- The loops behind the test for an empty buffer.
abbrev put_in : (ℕ → Bytes) → ℕ → Bytes → Bytes
put_in piece n s = if leb n 0 then [] else put_all piece n 0 s

abbrev get_in : (ℕ → Bytes → ℕ × ℕ) → ℕ → Bytes → Bytes
get_in reading n s = if leb n 0 then [] else get_all reading n 0 0 s

module _ (piece : ℕ → Bytes) (reading : ℕ → Bytes → ℕ × ℕ) (p : ℕ → Bool)
    (back : (ch : ℕ) → p ch ≡ true → Reads piece reading ch) where
  get_in-put_in :
      (k : ℕ)
      → ((ch : ℕ) → length (piece ch) ≤ k)
      → (n : ℕ) {s : Bytes} → AllTrue p s
      → Returns n k s (put_in piece n s) (get_in reading n (put_in piece n s))
  get_in-put_in k small n {s} h = elim (Bool-cases (leb n 0)) [
    | inl e ↦ rw e ((s, refl), inl (ground (arith, e)), inl (ground (arith, e)))
    | inr e ↦
        let fits = put_all_bounds piece n 0 s (ground (arith, e)) in
        rw e (
          get_all-put_all piece reading p back 0 0 h (omega arith) (omega arith),
          whole (Bool-cases (leb n (k * length s))),
          inr (omega (arith, fits)),
        )
  ]
    where
      whole :
          (leb n (k * length s) ≡ true) ⊎ (leb n (k * length s) ≡ false)
          → (n ≤ k * length s) ⊎ (get_all reading n 0 0 (put_all piece n 0 s) ≡ s)
      whole (inl e) = inl (ground (arith, e))
      whole (inr e) = inr (
          get_all-put_all_whole piece reading p back k small 0 0 h (omega arith) (omega arith)
            (ground (arith, e)))

every : (s : Bytes) → AllTrue (λ _. true) s
every [] = nil
every (x ∷ s) = cons refl (every s)

escape_piece_small : (illegal : Bytes) (e ch : ℕ) → length (escape_piece illegal e ch) ≤ 2
unfolding escape_piece
escape_piece_small illegal e ch = ground arith

encode_piece_small : (illegal : Bytes) (e ch : ℕ) → length (encode_piece illegal e ch) ≤ 3
unfolding encode_piece hex_piece
encode_piece_small illegal e ch = ground arith

url_piece_small : (ch : ℕ) → length (url_piece ch) ≤ 3
unfolding url_piece hex_piece
url_piece_small ch = elim (Bool-cases (is_unsafe url_unsafe ch)) [
  | inl e ↦ rw e (omega arith)
  | inr e ↦ rw e (omega arith)
]

-- escape and unescape, with one buffer length for both: the escaped text leaves room for the null,
-- if the length is not 0; unescape gives back a beginning of the text, also where escape ran out
-- of room, and the whole of it when the length is over twice that of the text.
pub unescape-escape :
    (buflen : ℕ) (source illegal : Bytes) (sign : ℕ)
    → Returns buflen 2 source
        (escape buflen source illegal sign)
        (unescape buflen (escape buflen source illegal sign) sign)
unfolding escape unescape
unescape-escape n s illegal e =
    get_in-put_in (escape_piece illegal e) (unescaped e) (λ _. true)
      (λ ch _. escape_back illegal e ch) 2 (escape_piece_small illegal e) n (every s)

-- encode and decode, with one buffer length for both, on bytes: the encoded text leaves room for
-- the null, if the length is not 0; decode gives back a beginning of the text, also where encode
-- ran out of room, and the whole of it when the length is over three times that of the text.
pub decode-encode :
    (buflen : ℕ) {source : Bytes} (illegal : Bytes) (sign : ℕ)
    → AllTrue is_byte source
    → Returns buflen 3 source
        (encode buflen source illegal sign)
        (decode buflen (encode buflen source illegal sign) sign)
unfolding encode decode
decode-encode n illegal e h =
    get_in-put_in (encode_piece illegal e) (decoded e) is_byte (encode_back illegal e) 3
      (encode_piece_small illegal e) n h

-- url_encode and url_decode, with one buffer length for both, on bytes: the encoded text leaves
-- room for the null, if the length is not 0; url_decode gives back a beginning of the text, also
-- where url_encode ran out of room, and the whole of it when the length is over three times that
-- of the text.
pub url_decode-url_encode :
    (buflen : ℕ) {source : Bytes}
    → AllTrue is_byte source
    → Returns buflen 3 source
        (url_encode buflen source)
        (url_decode buflen (url_encode buflen source))
unfolding url_encode url_decode
url_decode-url_encode n h =
    get_in-put_in url_piece url_decoded is_byte url_back 3 url_piece_small n h
