-- ===== src/UrlEncode/RoundTrip.antt =====
-- What the decoder of urlencode.cc makes of the output of the encoder.
use txmpp.Common.{
  ℕ, ◌+◌, ◌*◌, ◌<◌, Bool, true, false, not, ◌&&◌, [], ◌∷◌, ◌++◌, ◌≡◌, refl, ap, ◌∙◌, AllTrue, nil,
  cons, AllTrue-append, arith, some, Bytes, length, ltb, ◌==◌,
}
use txmpp.UrlEncode.{
  decode_loop, internal_url_decode, ended, encode_loop, internal_url_encode, c_string,
  internal_url_decode_string, internal_url_encode_string,
}
use txmpp.UrlEncode.Pieces.{IsAsciiAlnum, IsRead, encode_one-IsRead, in_string}

-- What a piece and the rest decode to.
decode_loop_skip :
    (plus : Bool) (front s : Bytes)
    → decode_loop plus (length front) (front ++ s) ≡ decode_loop plus 0 s
unfolding decode_loop
decode_loop_skip plus [] s = refl
decode_loop_skip plus (x ∷ front) s = decode_loop_skip plus front s

decode_loop-piece :
    {plus : Bool} {c : ℕ} {piece : Bytes} (s : Bytes)
    → IsRead plus c piece
    → decode_loop plus 0 (piece ++ s) ≡ c ∷ decode_loop plus 0 s
unfolding decode_loop
decode_loop-piece {plus} s r =
    rw (r.splits, decode_loop, r.first_stands, r.reads s, decode_loop_skip plus r.behind s) refl

c_string_all : {s : Bytes} → AllTrue in_string s → c_string s ≡ s
unfolding c_string
c_string_all nil = refl
c_string_all (cons {x = c} h t) =
    let stands : (c == 0) ≡ false = ground (arith, h) in rw (stands, c_string_all t) refl

module _ (isalnum : ℕ → Bool) (alnum : IsAsciiAlnum isalnum) where
  -- The whole text is written and read back.
  encode-decode_loop :
      (max n : ℕ) (plus : Bool) {s : Bytes}
      → AllTrue in_string s
      → n + 3 * length s < max
      → (out : Bytes) × (encode_loop isalnum max plus false n s ≡ some out)
        × AllTrue in_string out
        × (decode_loop plus 0 out ≡ s)
  unfolding encode_loop decode_loop ended
  encode-decode_loop max n plus nil lt = ([], ground arith, nil, refl)
  encode-decode_loop max n plus (cons {x = c} {xs = s} h t) lt =
      let (out, e, r) = encode_one-IsRead isalnum alnum max n plus c h (omega (arith, lt)) in
      let small = r.small in
      let (more, e', good, back) =
        encode-decode_loop max (n + length out) plus t (omega (arith, lt, small)) in
      let go : (ltb n max && not (c == 0)) ≡ true = ground (arith, lt, h) in
      (
        out ++ more,
        rw (encode_loop, go, e, e') refl,
        AllTrue-append more r.stands good,
        decode_loop-piece more r ∙ ap (◌∷◌ c) back,
      )

-- InternalUrlEncodeString and InternalUrlDecodeString on a string of bytes without a null, with
-- the same choice for spaces and not only for unsafe characters, with an isalnum that is right on
-- ASCII: the buffer of the encoder is large enough, and decoding gives the string back.
pub url_decode-url_encode_string :
    (isalnum : ℕ → Bool)
    → IsAsciiAlnum isalnum
    → (encode_space_as_plus : Bool) {decoded : Bytes} → AllTrue in_string decoded
    → (encoded : Bytes) × (internal_url_encode_string isalnum decoded encode_space_as_plus false
        ≡ some encoded)
      × (internal_url_decode_string encoded encode_space_as_plus ≡ decoded)
unfolding internal_url_encode_string internal_url_encode internal_url_decode_string
    internal_url_decode
url_decode-url_encode_string isalnum alnum plus {decoded = s} h =
    let (out, e, good, back) =
      encode-decode_loop isalnum alnum (length s * 3 + 1) 0 plus h (omega arith) in
    let room : (length s * 3 + 1 == 0) ≡ false = ground arith in
    (out, rw (room, e) (ap some (c_string_all good)), rw back (c_string_all h))
