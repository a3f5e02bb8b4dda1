-- ===== src/Tests/Texts.antt =====
-- The encodings of strings (stringencode.cc, urlencode.cc) at concrete inputs.
use txmpp.Common.{
  ℕ, ◌+◌, ◌-◌, ◌*◌, Bool, true, false, ◌&&◌, ◌||◌, ◌≡◌, refl, ap, ◌∙◌, List, [], ◌∷◌, ◌++◌, some,
  none, codes, Bytes, length, nil, cons, AllTrue, arith, is_digit, decimal, value_from,
  decimal-AllTrue, value-decimal, leb, if◌then◌else◌,
}
use txmpp.StringEncode.{escape, url_encode, url_decode, hex_decode}
use txmpp.StringEncode.Characters.{utf8_decode-utf8_encode}
use txmpp.StringEncode.Cuts.{split-tokenize, joined, lacks, filled}
use txmpp.StringEncode.Entities.{Strtoul, xml_encode, xml_decode, html_encode, html_decode}
use txmpp.StringEncode.Fields.{split, tokenize}
use txmpp.StringEncode.HtmlPieces.{ReadsDecimal, utf8}
use txmpp.StringEncode.HtmlText.{html_decode-html_encode}
use txmpp.StringEncode.ReadBack.{Restored, texts}
use txmpp.StringEncode.RoundTrip.{Returns, url_decode-url_encode}
use txmpp.StringEncode.Utf8.{utf8_encode, utf8_decode}
use txmpp.StringEncode.XmlText.{xml_decode-xml_encode, alone}
use txmpp.UrlEncode
use txmpp.UrlEncode.Pieces.{IsAsciiAlnum}
use txmpp.UrlEncode.RoundTrip.{url_decode-url_encode_string}

-- An escape sequence that does not fit is not begun.
cut_short : escape 4 (codes "a,b,c") (codes ",") b'\\' ≡ codes "a\\,"
unfolding escape
cut_short = refl

-- hex_decode takes letters that are no digits.
not_a_digit : hex_decode b'Z' ≡ some 35
unfolding hex_decode
not_a_digit = refl

-- A strtoul that reads decimal digits.
read_digits : ℕ → ℕ → Bytes → ℕ × ℕ
read_digits v n [] = (v, n)
read_digits v n (c ∷ s) =
    let rest = read_digits (v * 10 + (c - 48)) (n + 1) s in if is_digit c then rest else (v, n)

strtoul : Strtoul
strtoul _ s = read_digits 0 0 s

read_digits_lem :
    (v n c : ℕ) {ds : Bytes} (rest : Bytes)
    → AllTrue is_digit ds
    → is_digit c ≡ false
    → read_digits v n (ds ++ c ∷ rest) ≡ (value_from v ds, n + length ds)
unfolding read_digits
read_digits_lem v n c rest nil h = rw h (ap (λ k. (v, k)) (omega arith))
read_digits_lem v n c rest (cons {x = d} {xs = ds} a t) h = rw a (
    read_digits_lem (v * 10 + (d - 48)) (n + 1) c rest t h
    ∙ ap (λ k. (value_from (v * 10 + (d - 48)) ds, k)) (omega arith))

strtoul-ReadsDecimal : ReadsDecimal strtoul
unfolding strtoul
strtoul-ReadsDecimal value c rest small h =
    read_digits_lem 0 0 c rest (decimal-AllTrue value) h
    ∙ ap (λ v. (v, 0 + length (decimal value))) (value-decimal value)
    ∙ ap (λ k. (value, k)) (omega arith)

-- A character that fills the buffer leaves the null no room.
null_behind : xml_decode strtoul 2 (codes "&#128;") ≡ none
unfolding xml_decode strtoul read_digits is_digit
null_behind = refl

abbrev letter : List ℕ
letter = 0xE9 ∷ b'<' ∷ 0x1F600 ∷ []

written : html_encode 64 (texts utf8 letter) ≡ codes "&#233;&lt;&#128512;"
unfolding html_encode utf8_encode
written = refl

html_decode-html_encode_example :
    Restored utf8 64 10 letter (html_decode strtoul 64 (html_encode 64 (texts utf8 letter)))
html_decode-html_encode_example =
    html_decode-html_encode strtoul strtoul-ReadsDecimal 64 (cons refl (cons refl (cons refl nil)))
      (omega arith)

xml_decode-xml_encode_example :
    Restored alone 9 6 (codes "a<b>") (xml_decode strtoul 9 (xml_encode 9 (codes "a<b>")))
xml_decode-xml_encode_example = xml_decode-xml_encode strtoul 9 (codes "a<b>") (omega arith)

url_decode-url_encode_example :
    Returns 8 3
      (codes "a+b")
      (url_encode 8 (codes "a+b"))
      (url_decode 8 (url_encode 8 (codes "a+b")))
url_decode-url_encode_example = url_decode-url_encode 8 (cons refl (cons refl (cons refl nil)))

utf8_decode-utf8_encode_example :
    utf8_decode (utf8_encode 4 0x20AC ++ codes "!") ≡ some (length (utf8_encode 4 0x20AC), 0x20AC)
utf8_decode-utf8_encode_example =
    utf8_decode-utf8_encode 0x20AC 4 (codes "!") (omega arith) (omega arith)

-- An overlong sequence is read.
overlong : utf8_decode (0xC1 ∷ 0x81 ∷ []) ≡ some (2, b'A')
unfolding utf8_decode
overlong = refl

split-tokenize_example :
    (joined b'/' (split (codes "a//b/") b'/') ≡ codes "a//b/")
    × AllTrue (lacks b'/') (split (codes "a//b/") b'/')
    × (tokenize (codes "a//b/") b'/' ≡ filled (split (codes "a//b/") b'/'))
split-tokenize_example = split-tokenize (codes "a//b/") b'/'

isalnum : ℕ → Bool
isalnum c = is_digit c || (leb b'A' c && leb c b'Z') || (leb b'a' c && leb c b'z')

isalnum-IsAsciiAlnum : IsAsciiAlnum isalnum
unfolding isalnum
isalnum-IsAsciiAlnum c h = refl

-- A text that fills the buffer leaves the null no room.
filled_up : UrlEncode.url_encode isalnum (codes "abc") 3 ≡ none
unfolding UrlEncode.url_encode isalnum is_digit
filled_up = refl

url_decode-url_encode_string_example :
    (encoded : Bytes) × (UrlEncode.internal_url_encode_string isalnum (codes "a b+c") true false
      ≡ some encoded)
    × (UrlEncode.internal_url_decode_string encoded true ≡ codes "a b+c")
url_decode-url_encode_string_example =
    url_decode-url_encode_string isalnum isalnum-IsAsciiAlnum true
      (cons refl (cons refl (cons refl (cons refl (cons refl nil)))))
