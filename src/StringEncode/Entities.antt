-- ===== src/StringEncode/Entities.antt =====
-- Entities of XML and HTML (xml_encode, xml_decode and html_encode of stringencode.cc).
use mathlib.Core.Option
use txmpp.Common.{
  ℕ, zero, suc, ◌+◌, ◌-◌, true, false, not, [], ◌∷◌, ◌++◌, Option, none, some, Bytes, codes, length,
  drop, starts_with, decimal, ltb, leb, ◌==◌, if◌then◌else◌,
}
use txmpp.StringEncode.{is_unsafe, xml_unsafe, put_all}
use txmpp.StringEncode.Utf8.{utf8_decode, utf8_encode}

-- The switch of xml_encode; nothing stands for its failed assertion.
unfoldable pub xml_escape : ℕ → Bytes
xml_escape ch =
    if ch == b'<'
    then codes "&lt;"
    else if ch == b'>'
    then codes "&gt;"
    else if ch == b'\''
    then codes "&apos;"
    else if ch == b'"'
    then codes "&quot;"
    else if ch == b'&'
    then codes "&amp;"
    else []

unfoldable pub xml_piece : ℕ → Bytes
unfolding is_unsafe xml_escape
xml_piece ch = if is_unsafe xml_unsafe ch then xml_escape ch else ch ∷ []

unfoldable pub xml_encode : ℕ → Bytes → Bytes
unfolding put_all xml_piece
xml_encode buflen source = if leb buflen 0 then [] else put_all xml_piece buflen 0 source

-- What xml_decode makes of the text behind '&': one of the five characters, the value that strtoul
-- reads behind '#', or no escape sequence; and the number of characters to step over.
pub data Entity : Type 0 where
  known : ℕ → ℕ → Entity
  numeric : ℕ → ℕ → Entity
  unknown : Entity

-- strtoul: the base and the text behind '#' or '#x' give the value and the number of characters
-- that it read.
abbrev pub Strtoul : Type 0
Strtoul = ℕ → Bytes → ℕ × ℕ

-- The ';' behind the number.
unfoldable pub numeric_entity : ℕ → ℕ × ℕ → Bytes → Entity
numeric_entity before (value, n) s =
    if starts_with (codes ";") (drop n s) then numeric value (before + n + 1) else unknown

unfoldable pub entity_at : Strtoul → Bytes → Entity
unfolding numeric_entity starts_with
entity_at strtoul s =
    if starts_with (codes "lt;") s
    then known b'<' 3
    else if starts_with (codes "gt;") s
    then known b'>' 3
    else if starts_with (codes "apos;") s
    then known b'\'' 5
    else if starts_with (codes "quot;") s
    then known b'"' 5
    else if starts_with (codes "amp;") s
    then known b'&' 4
    else if starts_with (codes "#x") s
    then numeric_entity 2 (strtoul 16 (drop 2 s)) (drop 2 s)
    else if starts_with (codes "#") s
    then numeric_entity 1 (strtoul 10 (drop 1 s)) (drop 1 s)
    else unknown

-- One round of xml_decode, with room characters left: the bytes that it stores and the number of
-- characters that it steps over behind the one at hand, or none where it breaks off.
unfoldable pub xml_read : Strtoul → ℕ → ℕ → Bytes → Option (Bytes × ℕ)
unfolding entity_at utf8_encode
xml_read strtoul room ch s =
    if not (ch == b'&') then some (ch ∷ [], 0) else elim (entity_at strtoul s) [
      | known c n ↦ some (c ∷ [], n)
      | numeric value n ↦ elim (utf8_encode room value) [
        | [] ↦ none
        | b ∷ more ↦ some (b ∷ more, n)
      ]
      | unknown ↦ none
    ]

-- The null behind what was stored; none where it would stand behind the end of the buffer.
unfoldable pub terminated : ℕ → ℕ → Option Bytes
terminated buflen bufpos = if ltb bufpos buflen then some [] else none

-- The loop of xml_decode, with skip characters to step over.
unfoldable pub xml_loop : Strtoul → ℕ → ℕ → ℕ → Bytes → Option Bytes
unfolding xml_read terminated
xml_loop strtoul buflen bufpos skip [] = terminated buflen bufpos
xml_loop strtoul buflen bufpos (suc skip) (ch ∷ s) = xml_loop strtoul buflen bufpos skip s
xml_loop strtoul buflen bufpos zero (ch ∷ s) =
    let stop = terminated buflen bufpos in
    elim (ltb (bufpos + 1) buflen) [
      | false ↦ stop
      | true ↦ elim (xml_read strtoul (buflen - bufpos) ch s) [
        | none ↦ stop
        | some (out, n) ↦ Option.map (◌++◌ out) (xml_loop strtoul buflen (bufpos + length out) n s)
      ]
    ]

unfoldable pub xml_decode : Strtoul → ℕ → Bytes → Option Bytes
unfolding xml_loop
xml_decode strtoul buflen source =
    if leb buflen 0 then some [] else xml_loop strtoul buflen 0 0 source

-- The switch of html_encode, which has another sequence for the apostrophe.
unfoldable pub html_escape : ℕ → Bytes
html_escape ch =
    if ch == b'<'
    then codes "&lt;"
    else if ch == b'>'
    then codes "&gt;"
    else if ch == b'\''
    then codes "&#39;"
    else if ch == b'"'
    then codes "&quot;"
    else if ch == b'&'
    then codes "&amp;"
    else []

-- "&#%lu;"
unfoldable pub numbered : ℕ → Bytes
unfolding decimal
numbered value = codes "&#" ++ decimal value ++ codes ";"

-- One round of html_encode: what it stores, and the characters that it steps over behind the one
-- at hand. A byte that starts no UTF-8 character stands for itself.
unfoldable pub html_read : ℕ → Bytes → Bytes × ℕ
unfolding is_unsafe html_escape numbered utf8_decode
html_read ch s =
    if ltb ch 128
    then (if is_unsafe xml_unsafe ch then html_escape ch else ch ∷ [], 0)
    else elim (utf8_decode (ch ∷ s)) [
      | some (suc n, value) ↦ (numbered value, n)
      | _ ↦ (numbered ch, 0)
    ]

unfoldable pub html_loop : ℕ → ℕ → ℕ → Bytes → Bytes
unfolding html_read
html_loop buflen bufpos skip [] = []
html_loop buflen bufpos (suc skip) (ch ∷ s) = html_loop buflen bufpos skip s
html_loop buflen bufpos zero (ch ∷ s) =
    let (out, n) = html_read ch s in
    let rest = html_loop buflen (bufpos + length out) n s in
    if not (ltb (bufpos + 1) buflen)
    then []
    else if leb buflen (bufpos + length out)
    then []
    else out ++ rest

unfoldable pub html_encode : ℕ → Bytes → Bytes
unfolding html_loop
html_encode buflen source = if leb buflen 0 then [] else html_loop buflen 0 0 source

unfoldable pub html_decode : Strtoul → ℕ → Bytes → Option Bytes
unfolding xml_decode
html_decode strtoul buflen source = xml_decode strtoul buflen source
