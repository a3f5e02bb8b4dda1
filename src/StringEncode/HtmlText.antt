-- ===== src/StringEncode/HtmlText.antt =====
-- What html_decode makes of the output of html_encode (stringencode.cc).
use txmpp.Common.{
  ℕ, suc, ◌+◌, ◌≤◌, true, false, not, List, [], ◌∷◌, ◌++◌, some, some_inj, none_not_some, Bytes,
  codes, length, length-append, decimal, decimal_short, ltb, leb, if◌then◌else◌, arith, ◌≡◌, refl,
  sym, ap, subst, ◌∙◌, inl, inr, Bool-cases, AllTrue, nil, cons, false_not_true,
}
use txmpp.StringEncode.{is_unsafe, xml_unsafe, put_all}
use txmpp.StringEncode.Characters.{utf8_decode-utf8_encode, utf8_encode_one, utf8_decode_one}
use txmpp.StringEncode.Entities.{
  html_escape, html_read, html_loop, html_encode, html_decode, Strtoul, xml_decode,
}
use txmpp.StringEncode.ReadBack.{Restored, xml_loop_all, texts}
use txmpp.StringEncode.Utf8.{utf8_decode}
use txmpp.StringEncode.XmlText.{Special, lt_sign, gt_sign, apos, quot, amp, unsafe-Special}
use txmpp.StringEncode.HtmlPieces.{
  ReadsDecimal, html_back, html_char, html_read_big, html_read_small, is_character, numbered_lem,
  utf8,
}

-- The first byte of a character that takes more than one.
first_byte :
    (v b : ℕ) (more s : Bytes)
    → utf8_decode (b ∷ s) ≡ some (suc (length more), v)
    → ltb v 128 ≡ false
    → ltb b 128 ≡ false
first_byte v b more s e big = elim (Bool-cases (ltb b 128)) [
  | inr h ↦ h
  | inl h ↦
      let same = ap (λ p. p.1) (some_inj (sym (utf8_decode_one b s (ground (arith, h))) ∙ e)) in
      absurd (ground (arith, same, h, big))
]

head : {b v : ℕ} {s t : Bytes} → b ∷ s ≡ v ∷ t → b ≡ v
head k = cc

longer : {b x v : ℕ} {s : Bytes} → b ∷ x ∷ s ≡ v ∷ [] → false ≡ true
longer k = cc

-- A character has a first byte.
nonempty : (v : ℕ) → is_character v ≡ true → (b : ℕ) × (more : Bytes) × (utf8 v ≡ b ∷ more)
unfolding utf8_decode
nonempty v h = go (utf8 v) refl (utf8_decode-utf8_encode v 4 [] (ground (arith, h)) (omega arith))
  where
    go :
        (out : Bytes)
        → utf8 v ≡ out
        → utf8_decode (out ++ []) ≡ some (length out, v)
        → (b : ℕ) × (more : Bytes) × (utf8 v ≡ b ∷ more)
    go [] e k = absurd (none_not_some k)
    go (b ∷ more) e k = (b, more, e)

-- On UTF-8 text html_encode takes a character at a time.
html_read_lem :
    (v b : ℕ) (more s : Bytes)
    → utf8 v ≡ b ∷ more
    → is_character v ≡ true
    → html_read b (more ++ s) ≡ (html_char v, length more)
html_read_lem v b more s e h = elim (Bool-cases (ltb v 128)) [
  | inl small ↦ go b more (sym e ∙ utf8_encode_one v 4 (ground (arith, small)) (omega arith)) small
  | inr big ↦
      let reads =
        subst (λ u. utf8_decode (u ++ s) ≡ some (length u, v)) e
          (utf8_decode-utf8_encode v 4 s (ground (arith, h)) (omega arith)) in
      html_read_big v b (length more) (more ++ s) (first_byte v b more (more ++ s) reads big) big
        reads
]
  where
    go :
        (b : ℕ) (more : Bytes)
        → b ∷ more ≡ v ∷ []
        → ltb v 128 ≡ true
        → html_read b (more ++ s) ≡ (html_char v, length more)
    go b [] k small = rw (head k) (html_read_small v s small)
    go b (x ∷ more) k small = absurd (false_not_true (longer k))

html_loop_skip :
    (n a : ℕ) (front s : Bytes) → html_loop n a (length front) (front ++ s) ≡ html_loop n a 0 s
unfolding html_loop
html_loop_skip n a [] s = refl
html_loop_skip n a (x ∷ front) s = html_loop_skip n a front s

html_loop_step :
    (n a v b : ℕ) (more s : Bytes)
    → utf8 v ≡ b ∷ more
    → is_character v ≡ true
    → html_loop n a 0 (utf8 v ++ s) ≡ (
        if not (ltb (a + 1) n)
        then []
        else if leb n (a + length (html_char v))
        then []
        else html_char v ++ html_loop n (a + length (html_char v)) 0 s)
unfolding html_loop
html_loop_step n a v b more s e h =
    rw
      (
        e,
        html_loop,
        html_read_lem v b more s e h,
        html_loop_skip n (a + length (html_char v)) more s,
      )
      refl

html_loop-put_all :
    (n a : ℕ) {cs : List ℕ}
    → AllTrue is_character cs
    → html_loop n a 0 (texts utf8 cs) ≡ put_all html_char n a cs
unfolding html_loop put_all
html_loop-put_all n a nil = refl
html_loop-put_all n a (cons {x = v} {xs = cs} h t) =
    let (b, more, e) = nonempty v h in
    html_loop_step n a v b more (texts utf8 cs) e h
    ∙ rw (html_loop-put_all n (a + length (html_char v)) t) refl

entity_small : {v : ℕ} → Special v → length (html_escape v) ≤ 10
unfolding html_escape
entity_small lt_sign = omega arith
entity_small gt_sign = omega arith
entity_small apos = omega arith
entity_small quot = omega arith
entity_small amp = omega arith

html_char_small : (v : ℕ) → is_character v ≡ true → length (html_char v) ≤ 10
unfolding html_char
html_char_small v h = elim (Bool-cases (ltb v 128)) [
  | inl small ↦ elim (Bool-cases (is_unsafe xml_unsafe v)) [
    | inl u ↦ rw (small, u) (entity_small (unsafe-Special v u))
    | inr u ↦ rw (small, u) (omega arith)
  ]
  | inr big ↦
      rw (big, numbered_lem v)
        (omega
          (arith, length-append (decimal v) (codes ";"), decimal_short v 6 (ground (arith, h))))
]

-- html_encode and html_decode, with one buffer length for both that is not 0, on the UTF-8 text of
-- characters below 2 ^ 21, with a strtoul that reads decimal numbers: the decoder never stores
-- behind the end of its buffer, and gives back the text of a beginning of the characters, also
-- where the encoder ran out of room, and of all of them when the length is over ten times their
-- number.
pub html_decode-html_encode :
    (strtoul : Strtoul)
    → ReadsDecimal strtoul
    → (buflen : ℕ) {characters : List ℕ} → AllTrue is_character characters
    → 1 ≤ buflen
    → Restored utf8 buflen 10 characters
        (html_decode strtoul buflen (html_encode buflen (texts utf8 characters)))
unfolding html_decode xml_decode html_encode
html_decode-html_encode strtoul reads n h lt =
    let room : leb n 0 ≡ false = ground arith in
    rw (room, html_loop-put_all n 0 h)
      (xml_loop_all strtoul html_char utf8 is_character (html_back strtoul reads) 10 html_char_small
        n h lt)
